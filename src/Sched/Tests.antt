-- ===== src/Sched/Tests.antt =====
-- The scheduler on concrete calls.
use iot_edge_opc_proxy.Base.{
  ℕ, ◌^◌, ◌≡◌, ◌↔◌, refl, arith, true, false, [], ◌∷◌, ◌++◌, map, none, some,
}
use iot_edge_opc_proxy.Error.{Error, is_ok}
use iot_edge_opc_proxy.Dlist.{plain, plain-IsDlist}
use iot_edge_opc_proxy.Sched.{
  create, set_up, fresh, Task, Scheduler, queue, kill, clear, get_next, work, exits, entry, matches,
}
use iot_edge_opc_proxy.Sched.Order.{IsSorted, IsQueued, entry_of, queue_lem}
use iot_edge_opc_proxy.Sched.Removal.{kept, picked, clear_lem}
use iot_edge_opc_proxy.Sched.Next.{IsNext, get_next_lem, get_next-queue_far, work_stops}
use iot_edge_opc_proxy.Sched.Kill.{Kills, kill_lem}
use iot_edge_opc_proxy.Sched.Reach.{steps, steps-IsSorted, queues, kills, clears, works}

abbrev task : ℕ → ℕ → ℕ → Task
task id deadline context = record {
  id = id;
  queued = 1;
  deadline = deadline;
  handler = 7;
  context = context;
}

abbrev busy : Scheduler
busy = record {
  now = task 1 1 5 ∷ task 2 1 6 ∷ [];
  later = task 3 10 5 ∷ task 4 20 6 ∷ [];
  should_run = true;
  refs = 1;
  released = [];
}

abbrev empty : Scheduler
empty = record { now = []; later = []; should_run = false; refs = 1; released = [] }

queue_example :
    let (s', r) = queue (plain Task) busy 7 5 9 (some 5) 3 in
    (r ≡ entry 5) × (s'.released ≡ []) × IsQueued 9 (entry_of 7 5 9 5 3) busy s' × IsSorted s'.later
queue_example =
    queue_lem (plain Task) (plain-IsDlist Task) busy 7 5 9 5 3 (omega arith) (omega arith)

clear_example : clear (plain Task) busy 0 5 ≡ record busy {
  now = kept (matches 0 5) busy.now;
  later = kept (matches 0 5) busy.later;
  released =
      [] ++ map (λ t. t.id) (picked (matches 0 5) busy.now ++ picked (matches 0 5) busy.later);
}
clear_example = clear_lem (plain Task) (plain-IsDlist Task) busy 0 5

kill_example : Kills 3 busy (kill (plain Task) busy 3)
kill_example = kill_lem (plain Task) (plain-IsDlist Task) busy 3

get_next_example : IsNext 12 busy (get_next (plain Task) busy 12)
get_next_example =
    get_next_lem (plain Task) (plain-IsDlist Task) busy 12 (omega arith) (omega arith) (omega arith)

far_example :
    let (s', r) = queue (plain Task) empty 7 5 (2 ^ 31) (some 9) 100 in
    (get_next (plain Task) s' 100).1 ≡ some (entry_of 7 5 (2 ^ 31) 9 100)
far_example =
    get_next-queue_far (plain Task) (plain-IsDlist Task) empty 7 5 (2 ^ 31) 9 100 (omega arith)
      (omega arith) (omega arith) (omega arith) refl

stops_example :
    ((work (plain Task) empty 3).1 ≡ exits)
    ↔ ((empty.should_run ≡ false) × (empty.now ≡ []) × (empty.later ≡ []))
stops_example = work_stops (plain Task) empty 3

steps_example :
    IsSorted
      (steps (plain Task) empty (
        queues 7 5 9 (some 1) 3
        ∷ queues 7 6 4 (some 2) 3
        ∷ works 8
        ∷ clears 7 0
        ∷ kills 2
        ∷ [])).later
steps_example =
    steps-IsSorted (plain Task) (plain-IsDlist Task) empty
      (queues 7 5 9 (some 1) 3 ∷ queues 7 6 4 (some 2) 3 ∷ works 8 ∷ clears 7 0 ∷ kills 2 ∷ []) tt

-- The head of the later tasks is due at its deadline, not before.
due_now : (get_next (plain Task) busy 10).1 ≡ some (task 3 10 5)
unfolding get_next
due_now = refl

not_due_yet : (get_next (plain Task) busy 9).1 ≡ some (task 1 1 5)
unfolding get_next
not_due_yet = refl

cleared_ids : (clear (plain Task) busy 0 5).released ≡ 1 ∷ 3 ∷ []
unfolding clear
cleared_ids = refl

-- A scheduler is made new, or its parent is shared; a thread that does not start is er_fatal.
created_new : create none true Error.ok Error.ok Error.ok true ≡ (Error.ok, some fresh)
unfolding create set_up is_ok
created_new = refl

created_again :
    create (some busy) true Error.ok Error.ok Error.ok true
    ≡ (Error.ok, some (record busy { refs = 2 }))
unfolding create
created_again = refl

thread_fails : create none true Error.ok Error.ok Error.ok false ≡ (Error.fatal, none)
unfolding create set_up is_ok
thread_fails = refl
