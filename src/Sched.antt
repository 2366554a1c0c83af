-- ===== src/Sched.antt =====
-- src/prx_sched.c, the task scheduler. The two queues are the sequences of their entries. Ticks are
-- milliseconds since the start, never negative; an entry's pointer is its `id`. A function runs
-- under the scheduler's lock, so calls come one after the other.
pub mod Order
pub mod Removal
pub mod Next
pub mod Kill
pub mod Reach
mod Tests
use Prim.Native.Nat.{◌%◌, ◌^◌}
use iot_edge_opc_proxy.Base.{
  ℕ, zero, suc, ◌+◌, ◌-◌, Bool, true, false, ◌&&◌, ◌||◌, not, List, [], ◌∷◌, ◌++◌, Option, none,
  some, ltb, ◌==◌, if◌then◌else◌, length, get_elem?, map,
}
use iot_edge_opc_proxy.Base.Int.{ℤ, pos, negsuc, eqb_ℤ}
use iot_edge_opc_proxy.Error.{Error, is_ok}
use iot_edge_opc_proxy.Dlist.{Dlist}

-- `prx_task_entry_t`, without what is there for the log. A handler or a context is a pointer, 0 for
-- NULL.
pub record Task : Type 0 where
  pub id : ℕ
  pub queued : ℕ
  pub deadline : ℕ
  pub handler : ℕ
  pub context : ℕ

-- `struct prx_scheduler`, with its reference count. `released` is what went back to the task pool,
-- oldest first.
pub record Scheduler : Type 0 where
  pub now : List Task
  pub later : List Task
  pub should_run : Bool
  pub refs : ℕ
  pub released : List ℕ

-- `(int32_t)(a - b)` of two ticks.
abbrev pub ticks_diff : ℕ → ℕ → ℤ
ticks_diff a b =
    let low = (a + 2 ^ 64 - b) % 2 ^ 32 in
    if ltb low (2 ^ 31) then pos low else negsuc (2 ^ 32 - low - 1)

-- `x <= 0`.
abbrev pub is_nonpos : ℤ → Bool
is_nonpos (pos n) = n == 0
is_nonpos (negsuc n) = true

-- The loop of `prx_scheduler_queue`: the position of the first entry with a later deadline.
pub later_than : ℕ → List Task → Option ℕ
later_than deadline [] = none
later_than deadline (t ∷ ts) = elim (later_than deadline ts) [
  | none ↦ if ltb deadline t.deadline then some 0 else none
  | some i ↦ if ltb deadline t.deadline then some 0 else some (suc i)
]

-- The loop of `prx_scheduler_remove_by_id`.
pub position : ℕ → List Task → Option ℕ
position id [] = none
position id (t ∷ ts) = elim (position id ts) [
  | none ↦ if t.id == id then some 0 else none
  | some i ↦ if t.id == id then some 0 else some (suc i)
]

-- The test of `prx_scheduler_remove_by_task_type`; NULL is any handler, or any context.
abbrev pub matches : ℕ → ℕ → Task → Bool
matches handler context t =
    (context == 0 || t.context == context) && (handler == 0 || t.handler == handler)

-- What `prx_scheduler_queue` returns: the entry, er_fault, or -1.
pub data Queued : Type 0 where
  entry : ℕ → Queued
  fault : Queued
  no_memory : Queued

-- What one round of the worker does.
pub data Action : Type 0 where
  runs : Task → Action
  idles : ℤ → Action
  exits : Action

-- The scheduler with one reference as `prx_scheduler_create` sets it up, before its thread runs.
abbrev pub fresh : Scheduler
fresh = record { now = []; later = []; should_run = true; refs = 1; released = [] }

-- The steps of `prx_scheduler_create` that can fail, in their order: each but the last has an error
-- of its own.
unfoldable pub set_up : List Error → Bool → Error
set_up [] thread = if thread then Error.ok else Error.fatal
set_up (e ∷ es) thread = let rest = set_up es thread in if is_ok e then rest else e

-- `memory` is whether there is any for the scheduler; `pool`, `lock` and `signal` are what the
-- creations of these return, and `thread` is whether the thread starts.
unfoldable pub create :
    Option Scheduler → Bool → (pool lock signal : Error) → Bool → Error × Option Scheduler
unfolding set_up
create (some parent) memory pool lock signal thread =
    (Error.ok, some (record parent { refs = parent.refs + 1 }))
create none false pool lock signal thread = (Error.out_of_memory, none)
create none true pool lock signal thread =
    let e = set_up (pool ∷ lock ∷ signal ∷ []) thread in (e, if is_ok e then some fresh else none)

-- `prx_buffer_release(scheduler->task_pool, next)`: of the entry that `kill` found, if any, and of
-- the one whose handler has returned to `prx_scheduler_work`.
pub give_back : Scheduler → Option Task → Scheduler
give_back s none = s
give_back s (some t) = record s { released = s.released ++ (t.id ∷ []) }

pub finish : Scheduler → Task → Scheduler
unfolding give_back
finish s t = give_back s (some t)

found_any : Option Task → Bool
found_any none = false
found_any (some t) = true

module _ (d : Dlist Task) where
  pub remove_by_id : List Task → ℕ → List Task × Option Task
  remove_by_id q id = elim (position id q) [
    | none ↦ (q, none)
    | some i ↦ (d.remove q i, get_elem? q i)
  ]

  -- The loop of `prx_scheduler_remove_by_task_type` at position `i`, with `k` entries to go.
  pub remove_matching : ℕ → ℕ → List Task → List Task → ℕ → ℕ → List Task × List Task
  remove_matching handler context q result i zero = (q, result)
  remove_matching handler context q result i (suc k) = elim (get_elem? q i) [
    | none ↦ (q, result)
    | some t ↦ elim (matches handler context t) [
      | true ↦ remove_matching handler context (d.remove q i) (d.insert_tail result t) i k
      | false ↦ remove_matching handler context q result (suc i) k
    ]
  ]

  pub remove_by_task_type : ℕ → ℕ → List Task → List Task → List Task × List Task
  unfolding remove_matching
  remove_by_task_type handler context q result =
      remove_matching handler context q result 0 (length q)

  -- From the `now` queue, once `idle` is known.
  from_now : Scheduler → ℤ → List Task → Scheduler × Option Task × ℤ
  from_now s idle [] = (s, none, idle)
  from_now s idle (t ∷ ts) = (record s { now = d.remove (t ∷ ts) 0 }, some t, pos 0)

  from_later : Scheduler → ℕ → List Task → Scheduler × Option Task × ℤ
  unfolding from_now
  from_later s now [] = from_now s (negsuc 0) s.now
  from_later s now (t ∷ ts) =
      let idle = ticks_diff t.deadline now in
      if is_nonpos idle
      then (record s { later = d.remove (t ∷ ts) 0 }, some t, pos 0)
      else from_now s idle s.now

  -- The new scheduler, the candidate, and `*idle`.
  unfoldable pub get_next : Scheduler → ℕ → Scheduler × Option Task × ℤ
  unfolding from_later
  get_next s now = from_later s now s.later

  -- One round of the loop of `prx_scheduler_work` at the time `now`, up to the call of the handler.
  after_next : Scheduler × Option Task × ℤ → Scheduler × Action
  after_next (s, some t, idle) = (s, runs t)
  after_next (s, none, idle) =
      if not s.should_run && eqb_ℤ idle (negsuc 0) then (s, exits) else (s, idles idle)

  pub work : Scheduler → ℕ → Scheduler × Action
  unfolding after_next
  work s now = after_next (get_next s now)

  pub insert_ordered : List Task → Task → List Task
  insert_ordered q t = elim (later_than t.deadline q) [
    | none ↦ d.insert_tail q t
    | some i ↦ d.insert_before q i t
  ]

  -- `alloc` is the entry that the task pool hands out, if any, and `now` the clock.
  pub queue : Scheduler → ℕ → ℕ → ℕ → Option ℕ → ℕ → Scheduler × Queued
  unfolding insert_ordered
  queue s handler context delay none now = (s, if handler == 0 then fault else no_memory)
  queue s handler context delay (some id) now =
      if handler == 0
      then (s, fault)
      else (let t : Task = record {
        id = id;
        queued = now;
        deadline = now + delay;
        handler = handler;
        context = context;
      } in
          if delay == 0
          then (record s { now = d.insert_tail s.now t }, entry id)
          else (record s { later = insert_ordered s.later t }, entry id))

  kill_later : Scheduler → ℕ → Option Task → Scheduler × Option Task
  unfolding remove_by_id
  kill_later s id (some t) = (s, some t)
  kill_later s id none =
      let (later', found) = remove_by_id s.later id in (record s { later = later' }, found)

  pub kill : Scheduler → ℕ → Scheduler × Error
  unfolding remove_by_id kill_later give_back found_any
  kill s id =
      let (now', first) = remove_by_id s.now id in
      let (s', found) = kill_later (record s { now = now' }) id first in
      (give_back s' found, if found_any found then Error.ok else Error.not_found)

  unfoldable pub clear : Scheduler → ℕ → ℕ → Scheduler
  unfolding remove_by_task_type
  clear s handler context =
      let (now', found) = remove_by_task_type handler context s.now [] in
      let (later', free_list) = remove_by_task_type handler context s.later found in
      record s { now = now'; later = later'; released = s.released ++ map (λ t. t.id) free_list }

  pub release : Scheduler → ℕ → Scheduler
  unfolding clear
  release s context =
      let s' = if context == 0 then s else clear s 0 context in
      let refs = s'.refs - 1 in
      record s' { refs = refs; should_run = if refs == 0 then false else s'.should_run }
