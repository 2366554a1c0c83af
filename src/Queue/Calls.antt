-- ===== src/Queue/Calls.antt =====
-- The callbacks of the buffers of a queue: who is called with er_aborted, and how often.
use iot_edge_opc_proxy.Base.{ℕ, ◌≡◌, refl, ap, ◌∙◌, arith, List, [], ◌∷◌, ◌++◌, none, length}
use iot_edge_opc_proxy.Dlist.{Dlist, IsDlist}
use iot_edge_opc_proxy.Queue.{
  Buffer, Queue, called, abort_callback, state_release, release_all, state_abort, abort,
}

-- The callbacks that are set, in the order of a list.
abbrev pub set_callbacks : List Buffer → List ℕ
set_callbacks [] = []
set_callbacks (b ∷ bs) = called b.cb ++ set_callbacks bs

-- Those of a queue: of what is done, in progress and ready.
abbrev pub queue_callbacks : Queue → List ℕ
queue_callbacks q = set_callbacks q.done ++ (set_callbacks q.inprogress ++ set_callbacks q.ready)

-- A list with no callback set.
abbrev detached : List Buffer → List Buffer
detached [] = []
detached (b ∷ bs) = record b { cb = none } ∷ detached bs

set_callbacks-detached : (l : List Buffer) → set_callbacks (detached l) ≡ []
unfolding called
set_callbacks-detached [] = refl
set_callbacks-detached (b ∷ bs) = set_callbacks-detached bs

state_abort_lem : (l : List Buffer) → state_abort l ≡ (detached l, set_callbacks l)
unfolding state_abort abort_callback
state_abort_lem [] = refl
state_abort_lem (b ∷ bs) = rw (state_abort_lem bs) refl

abort_lem :
    (q : Queue)
    → abort q ≡ (
      record {
        ready = detached q.ready;
        inprogress = detached q.inprogress;
        done = detached q.done;
      },
      queue_callbacks q,
    )
unfolding abort
abort_lem q =
    rw (state_abort_lem q.done, state_abort_lem q.inprogress, state_abort_lem q.ready) refl

module _ (d : Dlist Buffer) (law : IsDlist d) where
  state_release_lem : (l : List Buffer) → state_release d (length l) l ≡ ([], set_callbacks l)
  unfolding state_release abort_callback
  state_release_lem [] = refl
  state_release_lem (b ∷ bs) =
      let removed : d.remove (b ∷ bs) 0 ≡ bs = law.remove_lem (b ∷ bs) 0 (omega arith) in
      ap (λ l. (let (left, calls) = state_release d (length bs) l in (left, called b.cb ++ calls)))
        removed
      ∙ ap (λ r. (let (left, calls) = r in (left, called b.cb ++ calls))) (state_release_lem bs)

  release_all_lem :
      (q : Queue)
      → release_all d q ≡ (record { ready = []; inprogress = []; done = [] }, queue_callbacks q)
  unfolding release_all
  release_all_lem q =
      rw (state_release_lem q.done, state_release_lem q.inprogress, state_release_lem q.ready) refl

  -- The release of all buffers empties the queue, and it calls every callback that is set, each once:
  -- those of the buffers that are done, then of those in progress, then of those that are ready, in the
  -- order of their lists. An abort before it makes the same calls in the same order, and then the release
  -- empties the queue and makes none.
  pub release_all-abort :
      (q : Queue)
      → (release_all d q ≡ (record { ready = []; inprogress = []; done = [] }, queue_callbacks q))
        × ((abort q).1 ≡ queue_callbacks q)
        × (release_all d (abort q).0 ≡ (record { ready = []; inprogress = []; done = [] }, []))
  release_all-abort q = (
    release_all_lem q,
    ap (λ r. r.1) (abort_lem q),
    ap (λ r. release_all d r.0) (abort_lem q)
        ∙ (release_all_lem _
            ∙ ap (λ c. (record { ready = []; inprogress = []; done = [] }, c))
                (rw
                  (
                    set_callbacks-detached q.done,
                    set_callbacks-detached q.inprogress,
                    set_callbacks-detached q.ready,
                  )
                  refl)),
  )
