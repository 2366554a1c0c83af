-- ===== src/Sched/Removal.antt =====
-- What `prx_scheduler_clear` and `prx_scheduler_kill` take out of the queues.
use iot_edge_opc_proxy.Base.{
  ℕ, suc, ◌≡◌, refl, sym, ap₂, ◌∙◌, Bool, List, [], ◌∷◌, ◌++◌, append_assoc, append-nil, map, some,
  arith, if◌then◌else◌, length, length-append, get_elem?, drop, take-append, inl, inr, Bool-cases,
}
use iot_edge_opc_proxy.Dlist.{Dlist, IsDlist}
use iot_edge_opc_proxy.Sched.{Task, Scheduler, remove_matching, remove_by_task_type, clear, matches}

-- The entries that pass a test, and those that do not.
unfoldable pub picked : (Task → Bool) → List Task → List Task
picked p [] = []
picked p (t ∷ ts) = let rest = picked p ts in if p t then t ∷ rest else rest

unfoldable pub kept : (Task → Bool) → List Task → List Task
kept p [] = []
kept p (t ∷ ts) = let rest = kept p ts in if p t then rest else t ∷ rest

pub get_elem?-append :
    (before : List Task) (t : Task) (after : List Task)
    → get_elem? (before ++ (t ∷ after)) (length before) ≡ some t
get_elem?-append [] t after = refl
get_elem?-append (u ∷ us) t after = get_elem?-append us t after

drop-suc-append :
    (before : List Task) (t : Task) (after : List Task)
    → drop (suc (length before)) (before ++ (t ∷ after)) ≡ after
drop-suc-append [] t after = refl
drop-suc-append (u ∷ us) t after = drop-suc-append us t after

length-snoc : (before : List Task) (t : Task) → length (before ++ (t ∷ [])) ≡ suc (length before)
length-snoc before t = omega (arith, length-append before (t ∷ []))

module _ (d : Dlist Task) (law : IsDlist d) where
  pub remove-append :
      (before : List Task) (t : Task) (after : List Task)
      → d.remove (before ++ (t ∷ after)) (length before) ≡ before ++ after
  remove-append before t after =
      law.remove_lem (before ++ (t ∷ after)) (length before)
        (omega (arith, length-append before (t ∷ after)))
      ∙ ap₂ (λ a b. a ++ b) (take-append before (t ∷ after)) (drop-suc-append before t after)

  remove_matching_lem :
      (h c : ℕ) (before rest result : List Task)
      → remove_matching d h c (before ++ rest) result (length before) (length rest)
        ≡ (before ++ kept (matches h c) rest, result ++ picked (matches h c) rest)
  unfolding remove_matching kept picked
  remove_matching_lem h c before [] result = ap₂ (λ a b. (a, b)) refl (sym (append-nil result))
  remove_matching_lem h c before (t ∷ ts) result = elim (Bool-cases (matches h c t)) [
    | inl e ↦
        rw
          (
            get_elem?-append before t ts,
            remove_matching,
            e,
            remove-append before t ts,
            law.insert_tail_lem result t,
            remove_matching_lem h c before ts (result ++ (t ∷ [])),
            append_assoc result (t ∷ []) (picked (matches h c) ts),
          )
          refl
    | inr e ↦
        rw
          (
            get_elem?-append before t ts,
            remove_matching,
            e,
            ← append_assoc before (t ∷ []) ts,
            ← length-snoc before t,
            remove_matching_lem h c (before ++ (t ∷ [])) ts result,
            append_assoc before (t ∷ []) (kept (matches h c) ts),
          )
          refl
  ]

  pub remove_by_task_type_lem :
      (h c : ℕ) (q result : List Task)
      → remove_by_task_type d h c q result
        ≡ (kept (matches h c) q, result ++ picked (matches h c) q)
  unfolding remove_by_task_type
  remove_by_task_type_lem h c q result = remove_matching_lem h c [] q result

  -- `prx_scheduler_clear`: both queues keep, in their order, the tasks that do not have the handler
  -- and the context asked for; the others go back to the pool, each once and in the order in which
  -- they stood, those to run now first.
  pub clear_lem :
      (s : Scheduler) (h c : ℕ)
      → clear d s h c ≡ record s {
        now = kept (matches h c) s.now;
        later = kept (matches h c) s.later;
        released =
            s.released
            ++ map (λ t. t.id) (picked (matches h c) s.now ++ picked (matches h c) s.later);
      }
  unfolding clear
  clear_lem s h c =
      rw
        (
          remove_by_task_type_lem h c s.now [],
          remove_by_task_type_lem h c s.later (picked (matches h c) s.now),
        )
        refl
