-- ===== src/Dlist.antt =====
-- The doubly linked list of azure_c_shared_utility (doublylinkedlist.h), which is not in the
-- repository: what the code calls of it, on the sequence of the entries behind a list head.
use iot_edge_opc_proxy.Base.{ℕ, suc, ◌<◌, ◌≡◌, refl, List, [], ◌∷◌, ◌++◌, length, take, drop}

pub record Dlist (E : Type 0) : Type 0 where
  -- DList_InsertTailList on the list head.
  pub insert_tail : List E → E → List E
  -- DList_InsertHeadList on the list head.
  pub insert_head : List E → E → List E
  -- DList_InsertTailList on the link of the entry at a position: in front of that entry.
  pub insert_before : List E → ℕ → E → List E
  -- DList_RemoveEntryList on the entry at a position; DList_RemoveHeadList is that at 0.
  pub remove : List E → ℕ → List E
  -- DList_AppendTailList on the link of the first entry of a list, or on its head if it has none, with
  -- the head of another list, and DList_RemoveEntryList on that head.
  pub put_in_front : List E → List E → List E

-- Their documented effect.
pub record IsDlist {E : Type 0} (d : Dlist E) : Type 0 where
  pub insert_tail_lem : (l : List E) (e : E) → d.insert_tail l e ≡ l ++ (e ∷ [])
  pub insert_head_lem : (l : List E) (e : E) → d.insert_head l e ≡ e ∷ l
  pub insert_before_lem :
      (l : List E) (i : ℕ) (e : E)
      → i < length l
      → d.insert_before l i e ≡ take i l ++ (e ∷ drop i l)
  pub remove_lem : (l : List E) (i : ℕ) → i < length l → d.remove l i ≡ take i l ++ drop (suc i) l
  pub put_in_front_lem : (l others : List E) → d.put_in_front l others ≡ others ++ l

-- Functions with that effect.
abbrev pub plain : (E : Type 0) → Dlist E
plain E = record {
  insert_tail = λ l e. l ++ (e ∷ []);
  insert_head = λ l e. e ∷ l;
  insert_before = λ l i e. take i l ++ (e ∷ drop i l);
  remove = λ l i. take i l ++ drop (suc i) l;
  put_in_front = λ l others. others ++ l;
}

pub plain-IsDlist : (E : Type 0) → IsDlist (plain E)
plain-IsDlist E = record {
  insert_tail_lem = λ l e. refl;
  insert_head_lem = λ l e. refl;
  insert_before_lem = λ l i e h. refl;
  remove_lem = λ l i h. refl;
  put_in_front_lem = λ l others. refl;
}
