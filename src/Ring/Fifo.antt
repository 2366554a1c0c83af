-- ===== src/Ring/Fifo.antt =====
-- What the ring promises its clients: a bounded queue of bytes. `run` drives a ring, `Fifo.run` the
-- queue, by the same calls.
use iot_edge_opc_proxy.Base.{
  ℕ, ◌+◌, ◌-◌, ◌^◌, ◌<◌, ◌≡◌, refl, sym, ap, ◌∙◌, List, [], ◌∷◌, ◌++◌, arith, take, drop, length,
  length-replicate, min, true, ◌↔◌, length-eq-zero, take-min, drop-min, take-append, drop-append,
}
use iot_edge_opc_proxy.Ring.{Ring, create, write, read, clear, is_empty, available}
use iot_edge_opc_proxy.Ring.Valid.{IsValid, contents, capacity-add-length, available-eq-length}
use iot_edge_opc_proxy.Ring.Write.{write_lem}
use iot_edge_opc_proxy.Ring.Read.{read_lem}

-- The calls of a client: the bytes to write, the number to read, and a reset.
pub data Op : Type 0 where
  put : List ℕ → Op
  get : ℕ → Op
  reset : Op

-- What a call returns: the count, and the bytes read.
abbrev pub Reply : Type 0
Reply = ℕ × List ℕ

-- The queue of at most `cap` bytes.
module _ (cap : ℕ) where
  abbrev pub fifo_step : List ℕ → Op → List ℕ × Reply
  fifo_step q (put bs) = let n = min (length bs) (cap - length q) in (q ++ take n bs, (n, []))
  fifo_step q (get n) = (drop n q, (min n (length q), take n q))
  fifo_step q reset = ([], (0, []))

  unfoldable pub fifo_run : List ℕ → List Op → List Reply
  fifo_run q [] = []
  fifo_run q (o ∷ os) = let (q', y) = fifo_step q o in y ∷ fifo_run q' os

-- The same calls of the ring.
pub step : Ring → Op → Ring × Reply
step r (put bs) = let (r', n) = write r bs (length bs) in (r', (n, []))
step r (get n) = let (r', bs, k) = read r n in (r', (k, bs))
step r reset = (clear r, (0, []))

pub run : Ring → List Op → List Reply
run r [] = []
run r (o ∷ os) = let (r', y) = step r o in y ∷ run r' os

-- No call asks for 2 ^ 64 bytes or more: the counts are of type `size_t`.
abbrev pub OpIsSized : Op → Type 0
OpIsSized (put bs) = length bs < 2 ^ 64
OpIsSized (get n) = n < 2 ^ 64
OpIsSized reset = Unit {0}

abbrev pub IsSized : List Op → Type 0
IsSized [] = Unit {0}
IsSized (o ∷ os) = OpIsSized o × IsSized os

pub create-IsValid :
    (size : ℕ) → size < 2 ^ 63 → IsValid (create size) × (contents (create size) ≡ [])
unfolding create
create-IsValid size h = ground (arith, length-replicate {A = ℕ} (size + 1) 0)

-- A list cut where a read of `n` bytes cuts it.
cut :
    (c bs rest : List ℕ) (n k : ℕ)
    → c ≡ bs ++ rest
    → length bs ≡ k
    → k ≡ min n (length c)
    → (take n c ≡ bs) × (drop n c ≡ rest)
cut c bs rest n k e s h = (
  rw (← take-min n c, ← h, ← s, e) (take-append bs rest),
  rw (← drop-min n c, ← h, ← s, e) (drop-append bs rest),
)

module _ {r : Ring} (v : IsValid r) where
  put_refines :
      (bs : List ℕ)
      → length bs < 2 ^ 64
      → let (r', y) = step r (put bs) in
        (contents r', y) ≡ fifo_step (r.end - 1) (contents r) (put bs)
  unfolding step
  put_refines bs b =
      let (w, e) = write_lem bs (length bs) v (omega arith) b in
      let count : (write r bs (length bs)).1 ≡ min (length bs) (r.end - 1 - length (contents r)) =
        omega (arith, e, capacity-add-length v) in
      ap (λ c. (c, ((write r bs (length bs)).1, []))) w.bytes
      ∙ ap (λ k. (contents r ++ take k bs, (k, []))) count

  get_refines :
      (n : ℕ)
      → n < 2 ^ 64
      → let (r', y) = step r (get n) in
        (contents r', y) ≡ fifo_step (r.end - 1) (contents r) (get n)
  unfolding step
  get_refines n b =
      let (w, e) = read_lem n v b in
      let count : (read r n).2 ≡ min n (length (contents r)) =
        omega (arith, e, available-eq-length v) in
      let halves = cut (contents r) (read r n).1 _ n (read r n).2 w.bytes w.count count in
      λ i. (sym halves.1 i, (count i, sym halves.0 i))

  reset_refines :
      let (r', y) = step r reset in (contents r', y) ≡ fifo_step (r.end - 1) (contents r) reset
  unfolding step clear
  reset_refines = refl

  reset-IsValid : IsValid (clear r)
  unfolding clear
  reset-IsValid = omega arith

-- A call keeps the ring valid and of its size.
step-IsValid :
    {r : Ring} (o : Op)
    → OpIsSized o
    → IsValid r
    → IsValid (step r o).0 × ((step r o).0.end ≡ r.end)
unfolding step
step-IsValid (put bs) b v =
    let w = (write_lem bs (length bs) v (omega arith) b).0 in (w.valid, w.same_end)
step-IsValid (get n) b v = let w = (read_lem n v b).0 in (w.valid, w.same_end)
step-IsValid reset b v = (reset-IsValid v, unfold clear in refl)

step_refines :
    {r : Ring} (o : Op)
    → OpIsSized o
    → IsValid r
    → let (r', y) = step r o in (contents r', y) ≡ fifo_step (r.end - 1) (contents r) o
step_refines (put bs) b v = put_refines v bs b
step_refines (get n) b v = get_refines v n b
step_refines reset b v = reset_refines v

-- No sequence of calls, each for fewer than 2 ^ 64 bytes, tells a valid ring from the queue of its
-- contents that holds at most `end - 1` bytes.
pub run_refines :
    (os : List Op) {r : Ring}
    → IsSized os
    → IsValid r
    → run r os ≡ fifo_run (r.end - 1) (contents r) os
unfolding run fifo_run
run_refines [] s v = refl
run_refines (o ∷ os) {r} (so, s) v =
    let (v', same) = step-IsValid o so v in
    let rest : run (step r o).0 os ≡ fifo_run (r.end - 1) (contents (step r o).0) os =
      run_refines os s v' ∙ ap (λ k. fifo_run (k - 1) (contents (step r o).0) os) same in
    ap (◌∷◌ (step r o).1) rest ∙ ap (λ p. p.1 ∷ fifo_run (r.end - 1) p.0 os) (step_refines o so v)

-- A ring made by `ring_buffer_create` for `size` bytes, fewer than 2 ^ 63, answers every sequence of
-- writes, reads and resets, each for fewer than 2 ^ 64 bytes, as an empty queue of at most `size`
-- bytes does: the same counts and the same bytes, in the order in which they were written.
pub run-create :
    (size : ℕ) (os : List Op)
    → size < 2 ^ 63
    → IsSized os
    → run (create size) os ≡ fifo_run size [] os
unfolding create
run-create size os h s =
    let (v, e) = create-IsValid size h in run_refines os s v ∙ (λ i. fifo_run (fits i) (e i) os)
  where
    fits : size + 1 - 1 ≡ size
    fits = omega arith

-- `ring_buffer_is_empty` holds of a valid ring exactly when the ring holds no byte.
pub is_empty_lem : {r : Ring} → IsValid r → (is_empty r ≡ true) ↔ (contents r ≡ [])
unfolding is_empty available
is_empty_lem {r} v = (
  λ e. length-eq-zero (contents r) (ground (arith, available-eq-length v)),
  λ e. ground (arith, available-eq-length v, ap length e),
)
