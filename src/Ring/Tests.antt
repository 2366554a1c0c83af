-- ===== src/Ring/Tests.antt =====
-- Runs of the ring on small inputs, and the theorems at inputs that meet their hypotheses.
use iot_edge_opc_proxy.Base.{◌+◌, ◌≡◌, refl, ◌↔◌, true, List, [], ◌∷◌, arith}
use iot_edge_opc_proxy.Ring.{Ring, create, write, read, is_empty, capacity, available}
use iot_edge_opc_proxy.Ring.Valid.{IsValid, contents, capacity-add-length, available-eq-length}
use iot_edge_opc_proxy.Ring.Write.{write_lem, Fills}
use iot_edge_opc_proxy.Ring.Read.{read_lem, Drains}
use iot_edge_opc_proxy.Ring.Fifo.{Op, put, get, reset, run, fifo_run, run-create, is_empty_lem}

abbrev script : List Op
script = put (1 ∷ 2 ∷ 3 ∷ 4 ∷ []) ∷ get 2 ∷ put (5 ∷ 6 ∷ 7 ∷ []) ∷ get 9 ∷ reset ∷ get 1 ∷ []

-- A ring for three bytes that holds 8, 9, the 9 at the front of the storage.
abbrev wrapped : Ring
wrapped = record { mem = 9 ∷ 0 ∷ 0 ∷ 8 ∷ []; end = 4; read_pos = 3; write_pos = 1 }

wrapped-IsValid : IsValid wrapped
wrapped-IsValid = omega arith

write-wrapped : (write wrapped (5 ∷ 6 ∷ []) 2).1 ≡ 1
unfolding write
write-wrapped = refl

run-create_example :
    run (create 3) script
    ≡ (3, []) ∷ (2, 1 ∷ 2 ∷ []) ∷ (2, []) ∷ (3, 3 ∷ 5 ∷ 6 ∷ []) ∷ (0, []) ∷ (0, []) ∷ []
unfolding fifo_run
run-create_example = run-create 3 script (omega arith) (omega arith)

write_lem_example : Fills wrapped (5 ∷ 6 ∷ []) 2 (write wrapped (5 ∷ 6 ∷ []) 2)
write_lem_example = write_lem (5 ∷ 6 ∷ []) 2 wrapped-IsValid (omega arith) (omega arith)

read_lem_example : Drains wrapped 2 (read wrapped 2)
read_lem_example = read_lem 2 wrapped-IsValid (omega arith)

is_empty_lem_example : (is_empty wrapped ≡ true) ↔ (contents wrapped ≡ [])
is_empty_lem_example = is_empty_lem wrapped-IsValid

capacity-add-length_example : capacity wrapped + 2 + 1 ≡ 4
capacity-add-length_example = capacity-add-length wrapped-IsValid

available-eq-length_example : available wrapped ≡ 2
available-eq-length_example = available-eq-length wrapped-IsValid
