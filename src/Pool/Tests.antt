-- ===== src/Pool/Tests.antt =====
-- A pool of two buffers.
use iot_edge_opc_proxy.Base.{ℕ, ◌≡◌, ◌⊎◌, inr, refl, arith, true, false, List, [], ◌∷◌, none, some}
use iot_edge_opc_proxy.Error.{Error, is_ok}
use iot_edge_opc_proxy.Dlist.{plain, plain-IsDlist}
use iot_edge_opc_proxy.Pool.{
  Buffer, Config, Pool, dynamic, fixed, create, alloc_buffer, free_buffer, find_buffer, set_size,
  init_config, init,
}
use iot_edge_opc_proxy.Base.{map, length}
use iot_edge_opc_proxy.Pool.{buffer_new, dynamic_pool_free}
use iot_edge_opc_proxy.Pool.Free.{buffer_new-IsValid, dynamic_pool_free_lem}
use iot_edge_opc_proxy.Pool.Valid.{IsValid}
use iot_edge_opc_proxy.Pool.Signal.{
  allocs, frees, sizes, steps, signals, steps-create, signals-Alternates, Call, Alternates,
}
use iot_edge_opc_proxy.Pool.Stuck.{signals-stuck}
use iot_edge_opc_proxy.Pool.Alloc.{HandsOut, alloc_buffer-HandsOut}

abbrev free_buffer_at : ℕ → Buffer
free_buffer_at id = record { id = id; length = 64; refs = 0 }

-- As it is asked for, and as the pool keeps it.
abbrev asked : Config
asked = record { initial_count = 2; max_count = 2; low_watermark = 0; high_watermark = 5 }

abbrev kept : Config
kept = record { initial_count = 2; max_count = 2; low_watermark = 0; high_watermark = 2 }

abbrev two : Pool
two = record {
  free_list = free_buffer_at 1 ∷ free_buffer_at 2 ∷ [];
  free_count = 2;
  checked_out = [];
  item_size = 64;
  config = kept;
  count = 2;
  empty = false;
  blocks = [];
}

two-IsValid : IsValid two
two-IsValid = record {
  free = refl;
  total = omega arith;
  capped = inr (omega arith);
  sized = omega arith;
  unused = (refl, (refl, tt));
  used = tt;
}

abbrev calls : List Call
calls = allocs none [] ∷ allocs none [] ∷ sizes 2 9 (some 3) ∷ frees 3 ∷ frees 1 ∷ []

creation : (create (plain Buffer) 48 dynamic 64 (some asked) Error.ok (1 ∷ 2 ∷ [])).1 ≡ some two
unfolding create init init_config is_ok
creation = refl

steps-create_example : IsValid (steps (plain Buffer) 48 dynamic two calls)
steps-create_example =
    steps-create (plain Buffer) (plain-IsDlist Buffer) 48 dynamic 64 asked Error.ok (1 ∷ 2 ∷ []) two
      calls (omega arith) creation

signals-Alternates_example : Alternates false (signals (plain Buffer) 48 dynamic two calls)
signals-Alternates_example =
    signals-Alternates (plain Buffer) (plain-IsDlist Buffer) 48 dynamic two calls

stuck_example :
    (signals (plain Buffer) 48 dynamic two calls ≡ [])
    ⊎ (signals (plain Buffer) 48 dynamic two calls ≡ true ∷ [])
stuck_example =
    signals-stuck (plain Buffer) (plain-IsDlist Buffer) 48 dynamic two calls two-IsValid
      (omega arith) (omega arith)

alloc_example : HandsOut two (alloc_buffer (plain Buffer) 48 fixed two none [])
alloc_example =
    alloc_buffer-HandsOut (plain Buffer) (plain-IsDlist Buffer) 48 fixed two [] two-IsValid

-- Both buffers go out, the second allocation says so, and both come back without a word.
one_signal : signals (plain Buffer) 48 dynamic two calls ≡ true ∷ []
unfolding signals alloc_buffer free_buffer find_buffer set_size
one_signal = refl

buffer_new_example :
    IsValid (buffer_new (plain Buffer) 48 dynamic two 9 [] (some 3)).0
    × ((buffer_new (plain Buffer) 48 fixed two 9 [] (some 3)).1 ≡ none)
buffer_new_example =
    buffer_new-IsValid (plain Buffer) (plain-IsDlist Buffer) 48 dynamic two 9 [] (some 3)
      two-IsValid

pool_free_example :
    (dynamic_pool_free (plain Buffer) 48 two ≡ map (λ b. b.id) two.free_list)
    × (length (dynamic_pool_free (plain Buffer) 48 two) ≡ 2)
pool_free_example =
    dynamic_pool_free_lem (plain Buffer) (plain-IsDlist Buffer) 48 two two-IsValid refl
