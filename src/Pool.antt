-- ===== src/Pool.antt =====
-- src/prx_buffer.c, the pools of reference-counted buffers. A buffer's pointer is its `id`; the two
-- lists are the sequences of their entries. A function runs under the pool's lock, so calls come one
-- after the other.
pub mod Valid
pub mod Run
pub mod Signal
pub mod Alloc
pub mod Stuck
pub mod Free
mod Tests
use iot_edge_opc_proxy.Base.{
  ℕ, zero, suc, ◌+◌, ◌-◌, ◌*◌, Bool, true, false, ◌&&◌, not, List, [], ◌∷◌, ◌++◌, Option, none,
  some, ltb, leb, ◌==◌, if◌then◌else◌, length, get_elem?, set, min,
}
use iot_edge_opc_proxy.Error.{Error, is_ok}
use iot_edge_opc_proxy.Dlist.{Dlist}
use iot_edge_opc_proxy.Ring.{size_sub}

-- `prx_buffer_t`.
pub record Buffer : Type 0 where
  pub id : ℕ
  pub length : ℕ
  pub refs : ℕ

-- The numbers of `prx_pool_config_t`.
pub record Config : Type 0 where
  pub initial_count : ℕ
  pub max_count : ℕ
  pub low_watermark : ℕ
  pub high_watermark : ℕ

-- `prx_buffer_pool_t`, with the blocks of `prx_fixed_pool_t`.
pub record Pool : Type 0 where
  pub free_list : List Buffer
  pub free_count : ℕ
  pub checked_out : List Buffer
  pub item_size : ℕ
  pub config : Config
  pub count : ℕ
  pub empty : Bool
  pub blocks : List ℕ

-- The two factories.
pub data Kind : Type 0 where
  dynamic : Kind
  fixed : Kind

-- `prx_buffer_pool_init` on the configuration, if there is one, and on the pool.
low_of : Config → ℕ
low_of c = if ltb c.high_watermark c.low_watermark then 0 else c.low_watermark

high_of : Config → ℕ
high_of c =
    if not (c.max_count == 0) && ltb c.max_count c.high_watermark
    then c.max_count
    else c.high_watermark

unfoldable pub init_config : Option Config → Config
unfolding low_of high_of
init_config none = record {
  initial_count = 10;
  max_count = 0;
  low_watermark = 0;
  high_watermark = 0;
}
init_config (some c) = record {
  initial_count = if c.initial_count == 0 then 10 else c.initial_count;
  max_count = c.max_count;
  low_watermark = low_of c;
  high_watermark = high_of c;
}

unfoldable pub init : ℕ → Option Config → Pool
init item_size c = record {
  free_list = [];
  free_count = 0;
  checked_out = [];
  item_size = item_size;
  config = init_config c;
  count = 0;
  empty = false;
  blocks = [];
}

-- How many buffers a growth is to add.
abbrev pub items : Pool → ℕ
items p =
    if p.config.max_count == 0
    then p.config.initial_count
    else min (size_sub p.config.max_count p.count) p.config.initial_count

-- Where the buffer with that pointer stands in a list.
pub find_buffer : ℕ → List Buffer → Option (ℕ × Buffer)
find_buffer id [] = none
find_buffer id (b ∷ bs) = elim (find_buffer id bs) [
  | none ↦ if b.id == id then some (0, b) else none
  | some (i, c) ↦ if b.id == id then some (0, b) else some (suc i, c)
]

-- `header` is sizeof(prx_buffer_t).
module _ (d : Dlist Buffer) (header : ℕ) where
  -- A new buffer goes to the end of the free list.
  abbrev pub add_buffer : Pool → ℕ → Pool
  add_buffer p id = record p {
    free_list = d.insert_tail p.free_list (record { id = id; length = p.item_size; refs = 0 });
    count = p.count + 1;
    free_count = p.free_count + 1;
  }

  -- The loop of `prx_dynamic_pool_grow_no_lock`; `mem` are the pointers that `mem_alloc` returns, and
  -- NULL after them.
  pub add_each : Pool → ℕ → List ℕ → Pool
  add_each p zero mem = p
  add_each p (suc k) [] = p
  add_each p (suc k) (m ∷ mem) = add_each (add_buffer p m) k mem

  grow_dynamic : Pool → List ℕ → Pool × Error
  unfolding add_each
  grow_dynamic p mem =
      let p' = add_each p (items p) mem in
      (p', if p'.free_count == 0 then Error.out_of_memory else Error.ok)

  -- The loop of `prx_fixed_pool_grow_no_lock`.
  pub add_block : Pool → ℕ → ℕ → Pool
  add_block p zero buf = p
  add_block p (suc k) buf = add_block (add_buffer p buf) k (buf + (header + p.item_size))

  grow_fixed : Pool → List ℕ → Pool × Error
  unfolding add_block
  grow_fixed p [] = (p, Error.out_of_memory)
  grow_fixed p (m ∷ mem) =
      if items p == 0
      then (p, Error.out_of_memory)
      else (add_block (record p { blocks = p.blocks ++ (m ∷ []) }) (items p) (m + header), Error.ok)

  pub grow : Kind → Pool → List ℕ → Pool × Error
  unfolding grow_dynamic grow_fixed
  grow dynamic p mem = grow_dynamic p mem
  grow fixed p mem = grow_fixed p mem

  pub created : Pool × Error → Error × Option Pool
  created (p, e) = if is_ok e then (e, some p) else (e, none)

  -- What follows the removal of the first free buffer in `prx_buffer_pool_alloc_buffer`. The Boolean
  -- is the argument of the callback, where it is called.
  pub grow_if_empty : Kind → Pool → List ℕ → Pool
  unfolding grow
  grow_if_empty kind p mem = if p.free_count == 0 then (grow kind p mem).0 else p

  pub check_out : Pool → Buffer → Pool × Option ℕ × Option Bool
  check_out p out =
      let low = leb p.free_count p.config.low_watermark && not p.empty in
      let p' = record p {
        checked_out = d.insert_tail p.checked_out (record out { refs = out.refs + 1 });
        empty = if low then true else p.empty;
      } in
      (p', some out.id, if low then some true else none)

  pub alloc_free : Kind → Pool → List ℕ → List Buffer → Pool × Option ℕ × Option Bool
  unfolding grow_if_empty check_out
  alloc_free kind p mem [] = (p, none, none)
  alloc_free kind p mem (out ∷ rest) =
      check_out
        (grow_if_empty kind
          (record p { free_list = d.remove (out ∷ rest) 0; free_count = p.free_count - 1 }) mem)
        out

  pub add_ref : Pool → ℕ → Option (ℕ × Buffer) → Pool
  add_ref p id none = p
  add_ref p id (some (i, b)) = record p {
    checked_out = set p.checked_out i (record b { refs = b.refs + 1 });
  }

  -- `prx_buffer_pool_alloc_buffer`.
  unfoldable pub alloc_buffer : Kind → Pool → Option ℕ → List ℕ → Pool × Option ℕ × Option Bool
  unfolding alloc_free add_ref
  alloc_buffer kind p (some original) mem =
      (add_ref p original (find_buffer original p.checked_out), some original, none)
  alloc_buffer kind p none mem = alloc_free kind p mem p.free_list

  -- The last reference is gone.
  pub give_back : Pool → ℕ → Buffer → Pool × Option Bool
  give_back p i b =
      let free_count = p.free_count + 1 in
      let high = ltb p.config.high_watermark free_count && p.empty in
      let p' = record p {
        checked_out = d.remove p.checked_out i;
        free_list = d.insert_tail p.free_list (record b { refs = 0 });
        free_count = free_count;
        empty = if high then false else p.empty;
      } in
      (p', if high then some false else none)

  pub drop_ref : Pool → Option (ℕ × Buffer) → Pool × Option Bool
  unfolding give_back
  drop_ref p none = (p, none)
  drop_ref p (some (i, b)) =
      let refs = b.refs - 1 in
      if refs == 0
      then give_back p i b
      else (record p { checked_out = set p.checked_out i (record b { refs = refs }) }, none)

  -- `prx_buffer_pool_free_buffer`, of a buffer that is checked out.
  pub free_buffer : Pool → ℕ → Pool × Option Bool
  unfolding drop_ref
  free_buffer p buffer = drop_ref p (find_buffer buffer p.checked_out)

  pub resize : Pool → ℕ → Option ℕ → Option (ℕ × Buffer) → Pool × Error
  resize p size moved none = (p, Error.fault)
  resize p size none (some (i, b)) =
      (record p { checked_out = d.insert_tail (d.remove p.checked_out i) b }, Error.out_of_memory)
  resize p size (some id) (some (i, b)) = (
    record p {
      checked_out = d.insert_tail (d.remove p.checked_out i) (record b { id = id; length = size });
    },
    Error.ok,
  )

  -- `prx_dynamic_buffer_set_size` of a buffer that is checked out, and `prx_fixed_buffer_set_size`;
  -- `moved` is what `mem_realloc` returns.
  pub set_size : Kind → Pool → ℕ → ℕ → Option ℕ → Pool × Error
  unfolding resize
  set_size dynamic p buffer size moved = resize p size moved (find_buffer buffer p.checked_out)
  set_size fixed p buffer size moved = (p, Error.not_supported)

  -- `prx_dynamic_pool_create` and `prx_fixed_pool_create`, when there is memory for the pool;
  -- `lock` is what `lock_create` returns.
  unfoldable pub create : Kind → ℕ → Option Config → Error → List ℕ → Error × Option Pool
  unfolding created grow
  create kind item_size c lock mem =
      if is_ok lock then created (grow kind (init item_size c) mem) else (lock, none)

  unfoldable pub dynamic_pool_create : ℕ → Option Config → Error → List ℕ → Error × Option Pool
  dynamic_pool_create = create dynamic

  unfoldable pub fixed_pool_create : ℕ → Option Config → Error → List ℕ → Error × Option Pool
  fixed_pool_create = create fixed

  -- `prx_buffer_new`: the pool, the buffer, and what the calls said.
  after_new : Kind → ℕ → Option ℕ → Pool × Option ℕ × Option Bool → Pool × Option ℕ
  unfolding set_size free_buffer
  after_new kind len moved (p, none, said) = (p, none)
  after_new kind len moved (p, some buffer, said) =
      let (p', e) = set_size kind p buffer len moved in
      if is_ok e then (p', moved) else ((free_buffer p' buffer).0, none)

  pub buffer_new : Kind → Pool → ℕ → List ℕ → Option ℕ → Pool × Option ℕ
  unfolding after_new
  buffer_new kind p len mem moved = after_new kind len moved (alloc_buffer kind p none mem)

  -- The loop of `prx_dynamic_pool_free` (without DBG_MEM) over the free list, with `k` rounds to go: what it gives to
  -- `mem_free`.
  free_each : ℕ → List Buffer → List ℕ
  free_each zero q = []
  free_each (suc k) q = elim (get_elem? q 0) [
    | none ↦ []
    | some b ↦ b.id ∷ free_each k (d.remove q 0)
  ]

  pub dynamic_pool_free : Pool → List ℕ
  unfolding free_each
  dynamic_pool_free p = free_each (length p.free_list) p.free_list
