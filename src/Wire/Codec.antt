-- ===== src/Wire/Codec.antt =====
-- The message pack codec of src/io_codec.c. A context of an object is written to, or read from,
-- between its parent's calls, so the bytes pass from the parent to it and back.
pub mod Strings
use Prim.Native.Nat.{◌%◌, ◌^◌}
use iot_edge_opc_proxy.Base.{
  ℕ, zero, suc, ◌+◌, ◌-◌, Bool, true, false, not, List, [], ◌∷◌, ◌++◌, Option, none, some, ltb, leb,
  ◌==◌, if◌then◌else◌, length, take, drop, get_or,
}
use iot_edge_opc_proxy.Base.Int.{ℤ, pos, negsuc, eqb_ℤ}
use iot_edge_opc_proxy.Error.{Error}
use iot_edge_opc_proxy.Ring.{size_sub}
use iot_edge_opc_proxy.Wire.{Bytes, Result, done, fails, Ctx, Encode, Decode, ◌>>=◌, give, give_up}
use iot_edge_opc_proxy.Wire.Cmp.{Cmp, Outcome, good, bad, Object, nil, array, map_object, another}

-- The `switch` of `cmp_ctx_get_err`.
abbrev codes : List Error
codes =
    Error.ok ∷ Error.arg ∷ Error.arg ∷ Error.arg ∷ Error.arg ∷ Error.arg ∷ Error.writing
    ∷ Error.invalid_format ∷ Error.writing ∷ Error.invalid_format ∷ Error.writing
    ∷ Error.invalid_format ∷ Error.writing ∷ Error.arg ∷ Error.invalid_format ∷ Error.writing
    ∷ Error.fault ∷ Error.fault ∷ []

unfoldable pub cmp_ctx_get_err : ℕ → Error
cmp_ctx_get_err e = if e == 0xff then Error.out_of_memory else get_or codes e Error.unknown

-- The end of each writer: cmp's failure, or `mpack_write_complete`.
unfoldable pub written : Ctx → Outcome Bytes → Result Ctx
written c (good s) = done (record { stream = s; index = size_sub c.index 1 })
written c (bad e) = fails (cmp_ctx_get_err e)

-- The end of each reader that stores a value.
unfoldable pub stored : {A : Type 0} → Ctx → Outcome (A × Bytes) → Result (A × Ctx)
stored c (good (v, s)) = done (v, record { stream = s; index = c.index - 1 })
stored c (bad e) = fails (cmp_ctx_get_err e)

-- `mpack_read_begin`.
abbrev pub read_begin : {A : Type 0} → Ctx → Result A → Result A
read_begin c r = if c.index == 0 then fails Error.invalid_format else r

-- An allocator: the size that it gives for a size, or its failure.
abbrev pub Allocator : Type 0
Allocator = ℕ → Result ℕ

-- The memory of a message that is decoded: its allocator; and what is read at the place of an earlier
-- allocation once another one has followed, given the bytes that were stored there. The one buffer of
-- a message grows for each allocation (`io_message_allocate_buffer` in src/io_proto.c) and may move, so
-- these can be any bytes.
pub record Memory : Type 0 where
  pub allocator : Allocator
  pub moved : Bytes → Bytes

-- `fixed_validator` of a buffer of `room` bytes.
unfoldable pub fixed_validator : ℕ → Allocator
fixed_validator room size = if leb size room then done size else fails Error.out_of_memory

-- `cmp_stream_read`: the bytes stored, and whether these are all that were asked for.
unfoldable pub cmp_stream_read : ℕ → Bytes → Bytes × Bool
cmp_stream_read limit s = let read = take limit s in (read, length read == limit)

module _ (m : Cmp) where
  unfoldable pub mpack_write_integer : ℤ → Encode
  unfolding written
  mpack_write_integer v c = written c (m.write_integer c.stream v)

  unfoldable pub mpack_write_uinteger : ℕ → Encode
  unfolding written
  mpack_write_uinteger v c = written c (m.write_uinteger c.stream v)

  unfoldable pub mpack_write_bool : Bool → Encode
  unfolding written
  mpack_write_bool v c = written c (m.write_bool c.stream v)

  -- The length is cast to 32 bits.
  unfoldable pub mpack_write_string : Bytes → Encode
  unfolding written
  mpack_write_string v c = written c (m.write_str c.stream (take (length v % 2 ^ 32) v))

  unfoldable pub mpack_write_bin : Bytes → Encode
  unfolding written
  mpack_write_bin v c = written c (m.write_bin c.stream (take (length v % 2 ^ 32) v))

  -- The parent and the object.
  unfoldable pub open_object : Ctx → Outcome Bytes → Result (Ctx × Ctx)
  open_object c (good s) =
      done (record { stream = s; index = size_sub c.index 1 }, record { stream = s; index = 0 })
  open_object c (bad e) = fails (cmp_ctx_get_err e)

  unfoldable pub mpack_write_object : Bool → Ctx → Result (Ctx × Ctx)
  unfolding open_object
  mpack_write_object is_null c =
      open_object c (if is_null then m.write_nil c.stream else good c.stream)

  unfoldable pub type_holder : ℕ → Outcome Bytes → Result Ctx
  type_holder members (good s) = done (record { stream = s; index = members })
  type_holder members (bad e) = fails (cmp_ctx_get_err e)

  unfoldable pub type_header : ℕ → Outcome Bytes → Result Ctx
  unfolding type_holder
  type_header members (good s) = type_holder members (m.write_nil s)
  type_header members (bad e) = fails (cmp_ctx_get_err e)

  unfoldable pub mpack_write_type_begin : ℕ → Encode
  unfolding type_header
  mpack_write_type_begin members c =
      type_header members (m.write_array c.stream ((members % 2 ^ 32 + 1) % 2 ^ 32))

  unfoldable pub mpack_write_type_end : Encode
  mpack_write_type_end c = done c

  -- The parent and the array.
  unfoldable pub open_array : ℕ → Ctx → Outcome Bytes → Result (Ctx × Ctx)
  open_array size c (good s) =
      done (record { stream = s; index = size_sub c.index 1 }, record { stream = s; index = size })
  open_array size c (bad e) = fails (cmp_ctx_get_err e)

  unfoldable pub mpack_write_array : ℕ → Ctx → Result (Ctx × Ctx)
  unfolding open_array
  mpack_write_array size c = open_array size c (m.write_array c.stream (size % 2 ^ 32))

  unfoldable pub mpack_read_integer : Decode ℤ
  unfolding stored
  mpack_read_integer c = read_begin c (stored c (m.read_integer c.stream))

  unfoldable pub mpack_read_uinteger : Decode ℕ
  unfolding stored
  mpack_read_uinteger c = read_begin c (stored c (m.read_uinteger c.stream))

  unfoldable pub mpack_read_bool : Decode Bool
  unfolding stored
  mpack_read_bool c = read_begin c (stored c (m.read_bool c.stream))

  -- What is stored at `*value`, with the result. `size` is what the allocator gave.
  unfoldable pub string_body : Ctx → ℕ → ℕ → Bytes → Bytes × Result (Bytes × Ctx)
  unfolding cmp_stream_read
  string_body c len32 size s =
      if not (size == (len32 + 1) % 2 ^ 32)
      then ([], fails Error.out_of_memory)
      else (let (read, all) = cmp_stream_read len32 s in
          if all
          then (
            read ++ (0 ∷ []),
            done (read, record { stream = drop len32 s; index = c.index - 1 }),
          )
          else (read, fails Error.reading))

  unfoldable pub string_alloc : Ctx → ℕ → Bytes → Result ℕ → Bytes × Result (Bytes × Ctx)
  unfolding string_body
  string_alloc c len32 s (done size) = string_body c len32 size s
  string_alloc c len32 s (fails r) = ([], fails r)

  unfoldable pub string_size : Allocator → Ctx → Outcome (ℕ × Bytes) → Bytes × Result (Bytes × Ctx)
  unfolding string_alloc
  string_size alloc c (good (len32, s)) = string_alloc c len32 s (alloc ((len32 + 1) % 2 ^ 32))
  string_size alloc c (bad e) = ([], fails (cmp_ctx_get_err e))

  unfoldable pub mpack_read_string : Allocator → Ctx → Bytes × Result (Bytes × Ctx)
  unfolding string_size
  mpack_read_string alloc c =
      if c.index == 0
      then ([], fails Error.invalid_format)
      else string_size alloc c (m.read_str_size c.stream)

  unfoldable pub bin_body : Ctx → ℕ → ℕ → Bytes → Bytes × Result (Bytes × Ctx)
  unfolding cmp_stream_read
  bin_body c len32 size s =
      if not (size == len32)
      then ([], fails Error.out_of_memory)
      else (let (read, all) = cmp_stream_read len32 s in
          if all
          then (read, done (read, record { stream = drop len32 s; index = c.index - 1 }))
          else (read, fails Error.reading))

  unfoldable pub bin_alloc : Ctx → ℕ → Bytes → Result ℕ → Bytes × Result (Bytes × Ctx)
  unfolding bin_body
  bin_alloc c len32 s (done size) = bin_body c len32 size s
  bin_alloc c len32 s (fails r) = ([], fails r)

  unfoldable pub bin_size : Allocator → Ctx → Outcome (ℕ × Bytes) → Bytes × Result (Bytes × Ctx)
  unfolding bin_alloc
  bin_size alloc c (good (len32, s)) =
      if len32 == 0
      then ([], done ([], record { stream = s; index = c.index - 1 }))
      else bin_alloc c len32 s (alloc len32)
  bin_size alloc c (bad e) = ([], fails (cmp_ctx_get_err e))

  unfoldable pub mpack_read_bin : Allocator → Ctx → Bytes × Result (Bytes × Ctx)
  unfolding bin_size
  mpack_read_bin alloc c =
      if c.index == 0
      then ([], fails Error.invalid_format)
      else bin_size alloc c (m.read_bin_size c.stream)

  -- The member holder of an object, and then the object and the parent.
  unfoldable pub object_holder : Ctx → ℕ → Outcome Bytes → Result (Option Ctx × Ctx)
  object_holder c n (good s) =
      done (some (record { stream = s; index = n - 1 }), record { stream = s; index = c.index - 1 })
  object_holder c n (bad e) = fails (cmp_ctx_get_err e)

  unfoldable pub object_kind : Ctx → Outcome (Object × Bytes) → Result (Option Ctx × Ctx)
  unfolding object_holder
  object_kind c (good (nil, s)) = done (none, record { stream = s; index = c.index - 1 })
  object_kind c (good (array n, s)) =
      if n == 0 then fails Error.invalid_format else object_holder c n (m.read_nil s)
  object_kind c (good (map_object, s)) = fails Error.invalid_format
  object_kind c (good (another, s)) = fails Error.invalid_format
  object_kind c (bad e) = fails (cmp_ctx_get_err e)

  -- The object, `none` if it is null, and the parent.
  unfoldable pub mpack_read_object : Ctx → Result (Option Ctx × Ctx)
  unfolding object_kind
  mpack_read_object c = read_begin c (object_kind c (m.read_object c.stream))

  unfoldable pub mpack_read_type_begin : Decode (Unit {0})
  mpack_read_type_begin c = done (tt, c)

  unfoldable pub mpack_read_type_end : Decode (Unit {0})
  mpack_read_type_end c = done (tt, c)

  -- The size, the array and the parent.
  unfoldable pub array_kind : Ctx → Outcome (ℕ × Bytes) → Result (ℕ × Ctx × Ctx)
  array_kind c (good (n, s)) =
      done (n, record { stream = s; index = n }, record { stream = s; index = c.index - 1 })
  array_kind c (bad e) = fails (cmp_ctx_get_err e)

  unfoldable pub mpack_read_array : Ctx → Result (ℕ × Ctx × Ctx)
  unfolding array_kind
  mpack_read_array c = read_begin c (array_kind c (m.read_array c.stream))
