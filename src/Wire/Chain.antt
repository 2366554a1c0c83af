-- ===== src/Wire/Chain.antt =====
-- Members that are read as they were written, and the chains of them that make up a type.
use Prim.Native.Nat.{◌%◌, ◌^◌}
use iot_edge_opc_proxy.Base.{
  ℕ, suc, ◌-◌, ◌<◌, ◌≡◌, refl, sym, ap, ◌∙◌, arith, Bool, true, false, [], ◌++◌, append_assoc,
  append-nil, ◌==◌,
}
use iot_edge_opc_proxy.Base.Int.{ℤ, pos, negsuc, eqb_ℤ}
use iot_edge_opc_proxy.Ring.{size_sub}
use iot_edge_opc_proxy.Wire.{Bytes, done, Ctx, Encode, Decode, ◌>>=◌, ◌>>>◌, give}
use iot_edge_opc_proxy.Wire.Cmp.{Cmp, IsCmp, IsInt64}
use iot_edge_opc_proxy.Wire.Codec.{
  written, stored, mpack_write_integer, mpack_write_uinteger, mpack_write_bool, mpack_read_integer,
  mpack_read_uinteger, mpack_read_bool, mpack_write_type_end, mpack_read_type_end,
}
use iot_edge_opc_proxy.Wire.Fields.{
  decode_uint32, decode_uint16, decode_uint8, decode_int32, narrow, narrow_int, to_int32,
}

abbrev pub ctx : Bytes → ℕ → Ctx
ctx s i = record { stream = s; index = i }

-- The encoder puts `item` at the end of whatever stream there is.
abbrev pub Puts : Encode → Bytes → Type 0
Puts e item = (c : Ctx) → (n : ℕ) × (e c ≡ done (ctx (c.stream ++ item) n))

-- The decoder takes `item` off the front of the stream, whatever follows it, and gives `v`; of the
-- members that the object has, `i` are left before and `j` after.
abbrev pub Takes : {A : Type 0} → ℕ → ℕ → Decode A → Bytes → A → Type 0
Takes i j d item v = (rest : Bytes) → d (ctx (item ++ rest) i) ≡ done (v, ctx rest j)

pub record Codes {A : Type 0} (i j : ℕ) (e : Encode) (d : Decode A) (v : A) : Type 0 where
  pub item : Bytes
  pub puts : Puts e item
  pub takes : Takes i j d item v

pub Puts-then : {a b : Bytes} (e f : Encode) → Puts e a → Puts f b → Puts (e >>> f) (a ++ b)
unfolding ◌>>>◌
Puts-then {a} {b} e f p q c =
    let (n, h) = p c in
    let (k, g) = q (ctx (c.stream ++ a) n) in
    (k, rw h (g ∙ ap (λ s. done (ctx s k)) (append_assoc c.stream a b)))

-- One member and then the others.
pub member :
    {A B : Type 0} {i j k : ℕ} {e f : Encode} {d : Decode A} {v : A} {w : B} (g : A → Decode B)
    → Codes i j e d v
    → Codes j k f (g v) w
    → Codes i k (e >>> f) (d >>= g) w
unfolding ◌>>=◌
member {e} {f} {v} g x y = record {
  item = x.item ++ y.item;
  puts = Puts-then e f x.puts y.puts;
  takes = λ rest. rw (append_assoc x.item y.item rest, x.takes (y.item ++ rest)) (y.takes rest);
}

-- The value of an `int32_t`.
abbrev pub IsInt32 : ℤ → Type 0
IsInt32 (pos n) = n < 2 ^ 31
IsInt32 (negsuc n) = n < 2 ^ 31

wide : (v : ℤ) → IsInt32 v → IsInt64 v
wide (pos n) h = omega arith
wide (negsuc n) h = omega arith

to_int32-IsInt32 : (v : ℤ) → IsInt32 v → to_int32 v ≡ v
to_int32-IsInt32 (pos n) h = ground arith
to_int32-IsInt32 (negsuc n) h = ground arith

pub same : (n : ℕ) → (n == n) ≡ true
same n = ground arith

same_ℤ : (v : ℤ) → eqb_ℤ v v ≡ true
same_ℤ (pos n) = ground arith
same_ℤ (negsuc n) = ground arith

pub more : (i : ℕ) → (suc i == 0) ≡ false
more i = ground arith

pub less : (i : ℕ) → suc i - 1 ≡ i
less i = omega arith

module _ (m : Cmp) where
  -- The end of a type.
  pub finish :
      {A : Type 0} {i : ℕ} (v : A)
      → Codes i i (mpack_write_type_end m) (mpack_read_type_end m >>= λ _. give v) v
  unfolding ◌>>=◌ give mpack_write_type_end mpack_read_type_end
  finish v = record {
    item = [];
    puts = λ c. (c.index, ap (λ s. done (ctx s c.index)) (sym (append-nil c.stream)));
    takes = λ rest. refl;
  }

  -- The values of a member of each kind.
  module _ (law : IsCmp m) where
    pub integer :
        {i : ℕ} (v : ℤ)
        → IsInt64 v
        → Codes (suc i) i (mpack_write_integer m v) (mpack_read_integer m) v
    unfolding mpack_write_integer mpack_read_integer written stored
    integer {i} v h = record {
      item = law.integer v;
      puts = λ c. (size_sub c.index 1, rw (law.write_integer_lem c.stream v h) refl);
      takes = λ rest. rw (law.read_integer_lem v rest h, more i, less i) refl;
    }

    pub uinteger :
        {i : ℕ} (v : ℕ)
        → v < 2 ^ 64
        → Codes (suc i) i (mpack_write_uinteger m v) (mpack_read_uinteger m) v
    unfolding mpack_write_uinteger mpack_read_uinteger written stored
    uinteger {i} v h = record {
      item = law.uinteger v;
      puts = λ c. (size_sub c.index 1, rw (law.write_uinteger_lem c.stream v h) refl);
      takes = λ rest. rw (law.read_uinteger_lem v rest h, more i, less i) refl;
    }

    pub boolean : {i : ℕ} (v : Bool) → Codes (suc i) i (mpack_write_bool m v) (mpack_read_bool m) v
    unfolding mpack_write_bool mpack_read_bool written stored
    boolean {i} v = record {
      item = law.boolean v;
      puts = λ c. (size_sub c.index 1, rw (law.write_bool_lem c.stream v) refl);
      takes = λ rest. rw (law.read_bool_lem v rest, more i, less i) refl;
    }

    -- A cast that changes nothing.
    narrowed :
        {i j : ℕ} (w : ℕ) {e : Encode} {d : Decode ℕ} (v : ℕ)
        → (v % 2 ^ w ≡ v)
        → Codes i j e d v
        → Codes i j e (d >>= narrow w) v
    unfolding ◌>>=◌ narrow give
    narrowed {j = j} w v h x = record {
      item = x.item;
      puts = x.puts;
      takes = λ rest. rw (x.takes rest, h, same v) refl;
    }

    pub uint32 :
        {i : ℕ} (v : ℕ)
        → v < 2 ^ 32
        → Codes (suc i) i (mpack_write_uinteger m v) (decode_uint32 m) v
    unfolding decode_uint32
    uint32 v h = narrowed 32 v (omega arith) (uinteger v (omega arith))

    pub uint16 :
        {i : ℕ} (v : ℕ)
        → v < 2 ^ 16
        → Codes (suc i) i (mpack_write_uinteger m v) (decode_uint16 m) v
    unfolding decode_uint16
    uint16 v h = narrowed 16 v (omega arith) (uinteger v (omega arith))

    pub uint8 :
        {i : ℕ} (v : ℕ) → v < 2 ^ 8 → Codes (suc i) i (mpack_write_uinteger m v) (decode_uint8 m) v
    unfolding decode_uint8
    uint8 v h = narrowed 8 v (omega arith) (uinteger v (omega arith))

    pub int32 :
        {i : ℕ} (v : ℤ) → IsInt32 v → Codes (suc i) i (mpack_write_integer m v) (decode_int32 m) v
    unfolding decode_int32 ◌>>=◌ narrow_int give
    int32 {i} v h =
        let x = integer {i = i} v (wide v h) in
        record {
          item = x.item;
          puts = x.puts;
          takes = λ rest. rw (x.takes rest, to_int32-IsInt32 v h, same_ℤ v) refl;
        }
