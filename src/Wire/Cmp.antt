-- ===== src/Wire/Cmp.antt =====
-- The message pack library cmp, which is not in the repository: what the codec calls of it. A writer
-- gives the stream behind its bytes, a reader the value and the bytes that are left; or they fail
-- with the number that they leave in `error`.
use iot_edge_opc_proxy.Base.{
  ℕ, ◌<◌, ◌^◌, ◌≡◌, refl, Bool, true, false, [], ◌∷◌, ◌++◌, length, ◌==◌, if◌then◌else◌,
}
use iot_edge_opc_proxy.Base.Int.{ℤ, pos, negsuc}
use iot_edge_opc_proxy.Wire.{Bytes}

pub data Outcome (A : Type 0) : Type 0 where
  good : A → Outcome A
  bad : ℕ → Outcome A

-- The kinds of object that `cmp_read_object` tells apart here.
pub data Object : Type 0 where
  nil : Object
  array : ℕ → Object
  map_object : Object
  another : Object

pub record Cmp : Type 0 where
  pub write_integer : Bytes → ℤ → Outcome Bytes
  pub write_uinteger : Bytes → ℕ → Outcome Bytes
  pub write_bool : Bytes → Bool → Outcome Bytes
  pub write_str : Bytes → Bytes → Outcome Bytes
  pub write_bin : Bytes → Bytes → Outcome Bytes
  pub write_nil : Bytes → Outcome Bytes
  pub write_array : Bytes → ℕ → Outcome Bytes
  pub read_integer : Bytes → Outcome (ℤ × Bytes)
  pub read_uinteger : Bytes → Outcome (ℕ × Bytes)
  pub read_bool : Bytes → Outcome (Bool × Bytes)
  pub read_str_size : Bytes → Outcome (ℕ × Bytes)
  pub read_bin_size : Bytes → Outcome (ℕ × Bytes)
  pub read_nil : Bytes → Outcome Bytes
  pub read_array : Bytes → Outcome (ℕ × Bytes)
  pub read_object : Bytes → Outcome (Object × Bytes)

-- The value of an `int64_t`.
abbrev pub IsInt64 : ℤ → Type 0
IsInt64 (pos n) = n < 2 ^ 63
IsInt64 (negsuc n) = n < 2 ^ 63

-- The message pack format: each value has its bytes. Into a stream that takes what is written, the
-- writers put these bytes at the end, and the readers take them off the front again.
pub record IsCmp (m : Cmp) : Type 0 where
  pub integer : ℤ → Bytes
  pub write_integer_lem :
      (s : Bytes) (v : ℤ) → IsInt64 v → m.write_integer s v ≡ good (s ++ integer v)
  pub read_integer_lem :
      (v : ℤ) (rest : Bytes) → IsInt64 v → m.read_integer (integer v ++ rest) ≡ good (v, rest)
  pub uinteger : ℕ → Bytes
  pub write_uinteger_lem :
      (s : Bytes) (v : ℕ) → v < 2 ^ 64 → m.write_uinteger s v ≡ good (s ++ uinteger v)
  pub read_uinteger_lem :
      (v : ℕ) (rest : Bytes) → v < 2 ^ 64 → m.read_uinteger (uinteger v ++ rest) ≡ good (v, rest)
  pub boolean : Bool → Bytes
  pub write_bool_lem : (s : Bytes) (v : Bool) → m.write_bool s v ≡ good (s ++ boolean v)
  pub read_bool_lem : (v : Bool) (rest : Bytes) → m.read_bool (boolean v ++ rest) ≡ good (v, rest)
  pub str_size : ℕ → Bytes
  pub write_str_lem :
      (s v : Bytes) → length v < 2 ^ 32 → m.write_str s v ≡ good (s ++ (str_size (length v) ++ v))
  pub read_str_size_lem :
      (n : ℕ) (rest : Bytes) → n < 2 ^ 32 → m.read_str_size (str_size n ++ rest) ≡ good (n, rest)
  pub bin_size : ℕ → Bytes
  pub write_bin_lem :
      (s v : Bytes) → length v < 2 ^ 32 → m.write_bin s v ≡ good (s ++ (bin_size (length v) ++ v))
  pub read_bin_size_lem :
      (n : ℕ) (rest : Bytes) → n < 2 ^ 32 → m.read_bin_size (bin_size n ++ rest) ≡ good (n, rest)
  pub nothing : Bytes
  pub write_nil_lem : (s : Bytes) → m.write_nil s ≡ good (s ++ nothing)
  pub read_nil_lem : (rest : Bytes) → m.read_nil (nothing ++ rest) ≡ good rest
  pub array_size : ℕ → Bytes
  pub write_array_lem :
      (s : Bytes) (n : ℕ) → n < 2 ^ 32 → m.write_array s n ≡ good (s ++ array_size n)
  pub read_array_lem :
      (n : ℕ) (rest : Bytes) → n < 2 ^ 32 → m.read_array (array_size n ++ rest) ≡ good (n, rest)
  pub read_object-nil : (rest : Bytes) → m.read_object (nothing ++ rest) ≡ good (nil, rest)
  pub read_object-array :
      (n : ℕ) (rest : Bytes)
      → n < 2 ^ 32
      → m.read_object (array_size n ++ rest) ≡ good (array n, rest)

-- A format of that shape: each header is a tag and a number.
abbrev tagged : {A : Type 0} → ℕ → (ℕ → A) → Bytes → Outcome (A × Bytes)
tagged tag f [] = bad 7
tagged tag f (t ∷ []) = bad 14
tagged tag f (t ∷ n ∷ rest) = if t == tag then good (f n, rest) else bad 13

abbrev take_integer : Bytes → Outcome (ℤ × Bytes)
take_integer [] = bad 7
take_integer (t ∷ []) = bad 14
take_integer (t ∷ n ∷ rest) = if t == 0 then good (pos n, rest) else good (negsuc n, rest)

abbrev take_nil : Bytes → Outcome Bytes
take_nil [] = bad 7
take_nil (t ∷ []) = bad 14
take_nil (t ∷ n ∷ rest) = if t == 6 then good rest else bad 13

abbrev take_object : Bytes → Outcome (Object × Bytes)
take_object [] = bad 7
take_object (t ∷ []) = bad 14
take_object (t ∷ n ∷ rest) =
    if t == 6
    then good (nil, rest)
    else if t == 7
    then good (array n, rest)
    else good (another, rest)

abbrev header : ℕ → ℕ → Bytes
header tag n = tag ∷ n ∷ []

abbrev put_integer : ℤ → Bytes
put_integer (pos n) = header 0 n
put_integer (negsuc n) = header 1 n

abbrev put_bool : Bool → Bytes
put_bool b = header 3 (if b then 1 else 0)

abbrev pub plain : Cmp
plain = record {
  write_integer = λ s v. good (s ++ put_integer v);
  write_uinteger = λ s v. good (s ++ header 2 v);
  write_bool = λ s v. good (s ++ put_bool v);
  write_str = λ s v. good (s ++ (header 4 (length v) ++ v));
  write_bin = λ s v. good (s ++ (header 5 (length v) ++ v));
  write_nil = λ s. good (s ++ header 6 0);
  write_array = λ s n. good (s ++ header 7 n);
  read_integer = take_integer;
  read_uinteger = tagged 2 (λ n. n);
  read_bool = tagged 3 (λ n. n == 1);
  read_str_size = tagged 4 (λ n. n);
  read_bin_size = tagged 5 (λ n. n);
  read_nil = take_nil;
  read_array = tagged 7 (λ n. n);
  read_object = take_object;
}

take-put_integer : (v : ℤ) (rest : Bytes) → take_integer (put_integer v ++ rest) ≡ good (v, rest)
take-put_integer (pos n) rest = refl
take-put_integer (negsuc n) rest = refl

take-put_bool :
    (v : Bool) (rest : Bytes) → tagged 3 (λ n. n == 1) (put_bool v ++ rest) ≡ good (v, rest)
take-put_bool true rest = refl
take-put_bool false rest = refl

pub plain-IsCmp : IsCmp plain
plain-IsCmp = record {
  integer = put_integer;
  write_integer_lem = λ s v h. refl;
  read_integer_lem = λ v rest h. take-put_integer v rest;
  uinteger = header 2;
  write_uinteger_lem = λ s v h. refl;
  read_uinteger_lem = λ v rest h. refl;
  boolean = put_bool;
  write_bool_lem = λ s v. refl;
  read_bool_lem = take-put_bool;
  str_size = header 4;
  write_str_lem = λ s v h. refl;
  read_str_size_lem = λ n rest h. refl;
  bin_size = header 5;
  write_bin_lem = λ s v h. refl;
  read_bin_size_lem = λ n rest h. refl;
  nothing = header 6 0;
  write_nil_lem = λ s. refl;
  read_nil_lem = λ rest. refl;
  array_size = header 7;
  write_array_lem = λ s n h. refl;
  read_array_lem = λ n rest h. refl;
  read_object-nil = λ rest. refl;
  read_object-array = λ n rest h. refl;
}
