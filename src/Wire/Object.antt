-- ===== src/Wire/Object.antt =====
-- Types as objects: the header that a type writes and the reader of an object takes, and members
-- that are objects.
use Prim.Native.Nat.{◌%◌, ◌^◌}
use iot_edge_opc_proxy.Base.{
  ℕ, suc, ◌+◌, ◌-◌, ◌<◌, ◌≡◌, refl, ap, ◌∙◌, arith, false, ◌++◌, append_assoc, some, ◌==◌,
}
use iot_edge_opc_proxy.Ring.{size_sub}
use iot_edge_opc_proxy.Wire.{Bytes, done, Encode, Decode, ◌>>=◌, ◌>>>◌, give}
use iot_edge_opc_proxy.Wire.Cmp.{Cmp, IsCmp}
use iot_edge_opc_proxy.Wire.Codec.{
  mpack_write_object, mpack_write_type_begin, mpack_read_object, mpack_read_type_begin, open_object,
  type_header, type_holder, object_kind, object_holder,
}
use iot_edge_opc_proxy.Wire.Fields.{encode_object, in_object, decode_object, from_object}
use iot_edge_opc_proxy.Wire.Chain.{ctx, Puts, Puts-then, Takes, Codes, more, less}

module _ (m : Cmp) (law : IsCmp m) where
  -- A type in the context of its object: its header, which the parent reads, and then its members.
  pub record IsType {A : Type 0} (members : ℕ) (e : Encode) (d : Decode A) (v : A) : Type 0 where
    pub few : members + 1 < 2 ^ 32
    pub body : Bytes
    pub left : ℕ
    pub puts : Puts e (law.array_size (members + 1) ++ (law.nothing ++ body))
    pub takes : Takes members left d body v

  pub begin-Puts :
      (members : ℕ)
      → members + 1 < 2 ^ 32
      → Puts (mpack_write_type_begin m members) (law.array_size (members + 1) ++ law.nothing)
  unfolding mpack_write_type_begin type_header type_holder
  begin-Puts members h c =
      let size : (members % 2 ^ 32 + 1) % 2 ^ 32 ≡ members + 1 = omega arith in
      (
        members,
        rw
            (
              size,
              law.write_array_lem c.stream (members + 1) h,
              type_header,
              law.write_nil_lem (c.stream ++ law.array_size (members + 1)),
              type_holder,
              append_assoc c.stream (law.array_size (members + 1)) law.nothing,
            )
            refl,
      )

  pub is_type :
      {A : Type 0} {members left : ℕ} {e : Encode} {d : Decode A} {v : A}
      → members + 1 < 2 ^ 32
      → Codes members left e d v
      → IsType members
          (mpack_write_type_begin m members >>> e)
          (mpack_read_type_begin m >>= λ _. d)
          v
  unfolding ◌>>=◌ mpack_read_type_begin
  is_type {members} {left} {e} h x = record {
    few = h;
    body = x.item;
    left = left;
    puts = λ c.
        let (n, p) =
          Puts-then (mpack_write_type_begin m members) e (begin-Puts members h) x.puts c in
        (
          n,
          p
              ∙ ap (λ b. done (ctx (c.stream ++ b) n))
                  (append_assoc (law.array_size (members + 1)) law.nothing x.item),
        );
    takes = x.takes;
  }

  header :
      {A : Type 0} {members : ℕ} {e : Encode} {d : Decode A} {v : A} → IsType members e d v → Bytes
  header {members = members} t = law.array_size (members + 1) ++ (law.nothing ++ t.body)

  object_takes :
      {A : Type 0} {i members : ℕ} {e : Encode} (d : Decode A) {v : A} (t : IsType members e d v)
      (rest : Bytes)
      → mpack_read_object m (ctx (header t ++ rest) (suc i))
        ≡ done (some (ctx (t.body ++ rest) members), ctx (t.body ++ rest) i)
  unfolding header mpack_read_object object_kind object_holder
  object_takes {i = i} {members} d t rest =
      let n : members + 1 - 1 ≡ members = omega arith in
      let some_members : (members + 1 == 0) ≡ false = ground arith in
      rw
        (
          more i,
          append_assoc (law.array_size (members + 1)) (law.nothing ++ t.body) rest,
          append_assoc law.nothing t.body rest,
          law.read_object-array (members + 1) (law.nothing ++ (t.body ++ rest)) t.few,
          object_kind,
          some_members,
          law.read_nil_lem (t.body ++ rest),
          object_holder,
          n,
          less i,
        )
        refl

  pub object :
      {A : Type 0} {i members : ℕ} {e : Encode} {d : Decode A} {v : A} (null : Decode A)
      → IsType members e d v
      → Codes (suc i) i (encode_object m e) (decode_object m null d) v
  unfolding encode_object in_object mpack_write_object open_object decode_object header
  object {i = i} {e = e} {d} null t = record {
    item = header t;
    puts = λ c. (size_sub c.index 1, rw ((t.puts (ctx c.stream 0)).1) refl);
    takes = λ rest. rw (object_takes {i = i} d t rest, from_object, t.takes rest) refl;
  }

-- A value that is stored as a member of something else.
pub mapped :
    {A B : Type 0} {i j : ℕ} {e : Encode} {d : Decode A} {v : A} (make : A → B)
    → Codes i j e d v
    → Codes i j e (d >>= λ x. give (make x)) (make v)
unfolding ◌>>=◌ give
mapped make x = record { item = x.item; puts = x.puts; takes = λ rest. rw (x.takes rest) refl }
