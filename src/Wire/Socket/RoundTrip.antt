-- ===== src/Wire/Socket/RoundTrip.antt =====
-- Socket properties are decoded as they were encoded.
use Prim.Native.Nat.{◌^◌}
use iot_edge_opc_proxy.Base.{
  ℕ, suc, ◌<◌, ◌%◌, ◌≡◌, ◌⊎◌, Bool-cases, inl, inr, refl, sym, ap, ◌∙◌, subst, arith, true, false,
  List, [], ◌∷◌, ◌++◌, append_assoc, append-nil, length, length-append, set-append, replicate,
}
use iot_edge_opc_proxy.Base.Int.{pos}
use iot_edge_opc_proxy.Ring.{size_sub}
use iot_edge_opc_proxy.Wire.{Encode, Decode, give, done}
use iot_edge_opc_proxy.Wire.Cmp.{Cmp, IsCmp}
use iot_edge_opc_proxy.Wire.Codec.{
  Allocator, mpack_write_array, mpack_read_array, open_array, array_kind,
}
use iot_edge_opc_proxy.Wire.Fields.{encode_object, in_object, back}
use iot_edge_opc_proxy.Wire.Chain.{
  ctx, IsInt32, Codes, member, finish, uinteger, uint32, int32, more, less,
}
use iot_edge_opc_proxy.Wire.Parts.{Grants}
use iot_edge_opc_proxy.Wire.Object.{IsType, is_type, object}
use iot_edge_opc_proxy.Wire.Address.RoundTrip.{IsAddress}
use iot_edge_opc_proxy.Wire.Info.RoundTrip.{address_member}
use iot_edge_opc_proxy.Wire.Property.{Property, so_max, encode_property}
use iot_edge_opc_proxy.Wire.Property.RoundTrip.{IsProperty, property-IsType}
use iot_edge_opc_proxy.Wire.Socket.{
  SocketProperties, used, no_option, no_options, count_used, slot, place, encode_options,
  encode_array, encode_socket_properties, decode_option, decode_options, from_array, decode_array,
  decode_socket_properties,
}

no_option_used : used no_option ≡ false
unfolding used
no_option_used = refl

-- An option in the slot of its type, or none.
abbrev pub InSlot : ℕ → Property → Type 0
InSlot n p = (p ≡ no_option) ⊎ ((p.type ≡ pos n) × (0 < n) × (n < so_max) × IsProperty p)

-- The slots from number `n` on.
abbrev pub Slots : ℕ → List Property → Type 0
Slots n [] = Unit {0}
Slots n (p ∷ ps) = InSlot n p × Slots (suc n) ps

pub record IsSocketProperties (sp : SocketProperties) : Type 0 where
  pub family : IsInt32 sp.family
  pub sock_type : IsInt32 sp.sock_type
  pub proto_type : IsInt32 sp.proto_type
  pub flags : sp.flags < 2 ^ 32
  pub timeout : sp.timeout < 2 ^ 64
  pub address : IsAddress sp.address
  pub count : length sp.options ≡ so_max
  pub options : Slots 0 sp.options

in_slot-used : (n : ℕ) (p : Property) → p.type ≡ pos n → 0 < n → n < so_max → used p ≡ true
unfolding used
in_slot-used n p h l k = rw h (ground arith)

count_used-length : (ps : List Property) → count_used ps < suc (length ps)
unfolding count_used
count_used-length [] = omega arith
count_used-length (p ∷ ps) =
    let h = count_used-length ps in
    elim (Bool-cases (used p)) [ inl e ↦ rw e (omega (arith, h)) | inr e ↦ rw e (omega (arith, h)) ]

-- The list with its element behind what is in front of it.
along : (p : Property) (pre ps : List Property) → pre ++ (p ∷ ps) ≡ (pre ++ (p ∷ [])) ++ ps
along p pre ps = sym (append_assoc pre (p ∷ []) ps)

Slots-along :
    (p : Property) (pre ps : List Property)
    → Slots (suc (length pre)) ps
    → Slots (length (pre ++ (p ∷ []))) ps
Slots-along p pre ps s =
    subst (λ n. Slots n ps) (let h = length-append pre (p ∷ []) in omega (arith, h)) s

slot_lem : (n : ℕ) (p : Property) → p.type ≡ pos n → slot p ≡ n
slot_lem n p h = rw h refl

place_lem :
    (p : Property) (pre after : List Property)
    → p.type ≡ pos (length pre)
    → used p ≡ true
    → place p (pre ++ (no_option ∷ after)) ≡ (pre ++ (p ∷ [])) ++ after
unfolding place
place_lem p pre after h u =
    rw (u, slot_lem (length pre) p h) (set-append pre no_option p after ∙ along p pre after)

module _ (m : Cmp) (law : IsCmp m) (alloc : Allocator) (g : Grants alloc) where
  option-Codes :
      {i : ℕ} (p : Property)
      → IsProperty p
      → Codes (suc i) i (encode_object m (encode_property m p)) (decode_option m alloc) p
  unfolding decode_option
  option-Codes p h = object m law _ (property-IsType m law alloc g p h)

  options-Codes :
      (ps pre : List Property) (st v : List Property)
      → st ≡ pre ++ replicate (length ps) no_option
      → v ≡ pre ++ ps
      → Slots (length pre) ps
      → Codes (count_used ps) 0 (encode_options m ps) (decode_options m alloc (count_used ps) st) v
  unfolding count_used encode_options decode_options give
  options-Codes [] pre st v h k s = record {
    item = [];
    puts = λ c. (c.index, ap (λ b. done (ctx b c.index)) (sym (append-nil c.stream)));
    takes = λ rest. ap (λ o. done (o, ctx rest 0)) (h ∙ sym k);
  }
  options-Codes (p ∷ ps) pre st v h k s = elim (s.0) [
    | inl e ↦
        rw (ap used e, no_option_used)
          (options-Codes ps (pre ++ (p ∷ [])) st v
            (h ∙ ap (λ q. pre ++ (q ∷ replicate (length ps) no_option)) (sym e) ∙ along p pre _)
            (k ∙ along p pre ps) (Slots-along p pre ps s.1))
    | inr t ↦ rw (in_slot-used (length pre) p t.0 t.1 t.2) (
        member (λ option. decode_options m alloc (count_used ps) (place option st))
          (option-Codes p t.3)
          (options-Codes ps (pre ++ (p ∷ [])) (place p st) v
            (ap (place p) h ∙ place_lem p pre _ t.0 (in_slot-used (length pre) p t.0 t.1 t.2))
            (k ∙ along p pre ps) (Slots-along p pre ps s.1)))
  ]

  -- An array of items that are decoded one by one.
  array-Codes :
      {A : Type 0} {i : ℕ} (size : ℕ) {e : Encode} (d : ℕ → Decode A) {v : A}
      → size < 2 ^ 32
      → Codes size 0 e (d size) v
      → Codes (suc i) i (encode_array m size e) (decode_array m d) v
  unfolding encode_array in_object mpack_write_array open_array decode_array mpack_read_array
      array_kind from_array back
  array-Codes {i = i} size d h x =
      let wide : size % 2 ^ 32 ≡ size = omega arith in
      record {
        item = law.array_size size ++ x.item;
        puts = λ c. (
          size_sub c.index 1,
          rw
              (
                wide,
                law.write_array_lem c.stream size h,
                open_array,
                in_object,
                (x.puts (ctx (c.stream ++ law.array_size size) size)).1,
                append_assoc c.stream (law.array_size size) x.item,
              )
              refl,
        );
        takes = λ rest.
            rw
              (
                more i,
                append_assoc (law.array_size size) x.item rest,
                law.read_array_lem size (x.item ++ rest) h,
                array_kind,
                x.takes rest,
                less i,
              )
              refl;
      }

  pub socket_properties-IsType :
      (sp : SocketProperties)
      → IsSocketProperties sp
      → IsType m law 7 (encode_socket_properties m sp) (decode_socket_properties m alloc) sp
  unfolding encode_socket_properties decode_socket_properties
  socket_properties-IsType sp h =
      let few : count_used sp.options < 2 ^ 32 =
        (let k = count_used-length sp.options in omega (arith, k, h.count)) in
      let options =
        options-Codes sp.options [] no_options sp.options
          (ap (λ n. replicate n no_option) (sym h.count)) refl h.options in
      is_type m law (omega arith) (
        member _ (int32 m law sp.family h.family) (
          member _ (int32 m law sp.sock_type h.sock_type) (
            member _ (int32 m law sp.proto_type h.proto_type) (
              member _ (uint32 m law sp.flags h.flags) (
                member _ (uinteger m law sp.timeout h.timeout) (
                  member _ (address_member m law sp.address h.address) (
                    member _
                      (array-Codes (count_used sp.options)
                        (λ size. decode_options m alloc size no_options) few options)
                      (finish m sp))))))))
