-- ===== src/Wire/Ref/RoundTrip.antt =====
-- A reference is copied, swapped, and decoded as it was encoded.
use iot_edge_opc_proxy.Base.{
  ℕ, suc, ◌≡◌, refl, ap, ◌∙◌, arith, ◌++◌, length, length-take, take, drop, take-append,
  drop-append, take-append-drop,
}
use iot_edge_opc_proxy.Wire.Cmp.{Cmp, IsCmp}
use iot_edge_opc_proxy.Wire.Chain.{Codes, member, finish}
use iot_edge_opc_proxy.Wire.Parts.{bin_fixed}
use iot_edge_opc_proxy.Wire.Object.{IsType, is_type, object}
use iot_edge_opc_proxy.Wire.Ref.{
  Ref, low, high, put_low, swap, copy, no_ref, encode_ref, decode_ref, encode_ref_member,
  decode_ref_member,
}

abbrev pub IsRef : Ref → Type 0
IsRef ref = length ref ≡ 16

-- A word that is put in front is read back, and so is what is behind it.
word-length : (ref : Ref) → IsRef ref → 8 ≡ length (low ref)
word-length ref h = let k = length-take 8 ref in omega (arith, h, k)

low-put_low : (ref other : Ref) → IsRef ref → low (put_low (low ref) other) ≡ low ref
low-put_low ref other h =
    ap (λ n. take n (low ref ++ high other)) (word-length ref h)
    ∙ take-append (low ref) (high other)

high-put_low : (ref other : Ref) → IsRef ref → high (put_low (low ref) other) ≡ high other
high-put_low ref other h =
    ap (λ n. drop n (low ref ++ high other)) (word-length ref h)
    ∙ drop-append (low ref) (high other)

pub swap_lem : (ref1 ref2 : Ref) → IsRef ref1 → IsRef ref2 → swap ref1 ref2 ≡ (ref2, ref1)
unfolding swap
swap_lem ref1 ref2 h k =
    rw
      (
        low-put_low ref2 ref1 k,
        high-put_low ref1 ref2 h,
        low-put_low ref1 ref2 h,
        high-put_low ref2 ref1 k,
        take-append-drop 8 ref1,
        take-append-drop 8 ref2,
      )
      refl

pub copy_lem : (src dst : Ref) → IsRef src → IsRef dst → copy src dst ≡ src
unfolding copy
copy_lem src dst h k = rw (low-put_low src dst h, take-append-drop 8 src) refl

module _ (m : Cmp) (law : IsCmp m) where
  pub ref-IsType : (ref : Ref) → IsRef ref → IsType m law 1 (encode_ref m ref) (decode_ref m) ref
  unfolding encode_ref decode_ref
  ref-IsType ref h =
      is_type m law (omega arith)
        (member _ (bin_fixed m law no_ref ref h (omega (arith, h))) (finish m ref))

  pub ref_member :
      {i : ℕ} (ref : Ref)
      → IsRef ref
      → Codes (suc i) i (encode_ref_member m ref) (decode_ref_member m) ref
  ref_member ref h = object m law _ (ref-IsType ref h)
