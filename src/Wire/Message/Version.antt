-- ===== src/Wire/Message/Version.antt =====
-- The version that a message carries.
use Prim.Native.Nat.{◌/◌, ◌^◌}
use iot_edge_opc_proxy.Base.{
  ℕ, ◌≡◌, ◌≢◌, ◌≤◌, sym, subst, if◌then◌else◌, inl, inr, refl, arith, false, Bool-cases, Option,
  none, some, ◌==◌,
}
use iot_edge_opc_proxy.Error.{Error}
use iot_edge_opc_proxy.Wire.{
  Bytes, Result, done, fails, Ctx, Decode, decode_then, ◌>>=◌, give, give_up,
}
use iot_edge_opc_proxy.Wire.Cmp.{Cmp}
use iot_edge_opc_proxy.Wire.Codec.{Memory, mpack_read_type_begin}
use iot_edge_opc_proxy.Wire.Fields.{decode_object, from_object, back, decode_uint32}
use iot_edge_opc_proxy.Wire.Message.{Message, check_version, decode_message, receive_handler}

-- A result that is not a failure.
abbrev IsDone : {A : Type 0} → Result A → Type 0
IsDone (done a) = Unit {0}
IsDone (fails r) = 1 ≤ 0

module _ (m : Cmp) where
  IsDone-back : {A : Type 0} (c : Ctx) (r : Result (A × Ctx)) → IsDone (back m c r) → IsDone r
  unfolding back
  IsDone-back c (done x) h = tt
  IsDone-back c (fails r) h = h

  back_fails : {A : Type 0} {r : Error} (c : Ctx) → back m {A = A} c (fails r) ≡ fails r
  unfolding back
  back_fails c = refl

module _ (m : Cmp) (version other : ℕ) where
  check_other :
      {A : Type 0} (r : Result (ℕ × Ctx)) (tail : Decode A)
      → IsDone (decode_then r (λ received. check_version m version received >>= λ _. tail))
      → version / 2 ^ 16 ≢ other / 2 ^ 16
      → decode_then r (λ received. check_version m other received >>= λ _. tail)
        ≡ fails Error.invalid_format
  unfolding check_version ◌>>=◌ give give_up
  check_other (fails r) tail h d = absurd (omega (arith, h))
  check_other (done (n, c)) tail h d = elim (Bool-cases (n / 2 ^ 16 == version / 2 ^ 16)) [
    | inl e ↦
        (let differ : (n / 2 ^ 16 == other / 2 ^ 16) ≡ false = ground (arith, e, d) in
          rw differ refl)
    | inr e ↦ absurd (
        let h' =
          subst
            (λ b.
              IsDone
                (decode_then ((if b then give tt else give_up Error.invalid_format) c) (λ _. tail)))
            e h in
        omega (arith, h'))
  ]

  message_other :
      (memory : Memory) (c : Ctx)
      → IsDone (decode_message m version memory c)
      → version / 2 ^ 16 ≢ other / 2 ^ 16
      → decode_message m other memory c ≡ fails Error.invalid_format
  unfolding decode_message ◌>>=◌ mpack_read_type_begin
  message_other memory c h d = check_other (decode_uint32 m c) _ h d

  object_other :
      (memory : Memory) (r : Result (Option Ctx × Ctx))
      → IsDone (from_object m (give_up Error.invalid_format) (decode_message m version memory) r)
      → version / 2 ^ 16 ≢ other / 2 ^ 16
      → from_object m (give_up Error.invalid_format) (decode_message m other memory) r
        ≡ fails Error.invalid_format
  unfolding from_object give_up
  object_other memory (fails r) h d = absurd (omega (arith, h))
  object_other memory (done (none, c)) h d = refl
  object_other memory (done (some obj, c)) h d =
      let inner = IsDone-back m c (decode_message m version memory obj) h in
      rw (message_other memory obj inner d) (back_fails m c)

  -- Whatever bytes a receiver of one version takes for a message, a receiver whose version has another
  -- upper half refuses with er_invalid_format.
  pub receive_handler-other :
      (memory : Memory) (stream : Bytes) (msg : Message) (c : Ctx)
      → receive_handler m version memory stream ≡ done (msg, c)
      → version / 2 ^ 16 ≢ other / 2 ^ 16
      → receive_handler m other memory stream ≡ fails Error.invalid_format
  unfolding receive_handler decode_object
  receive_handler-other memory stream msg c h d = object_other memory _ (subst IsDone (sym h) tt) d
