-- ===== src/Text/Trim/Core.antt =====
-- What trimming leaves: the text between a longest front and a longest back of trimmed characters.
use iot_edge_opc_proxy.Base.{
  ℕ, zero, suc, ◌≤◌, ◌≡◌, refl, ap, sym, ◌∙◌, inl, inr, true, false, [], ◌∷◌, ◌++◌, some, length,
  get_or, take, arith, Bool-cases, Each, append_assoc, append-nil, take-snoc, take_all, subst,
}
use iot_edge_opc_proxy.Text.{Str}
use iot_edge_opc_proxy.Text.Trim.{
  is_trimmed, trim_front_loop, trim_front, trim_back_loop, trim_back_len, trim_back, trim,
}

module _ (t : Str) where
  abbrev AllTrimmed : Str → Type 0
  AllTrimmed = Each (λ c. is_trimmed c t ≡ true)

  -- Empty, or with a first character that stays.
  abbrev pub FrontStays : Str → Type 0
  FrontStays [] = Unit {0}
  FrontStays (c ∷ v) = is_trimmed c t ≡ false

  -- Empty, or with a last character that stays.
  abbrev pub BackStays : Str → Type 0
  BackStays [] = Unit {0}
  BackStays (c ∷ []) = is_trimmed c t ≡ false
  BackStays (c ∷ d ∷ v) = BackStays (d ∷ v)

  -- `v` is `r` behind a trimmed front.
  record Front (v r : Str) : Type 0 where
    front : Str
    joined : v ≡ front ++ r
    trimmed : AllTrimmed front
    stays : FrontStays r

  -- `v` is `r` before a trimmed back.
  record Back (v r : Str) : Type 0 where
    back : Str
    joined : v ≡ r ++ back
    trimmed : AllTrimmed back
    stays : BackStays r

  trim_front_loop-Front : (v : Str) → Front v (trim_front_loop v t)
  unfolding trim_front_loop
  trim_front_loop-Front [] = record { front = []; joined = refl; trimmed = tt; stays = tt }
  trim_front_loop-Front (c ∷ v) = elim (Bool-cases (is_trimmed c t)) [
    | inr keeps ↦ rw (keeps) (record { front = []; joined = refl; trimmed = tt; stays = keeps })
    | inl goes ↦
        let f = trim_front_loop-Front v in
        rw (goes) (record {
          front = c ∷ f.front;
          joined = ap (◌∷◌ c) f.joined;
          trimmed = (goes, f.trimmed);
          stays = f.stays;
        })
  ]

  BackStays-snoc : (v : Str) (c : ℕ) → is_trimmed c t ≡ false → BackStays (v ++ (c ∷ []))
  BackStays-snoc [] c h = h
  BackStays-snoc (d ∷ []) c h = h
  BackStays-snoc (d ∷ e ∷ v) c h = BackStays-snoc (e ∷ v) c h

  AllTrimmed-snoc :
      (v : Str) (c : ℕ) → AllTrimmed v → is_trimmed c t ≡ true → AllTrimmed (v ++ (c ∷ []))
  AllTrimmed-snoc [] c a h = (h, tt)
  AllTrimmed-snoc (d ∷ v) c a h = (a.0, AllTrimmed-snoc v c a.1 h)

  trim_back_loop-Back :
      (v : Str) (len : ℕ) → len ≤ length v → Back (take len v) (take (trim_back_loop v len t) v)
  unfolding trim_back_loop
  trim_back_loop-Back v zero h = record { back = []; joined = refl; trimmed = tt; stays = tt }
  trim_back_loop-Back v (suc len) h = elim (Bool-cases (is_trimmed (get_or v len 0) t)) [
    | inr keeps ↦ rw keeps (record {
      back = [];
      joined = sym (append-nil (take (suc len) v));
      trimmed = tt;
      stays = rw (take-snoc v len 0 h) (BackStays-snoc (take len v) (get_or v len 0) keeps);
    })
    | inl goes ↦
        let b = trim_back_loop-Back v len (omega arith) in
        rw goes (record {
          back = b.back ++ (get_or v len 0 ∷ []);
          joined =
              take-snoc v len 0 h
              ∙ ap (λ w. w ++ (get_or v len 0 ∷ [])) b.joined
              ∙ append_assoc (take (trim_back_loop v len t) v) b.back (get_or v len 0 ∷ []);
          trimmed = AllTrimmed-snoc b.back (get_or v len 0) b.trimmed goes;
          stays = b.stays;
        })
  ]

  trim_back-Back : (v : Str) → (r : Str) × (trim_back (some v) (some t) ≡ some r) × Back v r
  unfolding trim_back trim_back_len
  trim_back-Back [] = ([], refl, record { back = []; joined = refl; trimmed = tt; stays = tt })
  trim_back-Back (c ∷ v) = (
    take (trim_back_loop (c ∷ v) (suc (length v)) t) (c ∷ v),
    ground arith,
    subst (λ w. Back w (take (trim_back_loop (c ∷ v) (suc (length v)) t) (c ∷ v)))
        (take_all (suc (length v)) (c ∷ v) (omega arith))
        (trim_back_loop-Back (c ∷ v) (suc (length v)) (omega arith)),
  )

  FrontStays-part : (r back : Str) → FrontStays (r ++ back) → FrontStays r
  FrontStays-part [] back h = tt
  FrontStays-part (c ∷ r) back h = h

  -- `r` is `v` with a front and a back of trimmed characters cut off, and could not be cut further.
  pub record Trimmed (v r : Str) : Type 0 where
    pub front : Str
    pub back : Str
    pub joined : v ≡ front ++ (r ++ back)
    pub front_trimmed : Each (λ c. is_trimmed c t ≡ true) front
    pub back_trimmed : Each (λ c. is_trimmed c t ≡ true) back
    pub front_stays : FrontStays r
    pub back_stays : BackStays r

  -- `string_trim` of a text by a set of characters cuts off a front and a back that consist of such
  -- characters, and what it returns neither begins nor ends with one.
  pub trim-Trimmed : (v : Str) → (r : Str) × (trim (some v) (some t) ≡ some r) × Trimmed v r
  unfolding trim trim_front
  trim-Trimmed v =
      let f = trim_front_loop-Front v in
      let (r, e, b) = trim_back-Back (trim_front_loop v t) in
      (
        r,
        e,
        record {
          front = f.front;
          back = b.back;
          joined = f.joined ∙ ap (◌++◌ f.front) b.joined;
          front_trimmed = f.trimmed;
          back_trimmed = b.trimmed;
          front_stays = FrontStays-part r b.back (subst FrontStays b.joined f.stays);
          back_stays = b.stays;
        },
      )
