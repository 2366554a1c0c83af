-- ===== src/Queue/Stream.antt =====
-- A buffer of a queue as a stream.
use Prim.Native.Nat.{◌^◌}
use iot_edge_opc_proxy.Base.{
  ℕ, zero, suc, ◌+◌, ◌-◌, ◌<◌, ◌≤◌, ◌≡◌, inl, inr, refl, sym, subst, ap, ap₂, ◌∙◌, arith,
  Bool-cases, false, List, [], ◌∷◌, ◌++◌, append_assoc, append-nil, length, length-append,
  length-take, length-drop, take, drop, take_all, take-append, take-append-drop, take-min,
  take_append_right, take-take_le, min, ◌==◌,
}
use iot_edge_opc_proxy.Ring.{size_sub}
use iot_edge_opc_proxy.Error.{Error}
use iot_edge_opc_proxy.Queue.{Buffer, write_some, stream_writer, read_some, stream_reader}

-- The room that a buffer says it has is there, and the writer is inside of it.
pub record IsBuffer (b : Buffer) : Type 0 where
  pub room : length b.payload ≡ b.length
  pub inside : b.write_offset ≤ b.length
  pub small : b.length < 2 ^ 63

-- What has been written.
abbrev pub written_bytes : Buffer → List ℕ
written_bytes b = take b.write_offset b.payload

-- The payload behind a copy of `write` bytes.
abbrev copied : Buffer → List ℕ → ℕ → List ℕ
copied b buf write =
    take b.write_offset b.payload ++ (take write buf ++ drop (b.write_offset + write) b.payload)

module _ (b : Buffer) (h : IsBuffer b) (buf : List ℕ) (write : ℕ)
    (fits : write ≤ b.length - b.write_offset) (there : write ≤ length buf) where
  front : b.write_offset ≡ length (take b.write_offset b.payload)
  front = let k = length-take b.write_offset b.payload in omega (arith, k, h.room, h.inside)

  middle : write ≡ length (take write buf)
  middle = let k = length-take write buf in omega (arith, k, there)

  length-copied : length (copied b buf write) ≡ b.length
  length-copied =
      let a =
        length-append (take b.write_offset b.payload)
          (take write buf ++ drop (b.write_offset + write) b.payload) in
      let c = length-append (take write buf) (drop (b.write_offset + write) b.payload) in
      let e = length-drop (b.write_offset + write) b.payload in
      omega (arith, a, c, e, front, middle, fits, h.room, h.inside)

  take-copied :
      take (b.write_offset + write) (copied b buf write)
      ≡ take b.write_offset b.payload ++ take write buf
  take-copied =
      let long : b.write_offset + write ≡ length (take b.write_offset b.payload ++ take write buf) =
        (let a = length-append (take b.write_offset b.payload) (take write buf) in
          omega (arith, a, front, middle)) in
      ap₂ take long (
        sym (
          append_assoc (take b.write_offset b.payload) (take write buf)
            (drop (b.write_offset + write) b.payload)))
      ∙ take-append (take b.write_offset b.payload ++ take write buf)
          (drop (b.write_offset + write) b.payload)

copied-zero : (b : Buffer) (buf : List ℕ) → copied b buf 0 ≡ b.payload
copied-zero b buf =
    ap (λ n. take b.write_offset b.payload ++ drop n b.payload) {y = b.write_offset} (omega arith)
    ∙ take-append-drop b.write_offset b.payload

-- The number of bytes that a write takes.
abbrev taken : Buffer → List ℕ → ℕ
taken b buf = min (b.length - b.write_offset) (length buf)

after : Buffer → List ℕ → ℕ → Error × Buffer
after b buf write =
    (Error.ok, record b { payload = copied b buf write; write_offset = b.write_offset + write })

after-zero : (b : Buffer) (buf : List ℕ) → after b buf 0 ≡ (Error.ok, b)
unfolding after
after-zero b buf =
    rw (copied-zero b buf)
      (ap (λ n. (Error.ok, record b { write_offset = n })) {y = b.write_offset} (omega arith))

write_some-after :
    (b : Buffer) (buf : List ℕ) (write : ℕ) → write_some b buf write ≡ after b buf write
unfolding write_some after
write_some-after b buf zero = sym (after-zero b buf)
write_some-after b buf (suc write) =
    (let some : (suc write == 0) ≡ false = ground arith in rw some refl)

stream_writer-after :
    (b : Buffer) (buf : List ℕ) → IsBuffer b → stream_writer b buf ≡ after b buf (taken b buf)
unfolding stream_writer
stream_writer-after b buf h =
    let room : min (size_sub b.length b.write_offset) (length buf) ≡ taken b buf =
      (let i = h.inside in let j = h.small in omega (arith, i, j)) in
    elim (Bool-cases (length buf == 0)) [
      | inl e ↦ rw e (sym (ap (after b buf) {y = 0} (ground (arith, e)) ∙ after-zero b buf))
      | inr e ↦ rw e (ap (write_some b buf) room ∙ write_some-after b buf (taken b buf))
    ]

after-IsBuffer : (b : Buffer) (buf : List ℕ) → IsBuffer b → IsBuffer (after b buf (taken b buf)).1
unfolding after
after-IsBuffer b buf h = record {
  room = length-copied b h buf (taken b buf) (omega arith) (omega arith);
  inside = (let i = h.inside in omega (arith, i));
  small = h.small;
}

written-after :
    (b : Buffer) (buf : List ℕ)
    → IsBuffer b
    → written_bytes (after b buf (taken b buf)).1 ≡ take b.length (written_bytes b ++ buf)
unfolding after
written-after b buf h =
    let w = front b h buf 0 (omega arith) (omega arith) in
    take-copied b h buf (taken b buf) (omega arith) (omega arith)
    ∙ (ap (λ l. written_bytes b ++ l) (take-min (b.length - b.write_offset) buf)
        ∙ (ap (λ n. written_bytes b ++ take (b.length - n) buf) w
            ∙ sym (
                take_append_right b.length (written_bytes b) buf
                  (let i = h.inside in omega (arith, w, i)))))

take-take-append : (n : ℕ) (xs ys : List ℕ) → take n (take n xs ++ ys) ≡ take n (xs ++ ys)
take-take-append zero xs ys = refl
take-take-append (suc n) [] ys = refl
take-take-append (suc n) (x ∷ xs) ys = ap (◌∷◌ x) (take-take-append n xs ys)

-- One write after the other, and all that is handed over.
abbrev pub writes : Buffer → List (List ℕ) → Buffer
writes b [] = b
writes b (buf ∷ bufs) = writes (stream_writer b buf).1 bufs

abbrev pub joined : List (List ℕ) → List ℕ
joined [] = []
joined (buf ∷ bufs) = buf ++ joined bufs

-- A buffer after some writes.
record Wrote (b : Buffer) (bytes : List ℕ) (b' : Buffer) : Type 0 where
  pub valid : IsBuffer b'
  pub size : b'.length ≡ b.length
  pub reader : b'.read_offset ≡ b.read_offset
  pub written : written_bytes b' ≡ take b.length bytes

after-Wrote :
    (b : Buffer) (buf : List ℕ) (bytes : List ℕ) (b' : Buffer)
    → IsBuffer b
    → Wrote (after b buf (taken b buf)).1 (written_bytes (after b buf (taken b buf)).1 ++ bytes) b'
    → Wrote b (written_bytes b ++ (buf ++ bytes)) b'
unfolding after
after-Wrote b buf bytes b' h w = record {
  valid = w.valid;
  size = w.size;
  reader = w.reader;
  written =
      w.written
      ∙ (ap (λ l. take b.length (l ++ bytes)) (written-after b buf h)
          ∙ (take-take-append b.length (written_bytes b ++ buf) bytes
              ∙ ap (take b.length) (append_assoc (written_bytes b) buf bytes)));
}

writes-Wrote :
    (b : Buffer) (bufs : List (List ℕ))
    → IsBuffer b
    → Wrote b (written_bytes b ++ joined bufs) (writes b bufs)
writes-Wrote b [] h = record {
  valid = h;
  size = refl;
  reader = refl;
  written =
      (let k = length-take b.write_offset b.payload in
        let r = h.room in
        rw (append-nil (written_bytes b))
          (sym (take_all b.length (written_bytes b) (omega (arith, k, r)))));
}
writes-Wrote b (buf ∷ bufs) h =
    subst (λ r. Wrote b (written_bytes b ++ (buf ++ joined bufs)) (writes r.1 bufs))
      (sym (stream_writer-after b buf h))
      (after-Wrote b buf (joined bufs) _ h
        (writes-Wrote (after b buf (taken b buf)).1 bufs (after-IsBuffer b buf h)))

read_some_lem :
    (b : Buffer) (read : ℕ) → (read_some b read).0 ≡ take read (drop b.read_offset b.payload)
unfolding read_some
read_some_lem b zero = refl
read_some_lem b (suc read) = (let some : (suc read == 0) ≡ false = ground arith in rw some refl)

stream_reader_lem :
    (b : Buffer) (n : ℕ)
    → IsBuffer b
    → b.read_offset ≡ 0
    → n ≤ b.length
    → (stream_reader b n).0 ≡ take n b.payload
unfolding stream_reader
stream_reader_lem b n h z k =
    let all : min (size_sub b.length b.read_offset) n ≡ n =
      (let j = h.small in omega (arith, j, z, k)) in
    elim (Bool-cases (n == 0)) [
      | inl e ↦ rw e (ap (λ i. take i b.payload) {x = 0} (ground (arith, e)))
      | inr e ↦ rw e (
          ap (λ i. (read_some b i).0) all
          ∙ (read_some_lem b n ∙ ap (λ i. take n (drop i b.payload)) z))
    ]

-- Into a buffer from whose start nothing has been written or read, smaller than 2^63 bytes, any pieces
-- are written one after the other; then a read of a length that is neither more than the pieces have
-- together nor more than the buffer has gives that many bytes of the pieces, in their order.
pub stream_reader-writes :
    (b : Buffer) (bufs : List (List ℕ)) (n : ℕ)
    → IsBuffer b
    → b.write_offset ≡ 0
    → b.read_offset ≡ 0
    → n ≤ b.length
    → n ≤ length (joined bufs)
    → (stream_reader (writes b bufs) n).0 ≡ take n (joined bufs)
stream_reader-writes b bufs n h w r k l =
    let x = writes-Wrote b bufs h in
    let b' = writes b bufs in
    let bytes : written_bytes b' ≡ take b.length (joined bufs) =
      x.written ∙ ap (λ i. take b.length (take i b.payload ++ joined bufs)) w in
    let here : n ≤ b'.write_offset =
      (let p = length-take b'.write_offset b'.payload in
        let q = ap length bytes in
        let t = length-take b.length (joined bufs) in omega (arith, p, q, t, k, l)) in
    stream_reader_lem b' n x.valid (x.reader ∙ r) (let s = x.size in omega (arith, s, k))
    ∙ (sym (take-take_le n b'.write_offset b'.payload here)
        ∙ (ap (take n) bytes ∙ take-take_le n b.length (joined bufs) k))
