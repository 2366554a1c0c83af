-- ===== src/Ring.antt =====
-- src/util_ringbuf.c, the byte ring between the two sides of a web socket. A pointer into the
-- allocation is its offset from `start`, so `start` is 0. Pointer and `size_t` differences wrap at
-- 2 ^ 64, as `size_sub` does. Each function that updates `*rb` returns the new ring.
pub mod Valid
pub mod Write
pub mod Read
pub mod Fifo
mod Tests
use Prim.Native.Nat.{◌%◌}
use iot_edge_opc_proxy.Base.{
  ℕ, ◌+◌, ◌-◌, ◌^◌, Bool, ◌&&◌, List, [], ◌++◌, ltb, leb, ◌==◌, if◌then◌else◌, take, drop, length,
  replicate,
}

-- `struct ring_buffer`: the bytes allocated at `start`, and the other three pointers.
pub record Ring : Type 0 where
  pub mem : List ℕ
  pub end : ℕ
  pub read_pos : ℕ
  pub write_pos : ℕ

-- `a - b` on `size_t`.
abbrev pub size_sub : ℕ → ℕ → ℕ
size_sub a b = (a + 2 ^ 64 - b) % 2 ^ 64

-- `a + b` on `size_t`.
abbrev pub size_add : ℕ → ℕ → ℕ
size_add a b = (a + b) % 2 ^ 64

-- `memcpy(&m[i], bs, len)`, with the `len` bytes `bs` (`Valid.room` keeps it inside `m`).
abbrev pub store : List ℕ → ℕ → List ℕ → List ℕ
store m i bs = take i m ++ (bs ++ drop (i + length bs) m)

-- `memcpy(buf, &m[i], len)`: the `len` bytes read.
abbrev pub load : List ℕ → ℕ → ℕ → List ℕ
load m i len = take len (drop i m)

-- The ring that a successful `ring_buffer_create` hands out; `mem_zalloc` clears the bytes.
pub create : ℕ → Ring
create size = record { mem = replicate (size + 1) 0; end = size + 1; read_pos = 0; write_pos = 0 }

-- What a copying pass leaves: the ring, the bytes still to go, and those gone by.
pub record Pass : Type 0 where
  pub ring : Ring
  pub len : ℕ
  pub gone : ℕ

-- The two limits of the first pass of `ring_buffer_write`: how much fits, and how much is asked.
write_avail : Ring → ℕ
write_avail r =
    let avail = size_sub r.end r.write_pos in if r.read_pos == 0 then size_sub avail 1 else avail

write_len : Ring → ℕ → ℕ
unfolding write_avail
write_len r len = if r.read_pos == 0 && ltb (write_avail r) len then write_avail r else len

-- The first pass: from the write pointer up to the end, if the writer is not behind the reader.
write_ahead : Ring → List ℕ → ℕ → Pass
unfolding write_avail write_len
write_ahead r buf len =
    let asked = write_len r len in
    let avail = if ltb asked (write_avail r) then asked else write_avail r in
    let w = r.write_pos + avail in
    record {
      ring = record r {
        mem = store r.mem r.write_pos (take avail buf);
        write_pos = if w == r.end then 0 else w;
      };
      len = size_sub asked avail;
      gone = avail;
    }

-- The second pass: from the write pointer up to one before the reader.
write_behind : Pass → List ℕ → Ring × ℕ
write_behind p buf =
    let room = size_sub (size_sub p.ring.read_pos p.ring.write_pos) 1 in
    let avail = if ltb p.len room then p.len else room in
    (
      record (p.ring) {
        mem = store p.ring.mem p.ring.write_pos (take avail (drop p.gone buf));
        write_pos = p.ring.write_pos + avail;
      },
      size_add p.gone avail,
    )

pub write : Ring → List ℕ → ℕ → Ring × ℕ
unfolding write_ahead write_behind
write r buf len =
    let first =
      if leb r.read_pos r.write_pos
      then write_ahead r buf len
      else record { ring = r; len = len; gone = 0 } in
    if ltb 0 first.len then write_behind first buf else (first.ring, first.gone)

-- The first pass of `ring_buffer_read`: from the read pointer up to the end, if it is ahead of the
-- writer. The bytes are those copied to `buf`.
read_ahead : Ring → ℕ → Pass × List ℕ
read_ahead r len =
    let room = size_sub r.end r.read_pos in
    let avail = if ltb len room then len else room in
    let p = r.read_pos + avail in
    (
      record {
        ring = record r { read_pos = if p == r.end then 0 else p };
        len = size_sub len avail;
        gone = avail;
      },
      load r.mem r.read_pos avail,
    )

-- The second pass: from the read pointer up to the writer.
read_behind : Pass → List ℕ → Ring × List ℕ × ℕ
read_behind p out =
    let room = size_sub p.ring.write_pos p.ring.read_pos in
    let avail = if ltb p.len room then p.len else room in
    (
      record (p.ring) { read_pos = p.ring.read_pos + avail },
      out ++ load p.ring.mem p.ring.read_pos avail,
      size_add p.gone avail,
    )

-- The ring, the bytes in `buf`, and the number returned.
pub read : Ring → ℕ → Ring × List ℕ × ℕ
unfolding read_ahead read_behind
read r len =
    let first =
      if ltb r.write_pos r.read_pos
      then read_ahead r len
      else (record { ring = r; len = len; gone = 0 }, []) in
    if ltb 0 first.0.len then read_behind first.0 first.1 else (first.0.ring, first.1, first.0.gone)

pub is_empty : Ring → Bool
is_empty r = r.write_pos == r.read_pos

pub clear : Ring → Ring
clear r = record r { read_pos = 0; write_pos = 0 }

pub capacity : Ring → ℕ
capacity r =
    if leb r.read_pos r.write_pos
    then size_sub (size_add (size_sub r.end r.write_pos) r.read_pos) 1
    else size_sub (size_sub r.read_pos r.write_pos) 1

pub available : Ring → ℕ
available r =
    if ltb r.write_pos r.read_pos
    then size_add (size_sub r.end r.read_pos) r.write_pos
    else size_sub r.write_pos r.read_pos
