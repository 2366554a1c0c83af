-- ===== src/Queue.antt =====
-- The queue of buffers of src/io_queue.c, with its lists of buffers that are ready, in progress and done.
-- A buffer is what its pointer points to, and `id` stands for the pointer. Each call runs to its end
-- before the next, as the lock of the queue has it.
pub mod Rollback
pub mod Calls
pub mod Stream
mod Tests
use iot_edge_opc_proxy.Base.{
  ℕ, zero, suc, ◌+◌, min, Bool, true, false, not, List, [], ◌∷◌, ◌++◌, Option, none, some, ◌==◌,
  if◌then◌else◌, length, take, drop,
}
use iot_edge_opc_proxy.Error.{Error}
use iot_edge_opc_proxy.Ring.{size_sub}
use iot_edge_opc_proxy.Dlist.{Dlist}

-- `io_queue_buffer_t`: `cb` is the context of its callback where that is set, `attached` says that its
-- `queue` is not NULL.
pub record Buffer : Type 0 where
  pub id : ℕ
  pub attached : Bool
  pub cb : Option ℕ
  pub length : ℕ
  pub write_offset : ℕ
  pub read_offset : ℕ
  pub payload : List ℕ

-- `io_queue_buffer_stream_writer`, of a buffer that is not NULL: from where it knows how much to write,
-- and the whole of it.
unfoldable pub write_some : Buffer → List ℕ → ℕ → Error × Buffer
write_some b buf write = if write == 0 then (Error.ok, b) else (
  Error.ok,
  record b {
    payload =
        take b.write_offset b.payload
        ++ (take write buf ++ drop (b.write_offset + write) b.payload);
    write_offset = b.write_offset + write;
  },
)

unfoldable pub stream_writer : Buffer → List ℕ → Error × Buffer
unfolding write_some
stream_writer b buf =
    if length buf == 0
    then (Error.ok, b)
    else write_some b buf (min (size_sub b.length b.write_offset) (length buf))

-- `io_queue_buffer_stream_reader`: what is copied.
unfoldable pub read_some : Buffer → ℕ → List ℕ × Buffer
read_some b read =
    if read == 0
    then ([], b)
    else (take read (drop b.read_offset b.payload), record b { read_offset = b.read_offset + read })

unfoldable pub stream_reader : Buffer → ℕ → List ℕ × Buffer
unfolding read_some
stream_reader b len =
    if len == 0 then ([], b) else read_some b (min (size_sub b.length b.read_offset) len)

unfoldable pub stream_readable : Buffer → ℕ
stream_readable b = size_sub b.length b.read_offset

unfoldable pub stream_writeable : Buffer → ℕ
stream_writeable b = size_sub b.length b.write_offset

unfoldable pub stream_reset : Buffer → Buffer
stream_reset b = record b { write_offset = 0; read_offset = 0 }

-- `io_queue_buffer_abort_callback`: the buffer, and the contexts that were called with er_aborted.
unfoldable pub called : Option ℕ → List ℕ
called none = []
called (some context) = context ∷ []

unfoldable pub abort_callback : Buffer → Buffer × List ℕ
abort_callback b = (record b { cb = none }, called b.cb)

pub record Queue : Type 0 where
  pub ready : List Buffer
  pub inprogress : List Buffer
  pub done : List Buffer

-- The lists, as the code passes them.
pub data State : Type 0 where
  in_ready : State
  in_progress : State
  in_done : State

unfoldable pub list_of : Queue → State → List Buffer
list_of q in_ready = q.ready
list_of q in_progress = q.inprogress
list_of q in_done = q.done

unfoldable pub with_list : Queue → State → List Buffer → Queue
with_list q in_ready l = record q { ready = l }
with_list q in_progress l = record q { inprogress = l }
with_list q in_done l = record q { done = l }

-- The place of a buffer in a list.
abbrev pub further : Option ℕ → Option ℕ
further none = none
further (some i) = some (suc i)

unfoldable pub position : ℕ → List Buffer → Option ℕ
position id [] = none
position id (b ∷ bs) = let rest = position id bs in if b.id == id then some 0 else further rest

-- `io_queue_create`, where everything it asks for is there.
unfoldable pub create : Queue
create = record { ready = []; inprogress = []; done = [] }

-- `io_queue_create_buffer`: `fresh` is what the pool gives, and the room behind the header is as it was.
unfoldable pub create_buffer : Option (ℕ × List ℕ) → Option (List ℕ) → ℕ → Error × Option Buffer
unfolding stream_writer
create_buffer none payload len = (Error.out_of_memory, none)
create_buffer (some (id, room)) payload len =
    let b : Buffer = record {
      id = id;
      attached = true;
      cb = none;
      length = len;
      write_offset = 0;
      read_offset = 0;
      payload = room;
    } in
    elim payload [
      | none ↦ (Error.ok, some b)
      | some bytes ↦ (Error.ok, some (stream_writer b (take len bytes)).1)
    ]

module _ (d : Dlist Buffer) where
  -- DList_RemoveEntryList on the link of a buffer, which is in one list at most.
  unfoldable pub take_out : List Buffer → Option ℕ → List Buffer
  take_out l none = l
  take_out l (some i) = d.remove l i

  unfoldable pub without : ℕ → List Buffer → List Buffer
  unfolding take_out position
  without id l = take_out l (position id l)

  unfoldable pub unlink : Queue → ℕ → Queue
  unfolding without
  unlink q id = record {
    ready = without id q.ready;
    inprogress = without id q.inprogress;
    done = without id q.done;
  }

  -- `io_queue_state_push`.
  unfoldable pub state_push : Queue → State → Buffer → Queue
  unfolding unlink list_of with_list
  state_push q s b = let q' = unlink q b.id in with_list q' s (d.insert_tail (list_of q' s) b)

  -- `io_queue_buffer_set_ready`, `_set_inprogress` and `_set_done`, of a buffer that is not NULL.
  unfoldable pub set_state : Queue → State → Buffer → Queue
  unfolding state_push
  set_state q s b = if b.attached then state_push q s b else q

  -- `io_queue_has_ready`, `_has_inprogress` and `_has_done`.
  unfoldable pub has : Queue → State → Bool
  unfolding list_of
  has q s = elim (list_of q s) [ [] ↦ false | _ ∷ _ ↦ true ]

  -- `io_queue_pop_ready`, `_pop_inprogress` and `_pop_done`.
  unfoldable pub pop_list : Queue → State → List Buffer → Option Buffer × Queue
  unfolding with_list
  pop_list q s [] = (none, q)
  pop_list q s (b ∷ bs) = (some b, with_list q s (d.remove (b ∷ bs) 0))

  unfoldable pub pop : Queue → State → Option Buffer × Queue
  unfolding pop_list list_of
  pop q s = pop_list q s (list_of q s)

  -- `io_queue_rollback`.
  unfoldable pub rollback : Queue → Queue
  rollback q = record q { ready = d.put_in_front q.ready q.inprogress; inprogress = [] }

  -- `io_queue_buffer_release`, of a buffer that is not NULL: the queue without it, and the callbacks.
  unfoldable pub buffer_release : Queue → Buffer → Queue × List ℕ
  unfolding unlink abort_callback
  buffer_release q b =
      if b.attached
      then (let (b', first) = abort_callback b in (unlink q b.id, first ++ (abort_callback b').1))
      else (q, [])

  -- The loop of `io_queue_state_release_no_lock`, for at most so many rounds.
  unfoldable pub state_release : ℕ → List Buffer → List Buffer × List ℕ
  unfolding abort_callback
  state_release zero l = (l, [])
  state_release (suc k) [] = ([], [])
  state_release (suc k) (b ∷ bs) =
      let (left, calls) = state_release k (d.remove (b ∷ bs) 0) in
      (left, (abort_callback b).1 ++ calls)

  -- `io_queue_release_all_buffers`.
  unfoldable pub release_all : Queue → Queue × List ℕ
  unfolding state_release
  release_all q =
      let (done, first) = state_release (length q.done) q.done in
      let (inprogress, second) = state_release (length q.inprogress) q.inprogress in
      let (ready, third) = state_release (length q.ready) q.ready in
      (record { ready = ready; inprogress = inprogress; done = done }, first ++ (second ++ third))

-- The loop of `io_queue_state_abort_no_lock`.
unfoldable pub state_abort : List Buffer → List Buffer × List ℕ
unfolding abort_callback
state_abort [] = ([], [])
state_abort (b ∷ bs) =
    let (b', first) = abort_callback b in
    let (bs', others) = state_abort bs in (b' ∷ bs', first ++ others)

-- `io_queue_abort`.
unfoldable pub abort : Queue → Queue × List ℕ
unfolding state_abort
abort q =
    let (done, first) = state_abort q.done in
    let (inprogress, second) = state_abort q.inprogress in
    let (ready, third) = state_abort q.ready in
    (record { ready = ready; inprogress = inprogress; done = done }, first ++ (second ++ third))
