-- ===== src/Queue/Tests.antt =====
-- A queue of three buffers, two of which are ready.
use iot_edge_opc_proxy.Base.{ℕ, ◌+◌, ◌≡◌, refl, arith, true, [], ◌∷◌, some}
use iot_edge_opc_proxy.Dlist.{plain, plain-IsDlist}
use iot_edge_opc_proxy.Queue.{Buffer, Queue, stream_reader, called, rollback, release_all, abort}
use iot_edge_opc_proxy.Queue.Rollback.{Apart, start, rollback-start}
use iot_edge_opc_proxy.Queue.Calls.{release_all-abort}
use iot_edge_opc_proxy.Queue.Stream.{IsBuffer, writes, stream_reader-writes}

abbrev buffer : ℕ → Buffer
buffer id = record {
  id = id;
  attached = true;
  cb = some (100 + id);
  length = 4;
  write_offset = 0;
  read_offset = 0;
  payload = 9 ∷ 9 ∷ 9 ∷ 9 ∷ [];
}

abbrev three : Queue
three = record { ready = buffer 1 ∷ buffer 2 ∷ []; inprogress = buffer 3 ∷ []; done = [] }

three-Apart : Apart three.ready three.inprogress three.done
three-Apart =
    ((refl, (omega arith, tt), (omega arith, tt), tt), ((refl, tt, (omega arith, tt), tt), tt))

rollback-start_example :
    rollback (plain Buffer) (start (plain Buffer) 2 three)
    ≡ record { ready = buffer 3 ∷ buffer 1 ∷ buffer 2 ∷ []; inprogress = []; done = [] }
rollback-start_example = rollback-start (plain Buffer) (plain-IsDlist Buffer) 2 three three-Apart

release_all-abort_example :
    (release_all (plain Buffer) three
      ≡ (record { ready = []; inprogress = []; done = [] }, 103 ∷ 101 ∷ 102 ∷ []))
    × ((abort three).1 ≡ 103 ∷ 101 ∷ 102 ∷ [])
    × (release_all (plain Buffer) (abort three).0
        ≡ (record { ready = []; inprogress = []; done = [] }, []))
unfolding called
release_all-abort_example = release_all-abort (plain Buffer) (plain-IsDlist Buffer) three

buffer-IsBuffer : IsBuffer (buffer 1)
buffer-IsBuffer = record { room = refl; inside = omega arith; small = omega arith }

stream_reader-writes_example :
    (stream_reader (writes (buffer 1) ((1 ∷ 2 ∷ 3 ∷ []) ∷ (4 ∷ 5 ∷ []) ∷ [])) 4).0
    ≡ 1 ∷ 2 ∷ 3 ∷ 4 ∷ []
stream_reader-writes_example =
    stream_reader-writes (buffer 1) ((1 ∷ 2 ∷ 3 ∷ []) ∷ (4 ∷ 5 ∷ []) ∷ []) 4 buffer-IsBuffer refl
      refl (omega arith) (omega arith)
