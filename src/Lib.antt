-- ===== src/Lib.antt =====
-- A verification library for the C core of the proxy (src/ of the repository, with inc/).
--
-- The proxy runs as a module beside an IoT gateway. Its C core is made of utilities (strings,
-- buffers, rings, a task scheduler), of transports that carry protocol messages, and of a server
-- that opens sockets on behalf of remote clients. The development models the utilities on which the
-- rest stands, the messages with their codec, and the server. A C function becomes a function from the
-- old state to the new state and the result, with the guards of the code in the order of the code.
--
-- Base (Base/Tests, Base/Lists, Base/Int): names, tests, lists and integers that the files share.
--
-- Error: inc/prx_err.h and src/prx_err.c. The enumerators and the text of each. Error/Names is about
-- the texts.
--
-- Ring: src/util_ringbuf.c. The record `Ring` is `struct ring_buffer`; pointers are offsets from
-- `start`. `create`, `write`, `read`, `is_empty`, `clear`, `capacity` and `available` are the
-- functions `ring_buffer_*`; the two passes of a write and of a read are functions of their own.
-- `size_t` differences wrap at 2 ^ 64, and the invariant `IsValid` bounds the storage by 2 ^ 63
-- bytes, as an object in memory is. Ring/Valid has the invariant and the contents of a ring,
-- Ring/Write and Ring/Read what the two operations do, Ring/Fifo the queue that clients see. Each
-- operation runs to its end before the next: a writer and a reader at once are not modelled.
--
-- Text: src/util_string.c, over lists of the bytes before the closing 0. Text/Hex is
-- `string_from_buf` and `string_to_buf`, Text/Uuid `string_from_uuid` and `string_to_uuid`, Text/Find
-- the comparisons and searches, Text/KeyValue `string_key_value_parser` with the visitor as a
-- function on a state of the caller, Text/Trim the trimming functions, Text/Utf8
-- `STRING_construct_utf8`, Text/Remove `string_remove_nocase` on the memory of its string,
-- Text/ServiceName `string_copy_service_full_name`. The loops
-- recur on the characters or bytes left; the rounds of the key/value parser run on fuel, one more
-- than there are characters, with a theorem that this is enough. `strncmp`, `strncasecmp` and
-- `memmove` are those of the C standard, the former in the "C" locale.
--
-- Dlist: the doubly linked lists of azure_c_shared_utility, which is not in the repository. The
-- operations are a record that its users take as a parameter, with their documented effect on the
-- sequence of entries as the record of laws `IsDlist`.
--
-- Sched: src/prx_sched.c. The record `Scheduler` has the two queues, the flag of the worker, the
-- references, and the entries that went back to the task pool; `Task` is `prx_task_entry_t` with its
-- pointer. `queue`, `kill`, `clear`, `get_next` and `release` are the functions `prx_scheduler_*`,
-- `work` a round of `prx_scheduler_work` up to the call of the handler and `finish` what follows it.
-- The clock and the pool's entry are arguments. Each call runs to its end before the next, as the
-- scheduler's lock has it, and the scheduler is never NULL. Sched/Order has the place of a new task,
-- Sched/Next the choice of the next one, Sched/Removal and Sched/Kill what leaves the queues,
-- Sched/Reach the sequences of calls. `create` is `prx_scheduler_create`, with what the creations of
-- its parts return. The thread, the lock and the idle wait are not modelled.
--
-- Pool: src/prx_buffer.c. The record `Pool` is `prx_buffer_pool_t`, with the blocks of
-- `prx_fixed_pool_t`; `Config` has the numbers of `prx_pool_config_t` (inc/prx_buffer.h). `create` is
-- `prx_dynamic_pool_create` and `prx_fixed_pool_create`, `grow` the two growths, `alloc_buffer`,
-- `free_buffer` and `set_size` are `prx_buffer_pool_alloc_buffer`, `prx_buffer_pool_free_buffer` and
-- `prx_dynamic_buffer_set_size` (the fixed one refuses). What the allocators return is an argument;
-- a call of the owner's callback is a result. The differences of `size_t` wrap at 2 ^ 64; the counts,
-- of buffers in memory, stay far below. A buffer is released only while it is checked out.
-- Pool/Valid and Pool/Run have the invariant, Pool/Alloc which buffer goes out, Pool/Signal and
-- Pool/Stuck the callbacks, Pool/Free `prx_buffer_new` and the release of a dynamic pool (without
-- DBG_MEM). The release of a fixed pool is not modelled.
--
-- Queue: src/io_queue.c. The record `Queue` has the three lists of `struct io_queue`, `Buffer` is
-- `io_queue_buffer_t` with its pointer and its payload; the client that has a buffer hands it over as it
-- is. `pop`, `set_state` and `has` are the functions of each list, `rollback`, `abort`, `release_all`,
-- `buffer_release` and `create_buffer` those of the same names; the callbacks that a call makes are a
-- result. The loop of a release recurs on the length of its list.
-- Queue/Rollback has the order of what is rolled back, Queue/Calls the callbacks, Queue/Stream a buffer
-- as a stream. A callback that changes the queue while it runs is not modelled, nor are the pool and the
-- lock behind a queue.
--
-- Wire: the protocol messages as bytes. A call that encodes takes the context (the bytes in the stream
-- and the number of members to go) to the next one, a call that decodes gives a value as well; both
-- give the result code instead where the code returns it. `>>>` and `>>=` are the chains of
-- `if (result != er_ok) return result;`. A decoder stores into a message that is all 0, which is what
-- `io_message_create_empty` gives.
-- Wire/Cmp: the message pack library cmp, which is not in the repository. Its calls are a record that
-- the codec takes as a parameter, with the format that it documents as the record of laws `IsCmp`: each
-- value has its bytes, which the writers append and the readers take off. It speaks of streams that take
-- what is written; what cmp reports of others is one of its outcomes.
-- Wire/Codec: the message pack half of src/io_codec.c, its strings in Wire/Codec/Strings. Wire/Fields:
-- the inline functions and macros of inc/io_codec.h. The memory of a context is a parameter: its allocator,
-- and what is read of the first of two buffers of a message after the second was allocated.
-- Wire/Chain, Wire/Parts, Wire/Object: members, and types as objects, that are read as they were written,
-- and their chains.
-- Wire/Address, Wire/Info, Wire/Property, Wire/Socket: the types of inc/prx_types.h with their codecs in
-- src/io_types.c. A union is the member that was stored last. Wire/Ref: the references of src/io_ref.c.
-- Wire/Payload, Wire/Content, Wire/Message: the messages of inc/io_proto.h with their codecs in
-- src/io_proto.c, and the handlers of a web socket connection in src/io_transport.c that send and
-- receive one. Wire/Message/Version is about the version that a message carries, Wire/Message/Response
-- about responses, those that src/prx_server.c makes of requests that it cannot serve among them.
-- The codec for JSON, floating-point numbers, how a message allocates and frees its buffers, and the
-- assertions of the debug build are not modelled.
--
-- Server: src/prx_server.c, the part of the proxy that opens sockets for remote clients. `Socket` is
-- `prx_server_socket_t` with its four queues of messages, `State` the states that the worker acts on.
-- A function takes the socket and the `World` and gives both back: what the connections will answer to
-- each send, the log of what was sent, and what others were asked to do (tasks to run, calls of the
-- platform without a result). What a call of the platform, of the transports or of an allocator returns is
-- an argument, one record for each handler. All tasks of a socket are on one scheduler, so each runs to
-- its end before the next; times are natural numbers below 2 ^ 63.
-- Server/Deliver: `prx_server_socket_deliver_results` and `prx_server_socket_manage_read_queue`. The two
-- loops of a delivery run for at most as many rounds as their queue is long, and each round takes a
-- message off it or is the last. Server/Deliver/Conserved, Polled, Polls and Kept are about them.
-- Server/Requests: the messages that a socket takes, with Server/Requests/Opening for
-- `prx_server_socket_handle_openrequest` and Server/Requests/Options for the socket options; Answered is
-- about their responses, Open about the states. Server/Transfer: the begin and end of sends and receives,
-- which the platform calls; Server/Transfer/Sends is about sends.
-- Server/Worker: what a round of `prx_server_worker` does with one socket, `visit`, and the ends of
-- opening and closing. A round goes through a hash table that is not in the repository, and need not reach
-- each socket: it may pass over the one that follows a removed one. So Server/Worker/Progress is about the
-- visits to one socket, however many rounds they take. Server/Worker/Diagram has the state diagram as a
-- relation. Server/Worker/Lifecycle composes the operations above into sequences of events of a socket, in
-- any order; the begin of a receive, which changes no queue, and the accept events are not among them.
-- Server/Table: the table of sockets as a list, `prx_server_handle_linkrequest`, and the choice of a
-- socket by `prx_server_handler`; Server/Table/Links is about links. Server/Ports and Text/RangeList: the
-- restricted ports and `string_parse_range_list`, with `strtol` as a parameter; its passes run on fuel, one
-- more than there are characters, which is enough.
-- Of the server, the iteration of the hash table, accepted sockets, flow control, ping requests and
-- the making and freeing of sockets' parts are not modelled.
pub mod Base
pub mod Error
pub mod Dlist
pub mod Ring
pub mod Sched
pub mod Pool
pub mod Queue
pub mod Text
pub mod Wire
pub mod Server
