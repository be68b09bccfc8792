-- ===== src/Lib.antt =====
-- libks, the SignalWire support library in C: its data structures and codecs, modelled and verified.
--
-- The library is a set of components that an application calls and that call one another: a byte
-- buffer and a blocking queue between threads, codecs for text, and the pools, locks and sockets
-- under them. What is modelled, and where:
--
-- * `Buffer` is src/ks_buffer.c. The record `Buffer` is `struct ks_buffer`: `block` is the memory
--   behind `data`, `head` an index in it. `create`, `len`, `freespace`, `inuse`, `seek`, `toss`,
--   `set_loops`, `read`, `read_loop`, `write`, `zero_out` (`ks_buffer_zero`) and `zwrite` are the
--   calls, and `Buffer.Packet` has `packet_count` and `read_packet`. `Buffer.Valid` has the
--   invariant and the reading calls, `Buffer.Write` the writing call below the limit,
--   `Buffer.Limit` what it does above, `Buffer.Refine` sequences of calls.
-- * `Queue` is src/ks_q.c. The record `Queue` is `struct ks_q_s` with the memory of its nodes.
--   `try_push`, `try_pop`, `try_peek`, `flush`, `term`, `destroy` are the calls that do not wait.
--   `ks_q_push` is `push` up to its wait on a condition and `push_woken` from there on, and
--   `ks_q_pop_timeout` likewise `pop` and `pop_woken`. `ks_q_flush` takes the mutex once for each item;
--   what happens to the queue in between is a parameter of `flush`. `Queue.Cells` and `Queue.Shape` read the
--   nodes as a list, `Queue.Spec` has the abstract queue and the calls against it, and
--   `Queue.Spec.Threads` the interleavings of threads.
-- * `Base64` is src/ks_base64.c, `ks_b64_encode` and `ks_b64_decode`, with the encoding by
--   groups in `Base64.Encode`, the standard one in `Base64.Standard`, the round trip in
--   `Base64.RoundTrip` and the short outputs in `Base64.Bounds`.
-- * `Hash` is src/ks_hash.c. The record `Hash` is `struct ks_hash` with each chain as a list of
--   `Entry`; `create` (`ks_hash_create_ex`), `expand`, `insert` (`ks_hash_insert_ex`), `remove`
--   (`_ks_hash_remove`) and `search` are the calls. `Hash.View` has what a table holds for a key,
--   `Hash.Expand` and `Hash.Count` growth, `Hash.Remove`, `Hash.Insert` and `Hash.Create` the calls,
--   and `Hash.Map` the table as a map. `Hash.Iterate` is the iterator, with the walk over a table in
--   `Hash.Iterate.Visit`. The lock itself is left out; the count of its readers is there.
-- * `Pool` is src/ks_pool.c. The record `Pool` is `struct ks_pool_s` with the memory that its pointers
--   lead to, and `Block` is `struct ks_pool_prefix_s` with the bytes and the fence behind it.
--   `alloc_mem` and `free_mem` have the names of the code; `Pool.Calls` has the calls that an
--   application makes, less their prefix `ks_pool_`. `Pool.Links` reads the list of blocks off the
--   memory, `Pool.Unlink` takes one out, and `Pool.Holds` is the invariant; `Pool.Allocate`,
--   `Pool.Free`, `Pool.Clear` and `Pool.Resize` have the calls.
-- * `Kws` is src/kws.c without TLS: `Kws` is `struct kws_s`, with what `recv` and `send` will answer.
--   It has the reads (`raw_read`, `string_read`, `string_read_blocking`), `Kws.Send` the writes
--   (`raw_write`, `write_frame`, `close`; `Kws.Delivery` has what is sent) and `Kws.Frame` is
--   `kws_read_frame`, cut at its labels and loops. `Kws.Stream` and `Kws.Blocking` read a stream that
--   comes in pieces, `Kws.Header`, `Kws.Payload`, `Kws.Body`, `Kws.DataFrame` and `Kws.OneFrame` the
--   parts of a frame, and `Kws.RoundTrip` joins both directions.
-- * `Sb` is src/ks_sb.c. The record `Sb` is `struct ks_sb_s` with its block; `create`, `accommodate`,
--   `sb_append`, `append_ex`, `printf` and `sb_length` are the calls, over the blocks and the printing
--   calls of `Sb.Memory`. `Sb.Outcome` is how calls end, `Sb.Append` has one string, `Sb.Build` a
--   builder from its creation on, and `Sb.Print` what is printed.
-- * `Rwl` is the reader-writer lock of src/ks_mutex.c. The record `Rwl` is `struct ks_rwl`, over the
--   lock of POSIX, a parameter that `Rwl.Posix` describes. `read_lock`, `try_read_lock`,
--   `write_lock`, `try_write_lock`, `read_unlock` and `write_unlock` are the calls, and `Rwl.System`
--   has the steps of several threads, between which a write lock is taken or given back. The
--   invariant is in `Rwl.Invariant`, the steps in `Rwl.Calls` and `Rwl.Safety`, `Rwl.Release` and
--   `Rwl.Progress` have what a waiting thread gets, and `Rwl.Owner` a read lock of a writer.
-- * `Strings` has the calls of src/ks_string.c that cut and encode strings: `Strings.Separate` is
--   `ks_separate_string` (`separate_string`) with its two loops, `Strings.Url` is `ks_url_encode` and
--   `ks_url_decode`. `Kws.Uri` is what kws.c makes of a request with them, `clean_uri` and
--   `kws_parse_qs`, with `Kws.Uri.Clean` for the path and `Kws.Uri.Query` for the query.
-- `Base` holds the shared names and lemmas, and `Alloc` what the C allocator is taken to do.
--
-- Memory is a list of bytes; an access outside of a block is the value `fault`, and the end of the
-- process, in a failed assertion or by the SIGINT of `ks_debug_break`, is `abort` (`Run`). Sizes wrap at 2 ^ 64 where the code adds or subtracts them. A pointer that may
-- be NULL is an `Option`. The lengths that kws.c
-- passes to `recv` and `send` are converted to `int` first, and Linux serves at most 0x7ffff000 bytes
-- of them. Allocators, clocks and callbacks are parameters or lists of what they were given; a
-- clean-up callback of a pool does not call the pool, and no handler of SIGINT is installed. Loops with a bound recur on fuel: the bytes left in `find_packet` and `count_from`, the
-- bits left in `emit` and `emit_byte`, the items left in `flush_loop`, the blocks of a pool in
-- `pass` and `free_from`, the bytes asked for in `raw_read_loop` and `fill`, the 200 rounds of
-- `send_loop`, and the frames of a message in `read_frames`.
--
-- Not modelled: the handshakes of kws.c and the headers of its requests; the mutex and the condition
-- variable of ks_mutex.c, its branches for Windows and for KS_DEBUG_MUTEX; the other calls of
-- ks_string.c, and `ks_sb_json`; access lists, thread pool, configuration files and HEP packets;
-- sockets, TLS, threads, logging and start-up, which only call the operating system or OpenSSL; the
-- copies of cJSON, SimCList, the printf of SQLite and the UTF-8 routines; and `ks_q_cleanup`,
-- `ks_buffer_destroy` and `ks_sb_destroy`, which only release memory.
pub mod Base
pub mod Alloc
pub mod Buffer
pub mod Base64
pub mod Pool
pub mod Queue
pub mod Hash
pub mod Sb
pub mod Rwl
pub mod Strings
pub mod Kws
