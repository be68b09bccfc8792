-- ===== src/Kws.antt =====
-- src/kws.c: the connection of a websocket, what it reads and writes, and its frames. TLS is left
-- out: `ssl` is NULL. The logical layer is established. What the socket does is a list of answers to
-- the calls of `recv` and `send`.
pub mod Frame
pub mod Send
pub mod Delivery
pub mod Stream
pub mod Uri
pub mod Blocking
pub mod Payload
pub mod Header
pub mod Body
pub mod DataFrame
pub mod OneFrame
pub mod RoundTrip
mod Tests
use libks.Base.{
  ℕ, zero, suc, ◌+◌, ◌-◌, ◌*◌, ◌/◌, ◌%◌, ◌≡◌, ◌^◌, Bool, true, false, not, ◌&&◌, ◌||◌, Option, none,
  some, List, [], ◌∷◌, ◌++◌, length, take, drop, slice, min, ltb, leb, ◌==◌, if◌then◌else◌, Run,
  done, abort, fault, ◌>>=◌, load, store, ℤ, pos, negsuc,
}

-- What `recv` answers: some bytes, none at the end of the stream; an error that is a matter of
-- waiting; or another error.
pub data Recv : Type 0 where
  got : List ℕ → Recv
  would_block : Recv
  failed : Recv

-- What `send` answers: the most bytes that it takes, or one of the two errors.
pub data Sent : Type 0 where
  took : ℕ → Sent
  busy : Sent
  broken : Sent

-- The part of `struct kws_s` that frames use; `body`, `payload` and `unprocessed_position` are
-- indices in `bbuffer`, `buffer` and `buffer`. `sent` is what went out.
pub record Kws : Type 0 where
  pub is_client : Bool
  pub buffer : List ℕ
  pub bbuffer : List ℕ
  pub body : ℕ
  pub bbuflen : ℕ
  pub datalen : ℤ
  pub payload : ℕ
  pub plen : ℕ
  pub rplen : ℕ
  pub packetlen : ℕ
  pub handshake : Bool
  pub down : Bool
  pub block : Bool
  pub open_sock : Bool
  pub dontmask : Bool
  pub x : ℕ
  pub unprocessed_buffer_len : ℕ
  pub unprocessed_position : ℕ
  pub payload_size_max : ℕ
  pub recvs : List Recv
  pub sends : List Sent
  pub sent : List ℕ

-- Where a read puts its bytes.
pub data Dest : Type 0 where
  in_buffer : ℕ → Dest
  in_bbuffer : ℕ → Dest

pub write_at : Kws → Dest → List ℕ → Run Kws
write_at w (in_buffer i) ys = do d ← store w.buffer i ys; done (record w { buffer = d })
write_at w (in_bbuffer i) ys = do d ← store w.bbuffer i ys; done (record w { bbuffer = d })

abbrev pub shift_dest : Dest → ℕ → Dest
shift_dest (in_buffer i) n = in_buffer (i + n)
shift_dest (in_bbuffer i) n = in_bbuffer (i + n)

-- `block / 10`, where `block` is 10000 or 0.
abbrev pub block_n : Bool → ℕ
block_n block = if block then 1000 else 0

-- The result of a read: its value, the bytes, the answers that are left and `kws->x`.
pub record Read : Type 0 where
  pub r : ℤ
  pub bytes : List ℕ
  pub recvs : List Recv
  pub x : ℕ

-- A number converted to `int`.
pub int_of : ℕ → ℤ
int_of n = if ltb (n % 2 ^ 32) (2 ^ 31) then pos (n % 2 ^ 32) else negsuc (2 ^ 32 - n % 2 ^ 32 - 1)

-- Linux gives and takes no more in one call.
abbrev pub max_transfer : ℕ
max_transfer = 0x7ffff000

-- What `recv` and `send` are asked for with a length of `(int)bytes`, which is a `size_t` again there,
-- and of which they serve `max_transfer` at most.
pub asked : ℕ → ℕ
asked n = if ltb (n % 2 ^ 32) (2 ^ 31) then min (n % 2 ^ 32) max_transfer else max_transfer

-- The loop around `recv` in `kws_raw_read`, for `n` bytes. A stream that has no more answers fails.
pub recv_loop : List Recv → ℕ → Bool → ℕ → Read
recv_loop [] n block x = record {
  r = negsuc 0;
  bytes = [];
  recvs = [];
  x = if block then x + 1 else x;
}
recv_loop (failed ∷ es) n block x = record {
  r = negsuc 0;
  bytes = [];
  recvs = es;
  x = if block then x + 1 else x;
}
recv_loop (got ys ∷ es) n block x =
    if leb (length ys) n
    then record { r = pos (length ys); bytes = ys; recvs = es; x = x }
    else record { r = pos n; bytes = take n ys; recvs = got (drop n ys) ∷ es; x = x }
recv_loop (would_block ∷ es) n block x =
    let again = recv_loop es n block (x + 1) in
    if not block
    then record { r = negsuc 1; bytes = []; recvs = es; x = x }
    else (if ltb (x + 1) (block_n block)
        then again
        else record { r = negsuc 0; bytes = []; recvs = es; x = x + 1 })

-- What `kws_raw_read` does after its loop.
pub settle : ℕ → Bool → Read → Read
settle n block a =
    let r = if leb 10000 a.x || (block && leb (block_n block) a.x) then negsuc 0 else a.r in
    record a { r = r; x = elim r [ pos k ↦ 0 | negsuc k ↦ a.x ] }

abbrev pub terminator : ℤ → ℕ → List ℕ
terminator (pos zero) n = []
terminator (pos (suc k)) n = if ltb (suc k) n then 0 ∷ [] else []
terminator (negsuc k) n = []

-- What was read put in its place, with the NUL behind it.
pub store_read : Kws → Dest → ℕ → Read → Run (ℤ × Kws)
unfolding write_at
store_read w dest n a = do
  w' ← write_at w dest (a.bytes ++ terminator a.r n)
  done (a.r, record w' { recvs = a.recvs; x = a.x })

-- `kws_raw_read` with no bytes left over in the buffer.
pub read_socket : Kws → Dest → ℕ → Bool → Run (ℤ × Kws)
unfolding store_read recv_loop settle asked
read_socket w dest n block =
    store_read w dest n (settle n block (recv_loop w.recvs (asked n) block (w.x + 1)))

pub read_left_over : Kws → Dest → ℕ → Run (ℤ × Kws)
unfolding write_at
read_left_over w dest n =
    if ltb n w.unprocessed_buffer_len
    then (do
      ys ← load w.buffer w.unprocessed_position n
      w' ← write_at w dest ys
      done (
        pos n,
        record w' {
          unprocessed_position = w.unprocessed_position + n;
          unprocessed_buffer_len = w.unprocessed_buffer_len - n;
        },
      ))
    else (do
      ys ← load w.buffer w.unprocessed_position w.unprocessed_buffer_len
      w' ← write_at w dest ys
      done (
        pos w.unprocessed_buffer_len,
        record w' { unprocessed_position = 0; unprocessed_buffer_len = 0 },
      ))

pub raw_read : Kws → Dest → ℕ → Bool → Run (ℤ × Kws)
unfolding read_socket read_left_over
raw_read w dest n block =
    if ltb 0 w.unprocessed_buffer_len then read_left_over w dest n else read_socket w dest n block

-- `kws_string_read`
pub string_read : Kws → Dest → ℕ → Bool → Run (ℤ × Kws)
unfolding raw_read write_at
string_read w dest size block = if ltb size 1 then done (negsuc 0, w) else (do
  w' ← write_at w (shift_dest dest (size - 1)) (0 ∷ [])
  if ltb size 2 then done (pos 0, w') else raw_read w' dest (size - 1) block)

-- `int bytes_read = kws_raw_read(…)`, whose errors are -1 and -2.
pub as_int : ℤ → ℤ
unfolding int_of
as_int (pos k) = int_of k
as_int (negsuc k) = negsuc k

-- `kws_raw_read_blocking`. A round takes a byte or counts a retry, so the fuel is enough.
pub raw_read_loop : ℕ → Kws → Dest → ℕ → ℕ → ℕ → ℕ → Run (ℕ × Kws)
unfolding raw_read int_of as_int
raw_read_loop zero w dest total max_bytes zero_reads max_retries = fault
raw_read_loop (suc f) w dest total max_bytes zero_reads max_retries =
    if ltb total max_bytes && ltb zero_reads max_retries
    then (do
      (r, w') ← raw_read w (shift_dest dest total) (max_bytes - total) true
      elim (as_int r) [
        | negsuc k ↦ done (total, w')
        | pos k ↦ elim k [
          | zero ↦ raw_read_loop f w' dest total max_bytes (zero_reads + 1) max_retries
          | suc j ↦ raw_read_loop f w' dest (total + suc j) max_bytes 0 max_retries
        ]
      ])
    else done (total, w)

abbrev pub rounds : ℕ → ℕ → ℕ
rounds max_bytes max_retries = max_bytes * (max_retries + 1) + max_retries + 1

-- `kws_string_read_blocking`
pub string_read_blocking : Kws → Dest → ℕ → ℕ → Run (ℤ × Kws)
unfolding raw_read_loop write_at
string_read_blocking w dest size max_retries = if ltb size 1 then done (negsuc 0, w) else (do
  w' ← write_at w (shift_dest dest (size - 1)) (0 ∷ [])
  if ltb size 2 then done (pos 0, w') else (do
    (n, w2) ← raw_read_loop (rounds (size - 1) max_retries) w' dest 0 (size - 1) 0 max_retries
    done (pos n, w2)))
