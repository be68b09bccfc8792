-- ===== src/Kws/Tests.antt =====
-- Runs of the websocket calls, and the theorems about them at concrete connections.
use libks.Kws.Stream.{Waits}
use libks.Kws.Blocking.{Loaded, string_read_blocking_lem}
use libks.Kws.RoundTrip.{Open, Received, read_frame-frame}
use libks.Base.{
  ℕ, ◌≤◌, arith, length, inl, ◌≡◌, refl, true, false, List, [], ◌∷◌, ◌++◌, take, replicate, Run,
  done, abort, fault, store, load, ℤ, pos,
}
use libks.Kws.{took, busy, broken, Kws, Recv, got, in_buffer, string_read, string_read_blocking}
use libks.Kws.Delivery.{Framed, write_frame_lem}
use libks.Kws.Send.{write_frame, send_loop, frame, length_code, masked}
use libks.Kws.Frame.{
  Got, read_frame, read_one, dispatch, read_data, read_payload, ensure, from_big_endian, closing,
  byte_at,
}

abbrev quiet : List Recv → Kws
quiet es = record {
  is_client = false;
  buffer = replicate 40 7;
  bbuffer = replicate 20 7;
  body = 0;
  bbuflen = 20;
  datalen = pos 0;
  payload = 0;
  plen = 0;
  rplen = 0;
  packetlen = 0;
  handshake = true;
  down = false;
  block = true;
  open_sock = true;
  dontmask = true;
  x = 0;
  unprocessed_buffer_len = 0;
  unprocessed_position = 0;
  payload_size_max = 0;
  recvs = es;
  sends = [];
  sent = [];
}

abbrev key : List ℕ
key = 1 ∷ 2 ∷ 3 ∷ 4 ∷ []

abbrev message : List ℕ
message = 72 ∷ 101 ∷ 108 ∷ 108 ∷ 111 ∷ 33 ∷ []

abbrev outcome : Run Got → Run (ℤ × ℕ × List ℕ)
outcome (done g) = done (g.r, g.oc, take 7 g.kws.bbuffer)
outcome abort = abort
outcome fault = fault

-- A masked frame in two pieces.
reads_masked :
    let f = frame false key 1 message in
    outcome (
      read_frame 1
        (quiet (
          got (take 1 f)
          ∷ got (0x86 ∷ key ++ [])
          ∷ got (73 ∷ 103 ∷ 111 ∷ 104 ∷ 110 ∷ 35 ∷ [])
          ∷ []))
        key)
    ≡ done (pos 6, 1, message ++ 0 ∷ [])
unfolding frame length_code masked read_frame read_one dispatch read_data read_payload ensure
    from_big_endian closing byte_at string_read string_read_blocking send_loop store load
reads_masked = refl

-- A frame of fewer than nine bytes with another behind it.
refuses_short :
    let f = frame true key 1 (72 ∷ 105 ∷ []) in
    outcome (read_frame 1 (quiet (got (f ++ f ++ f) ∷ [])) key) ≡ done (pos 0, 8, replicate 7 7)
unfolding frame length_code masked read_frame read_one dispatch read_data read_payload ensure
    from_big_endian closing byte_at string_read string_read_blocking send_loop store load
refuses_short = refl

-- A masked message in two pieces, with a byte of the next frame behind it.
abbrev in_parts : List Recv
in_parts =
    got (129 ∷ 134 ∷ 1 ∷ []) ∷ got (2 ∷ 3 ∷ 4 ∷ 73 ∷ 103 ∷ 111 ∷ 104 ∷ 110 ∷ 35 ∷ 129 ∷ []) ∷ []

in_parts-Waits : Waits (quiet in_parts) (frame false key 1 message ++ 129 ∷ [])
unfolding frame length_code masked
in_parts-Waits = record {
  feeds = (2 ∷ 3 ∷ 4 ∷ 73 ∷ 103 ∷ 111 ∷ 104 ∷ 110 ∷ 35 ∷ 129 ∷ [], refl, ([], refl, refl));
  at_rest = refl;
  nothing_over = refl;
}

long_enough : 9 ≤ length (frame false key 1 message)
unfolding frame length_code masked
long_enough = omega arith

quiet-Open : Open (quiet in_parts) 6
quiet-Open = record {
  up = refl;
  shaken = refl;
  room = omega arith;
  buflen = refl;
  allows = inl refl;
}

read_frame-frame_example : Received (quiet in_parts) key 1 message (129 ∷ [])
read_frame-frame_example =
    read_frame-frame (quiet in_parts) key 1 message (129 ∷ []) quiet-Open refl (omega arith) false
      key refl (omega arith, (omega arith, (omega arith, (omega arith, tt))))
      (omega arith, (omega arith, (omega arith, (omega arith, (omega arith, (omega arith, tt))))))
      in_parts-Waits (inl long_enough)

abbrev some_bytes : List Recv
some_bytes = got (1 ∷ 2 ∷ []) ∷ got (3 ∷ 4 ∷ 5 ∷ []) ∷ []

some_bytes-Waits : Waits (quiet some_bytes) (1 ∷ 2 ∷ 3 ∷ 4 ∷ 5 ∷ [])
some_bytes-Waits = record {
  feeds = (3 ∷ 4 ∷ 5 ∷ [], refl, ([], refl, refl));
  at_rest = refl;
  nothing_over = refl;
}

string_read_blocking_lem_example :
    Loaded
      (quiet some_bytes)
      (in_buffer 3)
      (1 ∷ 2 ∷ 3 ∷ 4 ∷ 5 ∷ [])
      4
      (string_read_blocking (quiet some_bytes) (in_buffer 3) 5 10)
string_read_blocking_lem_example =
    string_read_blocking_lem (quiet some_bytes) (in_buffer 3) (1 ∷ 2 ∷ 3 ∷ 4 ∷ 5 ∷ []) 4
      some_bytes-Waits (omega arith) 10 (omega arith) (omega arith) (omega arith) (omega arith)

-- A socket that takes three bytes, is busy once, and then breaks.
abbrev breaking : Kws
breaking = record (quiet []) { sends = took 3 ∷ busy ∷ broken ∷ []; dontmask = false }

write_frame_lem_example :
    Framed breaking message (frame false key 1 message) (write_frame breaking key 1 message)
write_frame_lem_example = write_frame_lem breaking key 1 message refl
