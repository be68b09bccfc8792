-- ===== src/Kws/Send.antt =====
-- What kws.c writes: `kws_raw_write`, `kws_write_frame` and `kws_close`. The masking key that
-- `gen_nonce` makes is an argument.
use Prim.Native.Nat.{bit_xor}
use libks.Base.{
  ℕ, zero, suc, ◌+◌, ◌/◌, ◌%◌, ◌^◌, Bool, true, false, ◌&&◌, List, [], ◌∷◌, ◌++◌, length, take,
  drop, min, ltb, ◌==◌, if◌then◌else◌, get_or, ℤ, pos, negsuc,
}
use libks.Kws.{Kws, Sent, took, busy, broken, asked}

-- The loop of `kws_raw_write` around `send`, with `sanity` rounds: its last value, how much was
-- written in all, and the connection. A socket that has no more answers is broken.
unfoldable pub send_loop : ℕ → Kws → List Sent → List ℕ → ℕ → ℤ × ℕ × Kws
unfolding asked
send_loop zero w sends rest wrote = (negsuc 0, wrote, record w { sends = sends })
send_loop (suc sanity) w [] rest wrote = (negsuc 0, wrote, record w { sends = [] })
send_loop (suc sanity) w (broken ∷ sends) rest wrote = (negsuc 0, wrote, record w { sends = sends })
send_loop (suc sanity) w (busy ∷ sends) rest wrote =
    let again = send_loop sanity w sends rest wrote in
    if ltb 0 sanity && ltb 0 (length rest)
    then again
    else (negsuc 0, wrote, record w { sends = sends })
send_loop (suc sanity) w (took k ∷ sends) rest wrote =
    let m = min k (asked (length rest)) in
    let w' = record w { sent = w.sent ++ take m rest } in
    let again = send_loop sanity w' sends (drop m rest) (wrote + m) in
    if ltb 0 sanity && ltb m (length rest)
    then again
    else (pos m, wrote + m, record w' { sends = sends })

-- `kws_raw_write`
unfoldable pub raw_write : Kws → List ℕ → ℤ × Kws
raw_write w bytes =
    let (r, wrote, w') = send_loop 200 w w.sends bytes 0 in
    (elim r [ pos k ↦ pos wrote | negsuc k ↦ negsuc k ], w')

-- Each byte against the key, which is read from its index `i` on and over again.
unfoldable pub masked : List ℕ → ℕ → List ℕ → List ℕ
masked key i [] = []
masked key i (x ∷ xs) = bit_xor x (get_or key (i % 4) 0) ∷ masked key (i + 1) xs

-- `n` bytes of a number, the most significant first.
unfoldable pub big_endian : ℕ → ℕ → List ℕ
big_endian zero v = []
big_endian (suc n) v = (v / 256 ^ n % 256) ∷ big_endian n v

-- The bytes of a length, the first of them without the bit for a mask.
unfoldable pub length_code : ℕ → ℕ × List ℕ
unfolding big_endian
length_code bytes =
    if ltb bytes 126
    then (bytes, [])
    else (if ltb bytes 0x10000 then (126, big_endian 2 bytes) else (127, big_endian 8 bytes))

-- The frame that `kws_write_frame` builds: final, with the opcode and the length of the data, and
-- the data behind the key where they are masked.
unfoldable pub frame : Bool → List ℕ → ℕ → List ℕ → List ℕ
frame dontmask key oc bytes =
    let (l, more) = length_code (length bytes) in
    if dontmask
    then (oc + 0x80) ∷ l ∷ more ++ bytes
    else (oc + 0x80) ∷ (l + 0x80) ∷ more ++ (key ++ masked key 0 bytes)

-- `kws_write_frame`. What is written is the frame, and the number of data bytes is returned where all
-- of it went out.
unfoldable pub write_frame : Kws → List ℕ → ℕ → List ℕ → ℤ × Kws
write_frame w key oc bytes =
    let f = frame w.dontmask key oc bytes in
    let (r, w') = raw_write w f in
    if w.down then (negsuc 0, w) else (
      (elim r [
        | negsuc k ↦ negsuc k
        | pos n ↦ if n == length f && ltb 0 n then pos (length bytes) else pos n
      ]),
      w',
    )

-- The frame of `kws_close`: the reason in two bytes.
unfoldable pub close_frame : Bool → List ℕ → ℕ → List ℕ
unfolding masked big_endian
close_frame is_client key reason =
    if is_client
    then 0x88 ∷ 0x82 ∷ key ++ masked key 0 (big_endian 2 reason)
    else 0x88 ∷ 2 ∷ big_endian 2 reason

-- The reason of a close, negated.
abbrev pub minus : ℕ → ℤ
minus zero = pos 0
minus (suc n) = negsuc n

-- `kws_close`
unfoldable pub close : Kws → List ℕ → ℕ → ℤ × Kws
unfolding close_frame raw_write
close w key reason =
    let w1 = record w { down = true } in
    let got_reason = if reason == 0 then 1000 else reason in
    let w2 =
      if w.handshake && w.open_sock
      then (raw_write w1 (close_frame w.is_client key got_reason)).1
      else w1 in
    if w.down then (negsuc 0, w) else (minus reason, record w2 { open_sock = false })
