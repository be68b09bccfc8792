-- ===== src/Kws/Frame.antt =====
-- `kws_read_frame` of src/kws.c. A pointer to the data that it hands out is a `Dest`; the masking key
-- of the frame that `kws_close` sends is an argument, since no call closes twice.
use libks.Base.{
  ℕ, zero, suc, ◌+◌, ◌-◌, ◌*◌, ◌%◌, ◌^◌, Bool, true, false, not, ◌&&◌, ◌||◌, Option, none, some,
  List, [], ◌∷◌, ◌++◌, length, take, ltb, leb, ◌==◌, if◌then◌else◌, get_or, ◌⊎◌, inl, inr, Run,
  done, fault, ◌>>=◌, load, store, replicate, ℤ, pos, negsuc,
}
use libks.Kws.{Kws, Dest, in_buffer, in_bbuffer, string_read, string_read_blocking}
use libks.Kws.Send.{masked, close}

-- What `kws_read_frame` returns, the opcode, the data and the connection.
pub record Got : Type 0 where
  pub r : ℤ
  pub oc : ℕ
  pub found : Option Dest
  pub kws : Kws

-- `return kws_close(kws, reason)`
unfoldable pub closing : Kws → List ℕ → ℕ → ℕ → Option Dest → Run Got
unfolding close
closing w key reason oc found =
    let (r, w') = close w key reason in done (record { r = r; oc = oc; found = found; kws = w' })

unfoldable pub byte_at : List ℕ → ℕ → Run ℕ
byte_at d i = if ltb i (length d) then done (get_or d i 0) else fault

-- The number in bytes that `ntohs` and `ntoh64` read, the most significant first.
unfoldable pub from_big_endian : ℕ → List ℕ → ℕ
from_big_endian v [] = v
from_big_endian v (x ∷ xs) = from_big_endian (v * 256 + x) xs

-- Bytes are read until `need` of them stand in the buffer, of which there are `d`; nothing is returned
-- where they do not come.
unfoldable pub ensure : Kws → ℕ → ℕ → Run (Option ℕ × Kws)
unfolding string_read_blocking
ensure w d need =
    if ltb d need
    then (do
      (r, w') ← string_read_blocking w (in_buffer d) (need - d + 1) 10
      elim r [
        | negsuc k ↦ done (none, w')
        | pos n ↦
            done
              (if ltb (d + n) need then none else some (d + n), record w' { datalen = pos (d + n) })
      ])
    else done (some d, w)

-- Room in the body buffer for `plen` bytes behind those that are there, and a NUL; none where that
-- is more than the limit. What `ks_pool_resize` adds is zero here.
unfoldable pub make_room : Kws → ℕ → ℕ → Bool × Kws
make_room w blen plen =
    if ltb (blen + plen) w.bbuflen
    then (true, w)
    else let n = blen + plen + 1 in
      let w' = record w { bbuflen = n } in
      if ltb 0 w.payload_size_max && ltb w.payload_size_max n then (false, w') else (
        true,
        record w' {
          bbuffer = take n (w.bbuffer ++ replicate (n - length w.bbuffer) 0);
          body = blen;
        },
      )

-- `kws->datalen += r`, where it counts what was read.
abbrev pub more_data : ℤ → ℕ → ℤ
more_data (pos d) n = pos (d + n)
more_data (negsuc d) n = negsuc d

-- `while(need)`: each round reads a byte at least, so `need` rounds are enough. What is returned says
-- whether all was read.
unfoldable pub fill : ℕ → Kws → ℕ → Run (Bool × Kws)
unfolding string_read
fill f w zero = done (true, w)
fill zero w (suc n) = fault
fill (suc f) w (suc n) = do
  (r, w') ← string_read w (in_bbuffer (w.body + w.rplen)) (suc n + 1) true
  elim r [
    | negsuc k ↦ done (false, w')
    | pos k ↦ elim k [
      | zero ↦ done (false, w')
      | suc j ↦
          fill f (record w' { rplen = w'.rplen + suc j; datalen = more_data w'.datalen (suc j) })
            (n - j)
    ]
  ]

-- The body unmasked, with the key at `maskp`.
unfoldable pub unmask : Kws → Option ℕ → Run Kws
unfolding masked
unmask w none = done w
unmask w (some maskp) = do
  key ← load w.buffer maskp 4
  ys ← load w.bbuffer w.body w.plen
  d ← store w.bbuffer w.body (masked key 0 ys)
  done (record w { bbuffer = d })

-- `if (*oc == WSOC_TEXT) *(kws->body+kws->rplen) = '\0'`, and the body moves on.
unfoldable pub end_body : Kws → ℕ → Run Kws
end_body w oc = do
  d ← if oc == 1 then store w.bbuffer (w.body + w.rplen) (0 ∷ []) else done w.bbuffer
  done (record w { bbuffer = d; packetlen = w.packetlen + w.rplen; body = w.body + w.rplen })

-- What follows the header of a frame, of which `need` bytes of the `d` in the buffer are.
unfoldable pub read_payload : Kws → List ℕ → ℕ → ℕ → ℕ → Option ℕ → Run (Got ⊎ Kws)
unfolding closing make_room fill unmask end_body
read_payload w key oc d need maskp =
    if leb (2 ^ 63) w.plen || ltb w.plen (d - need)
    then (do g ← closing w key 0 8 none; done (inl g))
    else (do
      let left = w.plen - (d - need)
      let (room, w1) = make_room w w.body w.plen
      if not room then (do g ← closing w1 key 0 8 none; done (inl g)) else (do
        let rplen = w.plen - left
        ys ← load w1.buffer w1.payload rplen
        body ← store w1.bbuffer w1.body ys
        (all, w2) ← fill left (record w1 { bbuffer = body; rplen = rplen }) left
        if not all
            then (do g ← closing w2 key 0 8 none; done (inl g))
            else (do w3 ← unmask w2 maskp; w4 ← end_body w3 oc; done (inr w4))))

-- The bytes of the length behind the first two of a frame.
abbrev pub length_size : ℕ → ℕ
length_size l = if l == 127 then 8 else (if l == 126 then 2 else 0)

-- The header of a data frame and its payload. Where there is nothing to wait for, `ensure` does
-- nothing.
unfoldable pub read_data : Kws → List ℕ → ℕ → ℕ → ℕ → Run (Got ⊎ Kws)
read_data w key oc d second = do
  let mask = leb 128 second
  let key_size = if mask then 4 else 0
  let l = second % 128
  let more = length_size l
  (got1, w1) ← ensure w d (2 + key_size)
  elim got1 [
    | none ↦ do g ← closing w1 key 0 8 none; done (inl g)
    | some d1 ↦ do
      (got2, w2) ← ensure w1 d1 (2 + key_size + more)
      elim got2 [
        | none ↦ do g ← closing (record w2 { plen = l; payload = 2 }) key 0 8 none; done (inl g)
        | some d2 ↦ do
          ys ← load w2.buffer 2 more
          let w3 = record w2 {
            plen = if more == 0 then l else from_big_endian 0 ys;
            payload = 2 + key_size + more;
          }
          read_payload w3 key oc d2 (2 + key_size + more) (if mask then some (2 + more) else none)
      ]
  ]

abbrev pub is_data : ℕ → Bool
is_data oc = oc == 0 || oc == 1 || oc == 2 || oc == 9 || oc == 10

-- The message goes on behind a frame that is not final and starts one, up to a final continuation.
abbrev pub goes_on : Bool → ℕ → ℕ → Bool
goes_on frag oc first =
    let fin = leb 128 first in
    if not fin && not (oc == 0) then true else (if fin && oc == 0 then false else frag)

-- A frame whose first `d` bytes are in the buffer: the result, or whether the message goes on, the
-- opcode and the connection.
unfoldable pub dispatch : Kws → List ℕ → Bool → ℕ → Run (Got ⊎ (Bool × ℕ × Kws))
dispatch w key frag d = do
  first ← byte_at w.buffer 0
  second ← byte_at w.buffer 1
  let oc = first % 16
  if oc == 8
      then (do
        g ← closing (record w { plen = second % 128 }) key 1000 8 (some (in_buffer 2))
        done (inl g))
      else (if is_data oc
          then (do
            r ← read_data w key oc d second
            done (elim r [ inl g ↦ inl g | inr w' ↦ inr (goes_on frag oc first, oc, w') ]))
          else (do g ← closing w key 1002 8 none; done (inl g)))

-- From `again:` to the end of a frame.
unfoldable pub read_one : Kws → List ℕ → Bool → ℕ → Run (Got ⊎ (Bool × ℕ × Kws))
read_one w key frag oc =
    if w.down
    then done (inl (record { r = negsuc 0; oc = oc; found = none; kws = w }))
    else (if not w.handshake then (do g ← closing w key 0 oc none; done (inl g)) else (do
      (r, w1) ← string_read w (in_buffer 0) 10 w.block
      let w2 = record w1 { datalen = r }
      elim r [
        | negsuc k ↦
            if k == 1
            then done (inl (record { r = negsuc 1; oc = oc; found = none; kws = w2 }))
            else (do g ← closing w2 key 0 oc none; done (inl g))
        | pos d ↦
            if ltb d 2
            then (do
              (more, w3) ← string_read w2 (in_buffer d) (9 - d) true
              elim more [
                | negsuc k ↦ do g ← closing w3 key 0 oc none; done (inl g)
                | pos n ↦
                    let w4 = record w3 { datalen = pos (d + n) } in
                    if ltb (d + n) 2
                    then (do g ← closing w4 key 0 oc none; done (inl g))
                    else dispatch w4 key frag (d + n)
              ])
            else dispatch w2 key frag d
      ]))

-- `kws_read_frame`, over at most `f` frames.
unfoldable pub read_frames : ℕ → Kws → List ℕ → Bool → ℕ → Run Got
read_frames zero w key frag oc = fault
read_frames (suc f) w key frag oc = do
  r ← read_one w key frag oc
  elim r [
    | inl g ↦ done g
    | inr (frag', oc', w') ↦
        if frag'
        then read_frames f w' key true oc'
        else done (record { r = pos w'.packetlen; oc = oc'; found = some (in_bbuffer 0); kws = w' })
  ]

unfoldable pub read_frame : ℕ → Kws → List ℕ → Run Got
unfolding read_frames
read_frame f w key = read_frames f (record w { body = 0; packetlen = 0 }) key false 15
