-- ===== src/Kws/RoundTrip.antt =====
-- What `kws_write_frame` builds, read by `kws_read_frame`: both of src/kws.c.
use mathlib.Core.Path.{subst}
use libks.Base.{
  ℕ, zero, suc, ◌+◌, ◌%◌, ◌^◌, ◌≡◌, ◌≤◌, ◌<◌, refl, sym, ap, ap₂, ◌∙◌, ◌⊎◌, inl, inr, Bool, true,
  false, some, List, [], ◌∷◌, ◌++◌, arith, length, take, get_or, leb, ◌==◌, if◌then◌else◌, done,
  length-append, append_assoc, bit_xor_twice, pos,
}
use libks.Kws.{Kws, in_bbuffer}
use libks.Kws.Send.{masked, length_code, frame}
use libks.Kws.Stream.{Waits}
use libks.Kws.Frame.{length_size, from_big_endian, is_data, read_frame}
use libks.Kws.Header.{length_code-Coded}
use libks.Kws.Body.{unmasked, Allows, length-masked}
use libks.Kws.DataFrame.{key_size, key_place, whole_size}
use libks.Kws.OneFrame.{t, read_frame_parts}

-- Numbers that are bytes.
abbrev pub AreBytes : List ℕ → Type 0
AreBytes [] = Unit {0}
AreBytes (x ∷ xs) = (x < 256) × AreBytes xs

get_or-byte : (xs : List ℕ) (i : ℕ) → AreBytes xs → get_or xs i 0 < 256
get_or-byte [] i h = omega arith
get_or-byte (x ∷ xs) zero h = h.0
get_or-byte (x ∷ xs) (suc i) h = get_or-byte xs i (h.1)

-- Bytes that are masked twice, with the same key from the same index on, are as they were.
pub masked-masked :
    (key : List ℕ) (i : ℕ) (xs : List ℕ)
    → AreBytes key
    → AreBytes xs
    → masked key i (masked key i xs) ≡ xs
unfolding masked
masked-masked key i [] k h = refl
masked-masked key i (x ∷ xs) k h =
    ap₂ (λ y ys. y ∷ ys) (bit_xor_twice x (get_or key (i % 4) 0) (h.0) (get_or-byte key (i % 4) k))
      (masked-masked key (i + 1) xs k (h.1))

-- The message was received: its length, its opcode and its bytes, and the stream goes on behind it.
pub record Received (w : Kws) (key : List ℕ) (oc : ℕ) (bytes rest : List ℕ) : Type 0 where
  pub g : Kws
  pub result :
      read_frame 1 w key
      ≡ done (record { r = pos (length bytes); oc = oc; found = some (in_bbuffer 0); kws = g })
  pub front : take (length bytes) g.bbuffer ≡ bytes
  pub waits : Waits g rest

-- A connection on which a frame may come, with room for `n` bytes.
pub record Open (w : Kws) (n : ℕ) : Type 0 where
  pub up : w.down ≡ false
  pub shaken : w.handshake ≡ true
  pub room : 20 ≤ length w.buffer
  pub buflen : w.bbuflen ≡ length w.bbuffer
  pub allows : Allows w n

frame_plain :
    (key : List ℕ) (oc : ℕ) (bytes : List ℕ) (l : ℕ) (more : List ℕ)
    → length_code (length bytes) ≡ (l, more)
    → frame true key oc bytes ≡ (oc + 0x80) ∷ l ∷ more ++ bytes
unfolding frame
frame_plain key oc bytes l more e = rw e refl

frame-masked :
    (key : List ℕ) (oc : ℕ) (bytes : List ℕ) (l : ℕ) (more : List ℕ)
    → length_code (length bytes) ≡ (l, more)
    → frame false key oc bytes ≡ (oc + 0x80) ∷ (l + 0x80) ∷ more ++ (key ++ masked key 0 bytes)
unfolding frame
frame-masked key oc bytes l more e = rw e refl

module _ (w : Kws) (nonce : List ℕ) (oc : ℕ) (bytes rest : List ℕ) (opened : Open w (length bytes))
    (sort : is_data oc ≡ true) (short : length bytes < 2 ^ 32) where
  Received-parts :
      (f : List ℕ) (second : ℕ) (more kp body : List ℕ)
      (size : length more ≡ length_size (second % 128)) (few : length_size (second % 128) ≤ 8)
      (value : (if length_size (second % 128) == 0 then second % 128 else from_big_endian 0 more)
        ≡ length bytes)
      (kp_size : length kp ≡ key_size (leb 128 second)) (body_size : length body ≡ length bytes)
      → f ++ rest ≡ t oc second (length bytes) more kp body rest size few value kp_size body_size
      → unmasked (key_place (leb 128 second) (length_size (second % 128))) kp body ≡ bytes
      → Waits w (f ++ rest)
      → (9 ≤ length f) ⊎ (rest ≡ [])
      → Received w nonce oc bytes rest
  Received-parts f second more kp body size few value kp_size body_size e plain q alone =
      let n = length bytes in
      let long =
        sym (length-append f rest)
        ∙ ap length e
        ∙ whole_size (oc + 0x80) second n more kp body rest size few value kp_size body_size in
      let (g, result, front, waits) =
        read_frame_parts oc second n more kp body rest size few value kp_size body_size w nonce
          (subst (Waits w) e q) sort
          (elim alone [ inl h ↦ inl (omega (arith, long)) | inr h ↦ inr h ]) short opened.up
          opened.shaken opened.room opened.buflen opened.allows in
      record { g = g; result = result; front = front ∙ plain; waits = waits }

  plain_frame :
      (key : List ℕ)
      → Waits w (frame true key oc bytes ++ rest)
      → (9 ≤ length (frame true key oc bytes)) ⊎ (rest ≡ [])
      → Received w nonce oc bytes rest
  plain_frame key q alone =
      let c = length_code-Coded (length bytes) (omega (arith, short)) in
      let l = c.l in
      let m : leb 128 l ≡ false = ground (arith, c.small) in
      let e : l ≡ l % 128 = omega (arith, c.small) in
      Received-parts (frame true key oc bytes) l c.more [] bytes (c.size ∙ ap length_size e)
        (subst (λ x. length_size x ≤ 8) e (c.few))
        (subst (λ x. (if length_size x == 0 then x else from_big_endian 0 c.more) ≡ length bytes) e
          (c.value))
        (rw m refl) refl
        (ap (λ u. u ++ rest) (frame_plain key oc bytes l c.more (c.code))
          ∙ ap (λ u. (oc + 0x80) ∷ l ∷ u) (append_assoc c.more bytes rest))
        (rw m refl) q alone

  masked_frame :
      (key : List ℕ)
      → length key ≡ 4
      → AreBytes key
      → AreBytes bytes
      → Waits w (frame false key oc bytes ++ rest)
      → (9 ≤ length (frame false key oc bytes)) ⊎ (rest ≡ [])
      → Received w nonce oc bytes rest
  masked_frame key four k b q alone =
      let c = length_code-Coded (length bytes) (omega (arith, short)) in
      let l = c.l in
      let m : leb 128 (l + 0x80) ≡ true = ground arith in
      let e : l ≡ (l + 0x80) % 128 = omega (arith, c.small) in
      let body = masked key 0 bytes in
      Received-parts (frame false key oc bytes) (l + 0x80) c.more key body
        (c.size ∙ ap length_size e) (subst (λ x. length_size x ≤ 8) e (c.few))
        (subst (λ x. (if length_size x == 0 then x else from_big_endian 0 c.more) ≡ length bytes) e
          (c.value))
        (rw m four) (length-masked key 0 bytes)
        (ap (λ u. u ++ rest) (frame-masked key oc bytes l c.more (c.code))
          ∙ ap (λ u. (oc + 0x80) ∷ (l + 0x80) ∷ u)
              (append_assoc c.more (key ++ body) rest
                ∙ ap (λ u. c.more ++ u) (append_assoc key body rest)))
        (rw m (masked-masked key 0 bytes k b)) q alone

  -- The frame that `kws_write_frame` builds for a message of fewer than 2 ^ 32 bytes, masked or not,
  -- arrives whole however the socket cuts it: `kws_read_frame` returns the length, the opcode and the
  -- bytes of the message, and leaves the bytes behind the frame unread. The opcode is one of a data
  -- frame, a ping or a pong, the key has four bytes, the connection is open, its buffers have room,
  -- and the frame has nine bytes at least or nothing is behind it.
  pub read_frame-frame :
      (dontmask : Bool) (key : List ℕ)
      → length key ≡ 4
      → AreBytes key
      → AreBytes bytes
      → Waits w (frame dontmask key oc bytes ++ rest)
      → (9 ≤ length (frame dontmask key oc bytes)) ⊎ (rest ≡ [])
      → Received w nonce oc bytes rest
  read_frame-frame true key four k b q alone = plain_frame key q alone
  read_frame-frame false key four k b q alone = masked_frame key four k b q alone
