-- ===== src/Kws/DataFrame.antt =====
-- A data frame of which the first bytes are in the buffer, read by `kws_read_frame` of src/kws.c: its
-- length, its key and its payload.
use libks.Base.{
  ℕ, ◌+◌, ◌%◌, ◌^◌, ◌≡◌, ◌≤◌, ◌<◌, refl, sym, ap, ◌∙◌, ◌⊎◌, inl, inr, Bool, true, false, Bool-cases,
  Option, none, some, List, [], ◌∷◌, ◌++◌, arith, length, take, drop, slice, leb, ◌==◌,
  if◌then◌else◌, Run, done, load, length-append, take-append, drop-append, drop-drop,
}
use libks.Kws.{Kws}
use libks.Kws.Frame.{Got, ensure, length_size, from_big_endian, read_payload, read_data}
use libks.Kws.Header.{Held, ensure-Ensured, moved, load-Held}
use libks.Kws.Body.{unmasked, KeyAt, Allows, Delivered, read_payload_lem}

abbrev pub key_size : Bool → ℕ
key_size m = if m then 4 else 0

key_size_small : (m : Bool) → key_size m ≤ 4
key_size_small true = omega arith
key_size_small false = omega arith

abbrev pub key_place : Bool → ℕ → Option ℕ
key_place m more = if m then some (2 + more) else none

read_data_steps :
    (w : Kws) (key : List ℕ) (oc d second n : ℕ) (d1 : ℕ) (w1 : Kws) (d2 : ℕ) (w2 : Kws)
    (ys : List ℕ) (r : Run (Got ⊎ Kws))
    → let k = key_size (leb 128 second) in
      let more = length_size (second % 128) in
      ensure w d (2 + k) ≡ done (some d1, w1)
      → ensure w1 d1 (2 + k + more) ≡ done (some d2, w2)
      → load w2.buffer 2 more ≡ done ys
      → (if more == 0 then second % 128 else from_big_endian 0 ys) ≡ n
      → read_payload
          (record w2 { plen = n; payload = 2 + k + more })
          key
          oc
          d2
          (2 + k + more)
          (key_place (leb 128 second) more)
        ≡ r
      → read_data w key oc d second ≡ r
unfolding read_data
read_data_steps w key oc d second n d1 w1 d2 w2 ys r c e f g h = rw (c, e, f, g, h) refl

slice-front :
    (xs ys zs : List ℕ) (i n : ℕ)
    → i ≡ length xs
    → n ≡ length ys
    → slice (xs ++ (ys ++ zs)) i n ≡ ys
slice-front xs ys zs i n e e' = ap (take n) (drop-append xs (ys ++ zs) i e) ∙ take-append ys zs n e'

-- A frame of which the parts are known, in front of other bytes.
module _ (first second n : ℕ) (more kp body rest : List ℕ)
    (size : length more ≡ length_size (second % 128)) (few : length_size (second % 128) ≤ 8)
    (value : (if length_size (second % 128) == 0 then second % 128 else from_big_endian 0 more) ≡ n)
    (kp_size : length kp ≡ key_size (leb 128 second)) (body_size : length body ≡ n) where
  abbrev pub m : Bool
  m = leb 128 second

  abbrev pub l : ℕ
  l = second % 128

  abbrev pub whole : List ℕ
  whole = first ∷ second ∷ more ++ (kp ++ (body ++ rest))

  abbrev pub header : ℕ
  header = 2 + key_size m + length_size l

  header_small : header < 20
  header_small = elim (Bool-cases m) [ inl e ↦ rw e (omega arith) | inr e ↦ rw e (omega arith) ]

  pub whole_size : length whole ≡ header + n + length rest
  whole_size = omega (
    arith,
    size,
    kp_size,
    body_size,
    length-append more (kp ++ (body ++ rest)),
    length-append kp (body ++ rest),
    length-append body rest,
  )

  behind_header : drop header whole ≡ body ++ rest
  behind_header =
      sym (drop-drop whole (2 + length_size l) (key_size m) header (omega arith))
      ∙ ap (drop (key_size m)) (
          sym (drop-drop whole 2 (length_size l) (2 + length_size l) refl)
          ∙ drop-append more (kp ++ (body ++ rest)) (length_size l) (sym size))
      ∙ drop-append kp (body ++ rest) (key_size m) (sym kp_size)

  key_there : slice whole (2 + length_size l) (length kp) ≡ kp
  key_there =
      slice-front (first ∷ second ∷ more) kp (body ++ rest) (2 + length_size l) (length kp)
        (omega (arith, size)) refl

  -- The key is where the code looks for it.
  key_at :
      (w : Kws) (d : ℕ)
      → Held w whole d
      → header ≤ d
      → (b : Bool) → length kp ≡ key_size b
      → header ≡ 2 + key_size b + length_size l
      → KeyAt w.buffer (key_place b (length_size l)) kp
  key_at w d h enough false e e' = tt
  key_at w d h enough true e e' =
      load-Held w whole d h (2 + length_size l) 4 (omega (arith, e'))
      ∙ ap done (ap (λ k. slice whole (2 + length_size l) k) (sym e) ∙ key_there)

  -- `read_data` gives the payload, unmasked.
  pub read_data_lem :
      (v : Kws) (key : List ℕ) (oc d : ℕ)
      → Held v whole d
      → d ≤ header + n
      → n < 2 ^ 32
      → v.bbuflen ≡ length v.bbuffer
      → Allows v n
      → Delivered n
          (unmasked (key_place m (length_size l)) kp body)
          rest
          (read_data (record v { body = 0; packetlen = 0 }) key oc d second)
  read_data_lem v key oc d h inside small buflen lim =
      let w = record v { body = 0; packetlen = 0 } in
      let first_need = 2 + key_size m in
      let k_small : key_size m ≤ 4 = key_size_small m in
      let e1 =
        ensure-Ensured w whole d first_need
          (record {
            buffered = h.buffered;
            within = h.within;
            waits = record {
              feeds = h.waits.feeds;
              at_rest = h.waits.at_rest;
              nothing_over = h.waits.nothing_over;
            };
            room = h.room;
          })
          (omega (arith, whole_size)) (omega (arith, k_small)) in
      let w1 = moved w e1.b e1.left e1.datalen in
      let e2 =
        ensure-Ensured w1 whole e1.at header (e1.held) (omega (arith, whole_size)) header_small in
      let w2 = moved w1 e2.b e2.left e2.datalen in
      let p =
        read_payload_lem w2 n header e2.at whole body rest (e2.enough) behind_header body_size
          (e2.bounded (header + n) (e1.bounded (header + n) inside (omega arith)) (omega arith)) oc
          (key_place m (length_size l)) kp key (e2.held) small buflen lim
          (key_at w2 e2.at (e2.held) (e2.enough) m kp_size refl) in
      record {
        g = p.g;
        result =
            read_data_steps w key oc d second n e1.at w1 e2.at w2 more (done (inr p.g)) (e1.result)
              (e2.result)
              (load-Held w2 whole e2.at (e2.held) 2 (length_size l) (omega (arith, e2.enough))
                ∙ ap done (
                    slice-front (first ∷ second ∷ []) more (kp ++ (body ++ rest)) 2 (length_size l)
                      refl (sym size)))
              value (p.result);
        counted = p.counted;
        front = p.front;
        waits = p.waits;
      }
