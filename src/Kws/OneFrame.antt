-- ===== src/Kws/OneFrame.antt =====
-- A final frame of which the parts are known, read by `kws_read_frame` of src/kws.c from its first byte
-- on.
use mathlib.Core.Path.{subst}
use libks.Base.{
  ℕ, suc, ◌+◌, ◌-◌, ◌%◌, ◌^◌, ◌≡◌, ◌≤◌, ◌<◌, refl, sym, ap, ◌∙◌, ◌⊎◌, inl, inr, Bool, true, false,
  Bool-cases, some, List, [], ◌++◌, arith, length, take, drop, ltb, leb, ◌==◌, if◌then◌else◌, done,
  length-drop, drop-drop, take-join, ℤ, pos,
}
use libks.Kws.{Kws, Recv, in_buffer, in_bbuffer, string_read}
use libks.Kws.Stream.{Feeds, Waits, string_read-Fetched}
use libks.Kws.Frame.{
  byte_at, length_size, from_big_endian, read_data, is_data, goes_on, dispatch, read_one,
  read_frames, read_frame,
}
use libks.Kws.Header.{Held, moved, byte_at-Held}
use libks.Kws.Body.{unmasked, Allows}
use libks.Kws.DataFrame.{key_size, key_place, whole, header, whole_size, read_data_lem}

read_one_at_once :
    (w : Kws) (key : List ℕ) (frag : Bool) (oc d : ℕ) (w1 : Kws)
    → w.down ≡ false
    → w.handshake ≡ true
    → string_read w (in_buffer 0) 10 w.block ≡ done (pos d, w1)
    → ltb d 2 ≡ false
    → read_one w key frag oc ≡ dispatch (record w1 { datalen = pos d }) key frag d
unfolding read_one
read_one_at_once w key frag oc d w1 a b r e = rw (r, e, a, b) refl

read_one_in_two :
    (w : Kws) (key : List ℕ) (frag : Bool) (oc d : ℕ) (w1 : Kws) (n : ℕ) (w3 : Kws)
    → w.down ≡ false
    → w.handshake ≡ true
    → string_read w (in_buffer 0) 10 w.block ≡ done (pos d, w1)
    → ltb d 2 ≡ true
    → string_read (record w1 { datalen = pos d }) (in_buffer d) (9 - d) true ≡ done (pos n, w3)
    → ltb (d + n) 2 ≡ false
    → read_one w key frag oc ≡ dispatch (record w3 { datalen = pos (d + n) }) key frag (d + n)
unfolding read_one
read_one_in_two w key frag oc d w1 n w3 a b r e s f = rw (r, e, s, f, a, b) refl

not_less : (a b : ℕ) → b ≤ a → ltb a b ≡ false
not_less a b h = ground arith

-- The first two bytes of a frame, and up to nine, are in the buffer.
record Started (w : Kws) (t : List ℕ) (key : List ℕ) (frag : Bool) (oc : ℕ) : Type 0 where
  d : ℕ
  b : List ℕ
  left : List Recv
  datalen : ℤ
  result : read_one w key frag oc ≡ dispatch (moved w b left datalen) key frag d
  held : Held (moved w b left datalen) t d
  two : 2 ≤ d
  few : d ≤ 9

read_one-Started :
    (w : Kws) (t key : List ℕ) (frag : Bool) (oc : ℕ)
    → Waits w t
    → w.down ≡ false
    → w.handshake ≡ true
    → 20 ≤ length w.buffer
    → 2 ≤ length t
    → Started w t key frag oc
read_one-Started w t key frag oc q up shaken room long =
    let r =
      string_read-Fetched w (in_buffer 0) t 9 q (omega (arith, room)) w.block (omega arith)
        (omega arith) (omega (arith, long)) in
    let d = r.count in
    let w1 = moved w r.d r.left (pos d) in
    let front : take d r.d ≡ take d t = ap (λ n. take n r.d) (omega arith) ∙ r.front in
    let q1 : Waits w1 (drop d t) = record {
      feeds = r.feeds;
      at_rest = refl;
      nothing_over = q.nothing_over;
    } in
    elim (Bool-cases (ltb d 2)) [
      | inr p ↦ record {
        d = d;
        b = r.d;
        left = r.left;
        datalen = pos d;
        result =
            read_one_at_once w key frag oc d (record w { buffer = r.d; recvs = r.left; x = 0 }) up
              shaken (r.result) p;
        held = record {
          buffered = front;
          within = r.there;
          waits = q1;
          room = omega (arith, r.same_size, room);
        };
        two = ground arith;
        few = r.within;
      }
      | inl p ↦
          let less : d < 2 = ground arith in
          let s =
            string_read-Fetched w1 (in_buffer d) (drop d t) (8 - d) q1
              (omega (arith, r.same_size, room, less, r.more)) true (omega (arith, less))
              (omega (arith, less)) (omega (arith, less, length-drop d t, long)) in
          let e : suc (8 - d) ≡ 9 - d = omega (arith, less) in
          record {
            d = d + s.count;
            b = s.d;
            left = s.left;
            datalen = pos (d + s.count);
            result =
                read_one_in_two w key frag oc d (record w { buffer = r.d; recvs = r.left; x = 0 })
                  s.count (record w1 { buffer = s.d; recvs = s.left; x = 0 }) up shaken (r.result) p
                  (ap (λ n. string_read w1 (in_buffer d) n true) (sym e) ∙ s.result)
                  (not_less (d + s.count) 2 (omega (arith, r.more, s.more)));
            held = record {
              buffered =
                  s.front
                  ∙ ap (λ u. u ++ take s.count (drop d t)) front
                  ∙ take-join t d s.count (d + s.count) refl;
              within = omega (arith, r.there, s.there, length-drop d t, r.more, s.more);
              waits = record {
                feeds = subst (Feeds s.left) (drop-drop t d s.count (d + s.count) refl) (s.feeds);
                at_rest = refl;
                nothing_over = q.nothing_over;
              };
              room = omega (arith, s.same_size, r.same_size, room);
            };
            two = omega (arith, r.more, s.more);
            few = omega (arith, s.within, less);
          }
    ]

dispatch_at :
    (w : Kws) (key : List ℕ) (frag : Bool) (d first second : ℕ) (g : Kws)
    → byte_at w.buffer 0 ≡ done first
    → byte_at w.buffer 1 ≡ done second
    → let oc = first % 16 in
      (oc == 8) ≡ false
      → is_data oc ≡ true
      → read_data w key oc d second ≡ done (inr g)
      → dispatch w key frag d ≡ done (inr (goes_on frag oc first, oc, g))
unfolding dispatch
dispatch_at w key frag d first second g a b e f h = rw (a, b, e, f, h) refl

dispatch_steps :
    (w : Kws) (key : List ℕ) (frag : Bool) (oc d first second : ℕ) (g : Kws)
    → byte_at w.buffer 0 ≡ done first
    → byte_at w.buffer 1 ≡ done second
    → first % 16 ≡ oc
    → (oc == 8) ≡ false
    → is_data oc ≡ true
    → read_data w key oc d second ≡ done (inr g)
    → dispatch w key frag d ≡ done (inr (goes_on frag oc first, oc, g))
dispatch_steps w key frag oc d first second g a b c =
    subst
      (λ o.
        (o == 8) ≡ false
        → is_data o ≡ true
        → read_data w key o d second ≡ done (inr g)
        → dispatch w key frag d ≡ done (inr (goes_on frag o first, o, g)))
      c (dispatch_at w key frag d first second g a b)

data_not_close : (oc : ℕ) → is_data oc ≡ true → (oc == 8) ≡ false
data_not_close oc h = ground arith

data_small : (oc : ℕ) → is_data oc ≡ true → oc < 16
data_small oc h = ground arith

final_ends : (oc : ℕ) → goes_on false oc (oc + 0x80) ≡ false
final_ends oc = elim (Bool-cases (oc == 0)) [
  | inl e ↦ let p : leb 128 (oc + 0x80) ≡ true = ground arith in rw (p, e) refl
  | inr e ↦ let p : leb 128 (oc + 0x80) ≡ true = ground arith in rw (p, e) refl
]

read_frame_steps :
    (w : Kws) (key : List ℕ) (oc : ℕ) (g : Kws)
    → read_one (record w { body = 0; packetlen = 0 }) key false 15 ≡ done (inr (false, oc, g))
    → read_frame 1 w key
      ≡ done (record { r = pos g.packetlen; oc = oc; found = some (in_bbuffer 0); kws = g })
unfolding read_frame read_frames
read_frame_steps w key oc g r = rw r refl

-- A frame that is final, of which the parts are known, is read.
module _ (oc second n : ℕ) (more kp body rest : List ℕ)
    (size : length more ≡ length_size (second % 128)) (few : length_size (second % 128) ≤ 8)
    (value : (if length_size (second % 128) == 0 then second % 128 else from_big_endian 0 more) ≡ n)
    (kp_size : length kp ≡ key_size (leb 128 second)) (body_size : length body ≡ n) where
  abbrev pub t : List ℕ
  t = whole (oc + 0x80) second n more kp body rest size few value kp_size body_size

  abbrev pub head : ℕ
  head = header (oc + 0x80) second n more kp body rest size few value kp_size body_size

  pub read_frame_parts :
      (w : Kws) (key : List ℕ)
      → Waits w t
      → is_data oc ≡ true
      → (9 ≤ head + n) ⊎ (rest ≡ [])
      → n < 2 ^ 32
      → w.down ≡ false
      → w.handshake ≡ true
      → 20 ≤ length w.buffer
      → w.bbuflen ≡ length w.bbuffer
      → Allows w n
      → (g : Kws) × (read_frame 1 w key
          ≡ done (record { r = pos n; oc = oc; found = some (in_bbuffer 0); kws = g }))
        × (take n g.bbuffer
            ≡ unmasked (key_place (leb 128 second) (length_size (second % 128))) kp body)
        × Waits g rest
  read_frame_parts w key q sort alone small up shaken room buflen lim =
      let w0 = record w { body = 0; packetlen = 0 } in
      let long =
        whole_size (oc + 0x80) second n more kp body rest size few value kp_size body_size in
      let s =
        read_one-Started w0 t key false 15
          (record { feeds = q.feeds; at_rest = q.at_rest; nothing_over = q.nothing_over }) up shaken
          room (omega arith) in
      let inside : s.d ≤ head + n = elim alone [
        | inl p ↦ omega (arith, s.few)
        | inr p ↦ omega (arith, s.held.within, long, ap length p)
      ] in
      let v = moved w0 s.b s.left s.datalen in
      let p =
        read_data_lem (oc + 0x80) second n more kp body rest size few value kp_size body_size v key
          oc s.d (s.held) inside small buflen lim in
      let one =
        s.result
        ∙ dispatch_steps v key false oc s.d (oc + 0x80) second p.g
            (byte_at-Held v t s.d (s.held) 0 (omega (arith, s.two)))
            (byte_at-Held v t s.d (s.held) 1 (omega (arith, s.two)))
            (omega (arith, data_small oc sort)) (data_not_close oc sort) sort (p.result)
        ∙ ap (λ b. done (inr (b, oc, p.g))) (final_ends oc) in
      (
        p.g,
        read_frame_steps w key oc p.g one
            ∙ ap (λ k. done (record { r = pos k; oc = oc; found = some (in_bbuffer 0); kws = p.g }))
                (p.counted),
        p.front,
        p.waits,
      )
