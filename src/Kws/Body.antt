-- ===== src/Kws/Body.antt =====
-- From the header of a frame to the end of its payload in `kws_read_frame` of src/kws.c, on a
-- connection that has the frame to come.
use mathlib.Core.Path.{subst}
use libks.Base.{
  ℕ, suc, ◌+◌, ◌-◌, ◌^◌, ◌≡◌, ◌≤◌, ◌<◌, refl, sym, ap, ◌∙◌, ◌⊎◌, inl, inr, true, false, Bool-cases,
  ◌||◌, ◌&&◌, Option, none, some, List, [], ◌∷◌, ◌++◌, arith, length, take, drop, slice, overwrite,
  replicate, ltb, leb, ◌==◌, Run, done, load, load_inside, store, store_inside, length-append,
  length-take, length-drop, length-replicate, length-overwrite, take-overwrite, take-overwrite_end,
  take-append, drop-append, drop-drop, append-nil, take-join,
}
use libks.Kws.{Kws}
use libks.Kws.Send.{masked}
use libks.Kws.Stream.{Feeds, Waits}
use libks.Kws.Frame.{Got, make_room, fill, unmask, end_body, read_payload}
use libks.Kws.Payload.{filled, fill-Filled}
use libks.Kws.Header.{Held, load-Held}

pub length-masked : (key : List ℕ) (i : ℕ) (xs : List ℕ) → length (masked key i xs) ≡ length xs
unfolding masked
length-masked key i [] = refl
length-masked key i (x ∷ xs) = ap suc (length-masked key (i + 1) xs)

abbrev pub unmasked : Option ℕ → List ℕ → List ℕ → List ℕ
unmasked none key ys = ys
unmasked (some m) key ys = masked key 0 ys

abbrev pub KeyAt : List ℕ → Option ℕ → List ℕ → Type 0
KeyAt d none key = Unit {0}
KeyAt d (some m) key = load d m 4 ≡ done key

-- The first `n` bytes of the body buffer are these, and it has room for more.
record Holding (b : List ℕ) (n : ℕ) (ys : List ℕ) : Type 0 where
  front : take n b ≡ ys
  size : length ys ≡ n
  room : n < length b

unmask_lem :
    (v : Kws) (n : ℕ) (maskp : Option ℕ) (key ys : List ℕ)
    → let w = record v { body = 0; plen = n } in
      KeyAt w.buffer maskp key
      → Holding w.bbuffer n ys
      → (b : List ℕ) × (unmask w maskp ≡ done (record w { bbuffer = b }))
        × Holding b n (unmasked maskp key ys)
unfolding unmask
unmask_lem v n none key ys k h = (v.bbuffer, refl, h)
unmask_lem v n (some m) key ys k h =
    let zs = masked key 0 ys in
    let size : length zs ≡ n = length-masked key 0 ys ∙ h.size in
    let l : load v.bbuffer 0 n ≡ done ys =
      load_inside v.bbuffer 0 n (omega (arith, h.room)) ∙ ap done (h.front) in
    let fits : 0 + length zs ≤ length v.bbuffer = omega (arith, size, h.room) in
    (
      overwrite v.bbuffer 0 zs,
      rw (k, l, store_inside v.bbuffer 0 zs fits) refl,
      record {
        front =
            ap (λ u. take n (overwrite v.bbuffer 0 u)) (sym (append-nil zs))
            ∙ take-overwrite_end v.bbuffer 0 zs [] n
                (omega (arith, ap length (append-nil zs), size, h.room)) (omega (arith, size));
        size = size;
        room = omega (arith, length-overwrite v.bbuffer 0 zs, h.room);
      },
    )

end_body_lem :
    (v : Kws) (n p oc : ℕ) (ys : List ℕ)
    → let w = record v { body = 0; rplen = n; packetlen = p } in
      Holding w.bbuffer n ys
      → (b : List ℕ) × (end_body w oc
          ≡ done (record w { bbuffer = b; packetlen = p + n; body = 0 + n }))
        × Holding b n ys
unfolding end_body
end_body_lem v n p oc ys h = elim (Bool-cases (oc == 1)) [
  | inr e ↦ (v.bbuffer, rw e refl, h)
  | inl e ↦
      let b = overwrite v.bbuffer (0 + n) (0 ∷ []) in
      (
        b,
        rw (e, store_inside v.bbuffer (0 + n) (0 ∷ []) (omega (arith, h.room))) refl,
        record {
          front = take-overwrite v.bbuffer (0 + n) (0 ∷ []) n (omega arith) ∙ h.front;
          size = h.size;
          room = omega (arith, length-overwrite v.bbuffer (0 + n) (0 ∷ []), h.room);
        },
      )
]

-- The limit on a payload allows `n` bytes.
abbrev pub Allows : Kws → ℕ → Type 0
Allows w n = (w.payload_size_max ≡ 0) ⊎ (n < w.payload_size_max)

under_limit :
    (w : Kws) (n : ℕ)
    → Allows w n
    → (ltb 0 w.payload_size_max && ltb w.payload_size_max (0 + n + 1)) ≡ false
under_limit w n (inl e) = ground (arith, e)
under_limit w n (inr h) = ground (arith, h)

make_room_lem :
    (w : Kws) (n : ℕ)
    → w.body ≡ 0
    → w.bbuflen ≡ length w.bbuffer
    → Allows w n
    → (b : List ℕ) × (l : ℕ) × (make_room w 0 n
        ≡ (true, record w { bbuflen = l; bbuffer = b; body = 0 }))
      × (l ≡ length b)
      × (n < length b)
unfolding make_room
make_room_lem w n e s a = elim (Bool-cases (ltb (0 + n) w.bbuflen)) [
  | inl p ↦ (
    w.bbuffer,
    w.bbuflen,
    rw p refl ∙ ap (λ v. (true, record w { body = v })) e,
    s,
    ground (arith, s),
  )
  | inr p ↦
      let m = 0 + n + 1 in
      let more = replicate (m - length w.bbuffer) 0 in
      let b = take m (w.bbuffer ++ more) in
      let size : length b ≡ m = omega (
        arith,
        length-take m (w.bbuffer ++ more),
        length-append w.bbuffer more,
        length-replicate {A = ℕ} (m - length w.bbuffer) 0,
      ) in
      (b, m, rw (p, under_limit w n a) refl, sym size, omega (arith, size))
]

payload_steps :
    (w : Kws) (key : List ℕ) (oc d need : ℕ) (maskp : Option ℕ) (w1 : Kws) (ys body : List ℕ)
    (w2 w3 w4 : Kws)
    → (leb (2 ^ 63) w.plen || ltb w.plen (d - need)) ≡ false
    → make_room w w.body w.plen ≡ (true, w1)
    → (let rplen = w.plen - (w.plen - (d - need)) in load w1.buffer w1.payload rplen ≡ done ys)
    → store w1.bbuffer w1.body ys ≡ done body
    → (let left = w.plen - (d - need) in
        fill left (record w1 { bbuffer = body; rplen = w.plen - left }) left ≡ done (true, w2))
    → unmask w2 maskp ≡ done w3
    → end_body w3 oc ≡ done w4
    → read_payload w key oc d need maskp ≡ done (inr w4)
unfolding read_payload
payload_steps w key oc d need maskp w1 ys body w2 w3 w4 a b c e f g h =
    rw (a, b, c, e, f, g, h) refl

-- The whole payload was read, and the stream goes on behind it.
pub record Delivered (n : ℕ) (bytes rest : List ℕ) (run : Run (Got ⊎ Kws)) : Type 0 where
  pub g : Kws
  pub result : run ≡ done (inr g)
  pub counted : g.packetlen ≡ n
  pub front : take n g.bbuffer ≡ bytes
  pub waits : Waits g rest

module _ (v : Kws) (n need d : ℕ) (t bs rest : List ℕ) (nd : need ≤ d)
    (e : drop need t ≡ bs ++ rest) (size : length bs ≡ n) (inside : d ≤ need + n) where
  abbrev w : Kws
  w = record v { body = 0; packetlen = 0; plen = n; payload = need }

  -- The bytes of the payload that are still to be read, and those that are in the buffer.
  abbrev left : ℕ
  left = n - (d - need)

  abbrev there : ℕ
  there = n - left

  there_lem : need + there ≡ d
  there_lem = omega (arith, nd, inside)

  joined : take there (drop need t) ++ take left (drop d t) ≡ bs
  joined =
      ap (λ u. take there (drop need t) ++ take left u)
        (sym (drop-drop t need there d (sym there_lem)))
      ∙ take-join (drop need t) there left n (omega (arith, nd, inside))
      ∙ ap (take n) e
      ∙ take-append bs rest n (sym size)

  behind : drop left (drop d t) ≡ rest
  behind =
      drop-drop t d left (need + n) (omega (arith, nd, inside))
      ∙ sym (drop-drop t need n (need + n) refl)
      ∙ ap (drop n) e
      ∙ drop-append bs rest n (sym size)

  to_come : left ≤ length (drop d t)
  to_come = omega (
    arith,
    nd,
    inside,
    size,
    length-drop d t,
    length-drop need t,
    ap length e,
    length-append bs rest,
  )

  pub read_payload_lem :
      (oc : ℕ) (maskp : Option ℕ) (key key' : List ℕ)
      → Held v t d
      → n < 2 ^ 32
      → v.bbuflen ≡ length v.bbuffer
      → Allows v n
      → KeyAt v.buffer maskp key
      → Delivered n (unmasked maskp key bs) rest (read_payload w key' oc d need maskp)
  read_payload_lem oc maskp key key' h small buflen lim k =
      let (b, l, made, s, room) = make_room_lem w n refl buflen lim in
      let w1 = record w { bbuflen = l; bbuffer = b; body = 0 } in
      let ys = slice t need there in
      let ys_size : length ys ≡ there =
        omega (arith, length-take there (drop need t), length-drop need t, h.within, there_lem) in
      let ys_nil = ap length (append-nil ys) in
      let body = overwrite b 0 ys in
      let body_size = length-overwrite b 0 ys in
      let r =
        fill-Filled left (record w1 { bbuffer = body; rplen = there }) (drop d t) left
          (record {
            feeds = h.waits.feeds;
            at_rest = h.waits.at_rest;
            nothing_over = h.waits.nothing_over;
          })
          to_come (omega (arith, small, nd, inside)) (omega arith)
          (omega (arith, body_size, room)) in
      let all : there + left ≡ n = omega (arith, nd, inside) in
      let whole : n ≡ there + left = sym all in
      let v2 = filled (record w1 { bbuffer = body }) r.d r.left (there + left) r.datalen in
      let front : take n r.d ≡ bs =
        ap (λ x. take x r.d) (omega (arith, nd, inside))
        ∙ r.front
        ∙ ap (λ u. u ++ take left (drop d t))
            (ap (λ u. take (0 + there) (overwrite b 0 u)) (sym (append-nil ys))
              ∙ take-overwrite_end b 0 ys [] (0 + there) (omega (arith, ys_size, ys_nil, room))
                  (omega (arith, ys_size)))
        ∙ joined in
      let (b3, masked_out, h3) = unmask_lem v2 n maskp key bs k (record {
        front = front;
        size = size;
        room = omega (arith, r.same_size, body_size, room);
      }) in
      let (b4, ended, h4) =
        end_body_lem (record v2 { bbuffer = b3 }) (there + left) 0 oc (unmasked maskp key bs)
          (subst (λ x. Holding b3 x (unmasked maskp key bs)) whole h3) in
      record {
        g = record v2 { bbuffer = b4; packetlen = 0 + (there + left); body = 0 + (there + left) };
        result =
            payload_steps w key' oc d need maskp w1 ys body v2 (record v2 { bbuffer = b3 })
              (record v2 {
                bbuffer = b4;
                packetlen = 0 + (there + left);
                body = 0 + (there + left);
              })
              (ground (arith, small, inside, nd)) made
              (load-Held v t d h need there (omega (arith, there_lem)))
              (store_inside b 0 ys (omega (arith, ys_size, room))) (r.result) masked_out ended;
        counted = omega (arith, all);
        front = ap (λ x. take x b4) whole ∙ h4.front;
        waits = record {
          feeds = subst (Feeds r.left) behind (r.feeds);
          at_rest = refl;
          nothing_over = h.waits.nothing_over;
        };
      }
