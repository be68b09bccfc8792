-- ===== src/Kws/Payload.antt =====
-- The payload of a frame in `kws_read_frame` of src/kws.c, from a socket that will have all of it:
-- room in the body buffer, the bytes that are there, those that are read, and the mask.
use mathlib.Core.Path.{subst}
use libks.Base.{
  ℕ, zero, suc, ◌+◌, ◌-◌, ◌^◌, ◌≡◌, ◌≤◌, ◌<◌, refl, sym, ap, ap₂, ◌∙◌, Bool, true, List, ◌++◌,
  arith, length, take, drop, Run, done, length-drop, drop-drop, append_assoc, append-nil, take-join,
  ℤ, pos,
}
use libks.Kws.{Kws, Recv, in_bbuffer, string_read}
use libks.Kws.Stream.{Feeds, Waits, string_read-Fetched}
use libks.Kws.Frame.{fill, more_data}

-- The connection with more of the body read.
abbrev pub filled : Kws → List ℕ → List Recv → ℕ → ℤ → Kws
filled w d es rplen datalen = record w {
  bbuffer = d;
  recvs = es;
  x = 0;
  rplen = rplen;
  datalen = datalen;
}

fill_more :
    (f : ℕ) (w : Kws) (n k : ℕ) (d : List ℕ) (es : List Recv)
    → 0 < k
    → string_read w (in_bbuffer (w.body + w.rplen)) (suc n + 1) true
      ≡ done (pos k, record w { bbuffer = d; recvs = es; x = 0 })
    → (l : ℤ) × (fill (suc f) w (suc n) ≡ fill f (filled w d es (w.rplen + k) l) (suc n - k))
unfolding fill
fill_more f w n zero d es h r = absurd (omega arith)
fill_more f w n (suc j) d es h r =
    let e : n - j ≡ suc n - suc j = omega arith in
    let l = more_data w.datalen (suc j) in
    (l, rw r (ap (fill f (filled w d es (w.rplen + suc j) l)) e))

-- All the bytes that are left to read are in the body.
pub record Filled (w : Kws) (s : List ℕ) (n : ℕ) (run : Run (Bool × Kws)) : Type 0 where
  pub d : List ℕ
  pub left : List Recv
  pub datalen : ℤ
  pub result : run ≡ done (true, filled w d left (w.rplen + n) datalen)
  pub feeds : Feeds left (drop n s)
  pub same_size : length d ≡ length w.bbuffer
  pub front : take (w.body + w.rplen + n) d ≡ take (w.body + w.rplen) w.bbuffer ++ take n s

fill_none :
    (f : ℕ) (w : Kws)
    → w.x ≡ 0
    → fill f w zero ≡ done (true, filled w w.bbuffer w.recvs (w.rplen + 0) w.datalen)
unfolding fill
fill_none f w e = ap₂ (λ v u. done (true, record w { x = v; rplen = u })) e (omega arith)

pub fill-Filled :
    (f : ℕ) (w : Kws) (s : List ℕ) (n : ℕ)
    → Waits w s
    → n ≤ length s
    → n < 2 ^ 32
    → n ≤ f
    → w.body + w.rplen + n < length w.bbuffer
    → Filled w s n (fill f w n)
fill-Filled f w s zero q there int_n enough room = record {
  d = w.bbuffer;
  left = w.recvs;
  datalen = w.datalen;
  result = fill_none f w (q.at_rest);
  feeds = q.feeds;
  same_size = refl;
  front =
      ap (λ v. take v w.bbuffer) (omega arith)
      ∙ sym (append-nil (take (w.body + w.rplen) w.bbuffer));
}
fill-Filled zero w s (suc m) q there int_n enough room = absurd (omega arith)
fill-Filled (suc f) w s (suc m) q there int_n enough room =
    let i = w.body + w.rplen in
    let r =
      string_read-Fetched w (in_bbuffer i) s (suc m) q room true (omega arith)
        (omega (arith, int_n)) (omega arith) in
    let k = r.count in
    let e2 : suc m + 1 ≡ suc (suc m) = omega arith in
    let (l, e) =
      fill_more f w m k r.d r.left (r.more)
        (ap (λ v. string_read w (in_bbuffer i) v true) e2 ∙ r.result) in
    let w1 = filled w r.d r.left (w.rplen + k) l in
    let rest = suc m - k in
    let bound : k ≤ suc m = r.within in
    let e3 : w.rplen + k + rest ≡ w.rplen + suc m = omega (arith, bound) in
    let e4 : w.body + w.rplen + suc m ≡ w.body + (w.rplen + k) + rest = omega (arith, bound) in
    let e5 : w.body + (w.rplen + k) ≡ i + k = omega arith in
    let c =
      fill-Filled f w1 (drop k s) rest
        (record { feeds = r.feeds; at_rest = refl; nothing_over = q.nothing_over })
        (omega (arith, length-drop k s)) (omega (arith, int_n)) (omega (arith, r.more))
        (omega (arith, r.same_size, bound, room)) in
    record {
      d = c.d;
      left = c.left;
      datalen = c.datalen;
      result = e ∙ c.result ∙ ap (λ v. done (true, filled w c.d c.left v c.datalen)) e3;
      feeds = subst (Feeds c.left) (drop-drop s k rest (suc m) (omega (arith, bound))) (c.feeds);
      same_size = c.same_size ∙ r.same_size;
      front =
          ap (λ v. take v c.d) e4
          ∙ c.front
          ∙ ap (λ v. take v r.d ++ take rest (drop k s)) e5
          ∙ ap (λ u. u ++ take rest (drop k s)) (r.front)
          ∙ append_assoc (take i w.bbuffer) (take k s) (take rest (drop k s))
          ∙ ap (λ u. take i w.bbuffer ++ u) (take-join s k rest (suc m) (omega (arith, bound)));
    }
