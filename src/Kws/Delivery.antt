-- ===== src/Kws/Delivery.antt =====
-- What `kws_raw_write` and `kws_write_frame` of src/kws.c send, whatever the socket answers.
use mathlib.Core.Path.{subst}
use libks.Base.{
  ℕ, zero, suc, ◌+◌, ◌≡◌, ◌≤◌, ◌<◌, refl, sym, ap, ◌∙◌, ◌⊎◌, inl, inr, Bool, true, false,
  Bool-cases, ◌&&◌, List, [], ◌∷◌, ◌++◌, arith, length, take, drop, min, ltb, lt→ltb, ◌==◌,
  if◌then◌else◌, length-drop, append_assoc, append-nil, take-join, ℤ, pos, negsuc,
}
use libks.Kws.{Kws, Sent, took, busy, broken, asked}
use libks.Kws.Stream.{asked-le}
use libks.Kws.Send.{send_loop, raw_write, frame, write_frame}

-- Some of the bytes went out, from the first one on, and were counted.
pub record Went (w : Kws) (rest : List ℕ) (wrote : ℕ) (a : ℤ × ℕ × Kws) : Type 0 where
  pub n : ℕ
  pub within : n ≤ length rest
  pub went : a.2.sent ≡ w.sent ++ take n rest
  pub counted : a.1 ≡ wrote + n

none-Went :
    (w : Kws) (rest : List ℕ) (wrote : ℕ) (r : ℤ) (es : List Sent)
    → Went w rest wrote (r, wrote, record w { sends = es })
none-Went w rest wrote r es = record {
  n = 0;
  within = omega arith;
  went = sym (append-nil w.sent);
  counted = omega arith;
}

either-Went :
    (w : Kws) (rest : List ℕ) (wrote : ℕ) (b : Bool) (again last : ℤ × ℕ × Kws)
    → Went w rest wrote again
    → Went w rest wrote last
    → Went w rest wrote (if b then again else last)
either-Went w rest wrote true again last p q = p
either-Went w rest wrote false again last p q = q

send_loop-Went :
    (sanity : ℕ) (w : Kws) (es : List Sent) (rest : List ℕ) (wrote : ℕ)
    → Went w rest wrote (send_loop sanity w es rest wrote)
unfolding send_loop
send_loop-Went zero w es rest wrote = none-Went w rest wrote (negsuc 0) es
send_loop-Went (suc sanity) w [] rest wrote = none-Went w rest wrote (negsuc 0) []
send_loop-Went (suc sanity) w (broken ∷ es) rest wrote = none-Went w rest wrote (negsuc 0) es
send_loop-Went (suc sanity) w (busy ∷ es) rest wrote =
    either-Went w rest wrote (ltb 0 sanity && ltb 0 (length rest))
      (send_loop sanity w es rest wrote) (negsuc 0, wrote, record w { sends = es })
      (send_loop-Went sanity w es rest wrote) (none-Went w rest wrote (negsuc 0) es)
send_loop-Went (suc sanity) w (took k ∷ es) rest wrote =
    let m = min k (asked (length rest)) in
    let few : m ≤ length rest = omega (arith, asked-le (length rest)) in
    let w' = record w { sent = w.sent ++ take m rest } in
    let again = send_loop sanity w' es (drop m rest) (wrote + m) in
    let r = send_loop-Went sanity w' es (drop m rest) (wrote + m) in
    either-Went w rest wrote (ltb 0 sanity && ltb m (length rest)) again
      (pos m, wrote + m, record w' { sends = es })
      (record {
        n = m + r.n;
        within = omega (arith, few, r.within, length-drop m rest);
        went =
            r.went
            ∙ append_assoc w.sent (take m rest) (take r.n (drop m rest))
            ∙ ap (λ u. w.sent ++ u) (take-join rest m r.n (m + r.n) refl);
        counted = omega (arith, r.counted);
      })
      (record { n = m; within = few; went = refl; counted = refl })

-- Some of the bytes went out, and their number is returned, or an error.
pub record Wrote (w : Kws) (bytes : List ℕ) (a : ℤ × Kws) : Type 0 where
  pub n : ℕ
  pub within : n ≤ length bytes
  pub went : a.1.sent ≡ w.sent ++ take n bytes
  pub returned : (a.0 ≡ pos n) ⊎ ((k : ℕ) × (a.0 ≡ negsuc k))

Wrote-of :
    (w : Kws) (bytes : List ℕ) (r : ℤ) (wrote : ℕ) (w' : Kws)
    → Went w bytes 0 (r, wrote, w')
    → Wrote w bytes ((elim r [ pos k ↦ pos wrote | negsuc k ↦ negsuc k ]), w')
Wrote-of w bytes (pos k) wrote w' p = record {
  n = p.n;
  within = p.within;
  went = p.went;
  returned = inl (ap pos (p.counted ∙ omega arith));
}
Wrote-of w bytes (negsuc k) wrote w' p = record {
  n = p.n;
  within = p.within;
  went = p.went;
  returned = inr (k, refl);
}

pub raw_write_lem : (w : Kws) (bytes : List ℕ) → Wrote w bytes (raw_write w bytes)
unfolding raw_write
raw_write_lem w bytes =
    let a = send_loop 200 w w.sends bytes 0 in
    Wrote-of w bytes (a.0) (a.1) (a.2) (send_loop-Went 200 w w.sends bytes 0)

-- What `kws_write_frame` returns says how much of the frame `f` went out.
pub record Framed (w : Kws) (bytes f : List ℕ) (a : ℤ × Kws) : Type 0 where
  pub n : ℕ
  pub within : n ≤ length f
  pub went : a.1.sent ≡ w.sent ++ take n f
  pub returned :
      ((n ≡ length f) × (a.0 ≡ pos (length bytes)))
      ⊎ (((n < length f) × (a.0 ≡ pos n)) ⊎ ((k : ℕ) × (a.0 ≡ negsuc k)))

some_frame :
    (dontmask : Bool) (key : List ℕ) (oc : ℕ) (bytes : List ℕ)
    → 0 < length (frame dontmask key oc bytes)
unfolding frame
some_frame true key oc bytes = omega arith
some_frame false key oc bytes = omega arith

write_frame_steps :
    (w : Kws) (key : List ℕ) (oc : ℕ) (bytes : List ℕ)
    → w.down ≡ false
    → write_frame w key oc bytes ≡ (
        let f = frame w.dontmask key oc bytes in
        let a = raw_write w f in
        (
          (elim (a.0) [
            | negsuc k ↦ negsuc k
            | pos n ↦ if n == length f && ltb 0 n then pos (length bytes) else pos n
          ]),
          a.1,
        ))
unfolding write_frame
write_frame_steps w key oc bytes up = rw up refl

answer_of :
    (n size len : ℕ) (r : ℤ)
    → n ≤ size
    → 0 < size
    → (r ≡ pos n) ⊎ ((k : ℕ) × (r ≡ negsuc k))
    → let v : ℤ = elim r [
      | negsuc k ↦ negsuc k
      | pos x ↦ if x == size && ltb 0 x then pos len else pos x
    ] in
      ((n ≡ size) × (v ≡ pos len)) ⊎ (((n < size) × (v ≡ pos n)) ⊎ ((k : ℕ) × (v ≡ negsuc k)))
answer_of n size len r h p (inr (k, e)) = inr (inr (k, rw e refl))
answer_of n size len r h p (inl e) = elim (Bool-cases (n == size)) [
  | inl q ↦
      let same : n ≡ size = ground arith in
      let some_n : ltb 0 n ≡ true = lt→ltb 0 n (omega (arith, same)) in
      inl (same, rw (e, q, some_n) refl)
  | inr q ↦ inr (inl (ground arith, rw (e, q) refl))
]

module _ (w : Kws) (key : List ℕ) (oc : ℕ) (bytes : List ℕ) where
  Framed-of :
      (f : List ℕ) (r : ℤ) (w' : Kws)
      → 0 < length f
      → Wrote w f (r, w')
      → Framed w bytes f (
        (elim r [
          | negsuc k ↦ negsuc k
          | pos n ↦ if n == length f && ltb 0 n then pos (length bytes) else pos n
        ]),
        w',
      )
  Framed-of f r w' some_f p = record {
    n = p.n;
    within = p.within;
    went = p.went;
    returned = answer_of p.n (length f) (length bytes) r (p.within) some_f (p.returned);
  }

  -- On a connection that is not down, `kws_write_frame` sends the frame from its first byte on, whatever
  -- the socket answers: it returns the number of bytes of the message where all of the frame went
  -- out, the number of bytes sent where some are missing, or an error.
  pub write_frame_lem :
      w.down ≡ false → Framed w bytes (frame w.dontmask key oc bytes) (write_frame w key oc bytes)
  write_frame_lem up =
      let f = frame w.dontmask key oc bytes in
      let a = raw_write w f in
      subst (Framed w bytes f) (sym (write_frame_steps w key oc bytes up))
        (Framed-of f (a.0) (a.1) (some_frame w.dontmask key oc bytes) (raw_write_lem w f))
