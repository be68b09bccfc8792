-- ===== src/Rwl/Invariant.antt =====
-- What holds of a reader-writer lock and its threads whatever steps they took.
use libks.Base.{
  ℕ, zero, suc, ◌≡◌, ◌≢◌, ◌≤◌, ◌<◌, refl, sym, ap, ◌∙◌, ◌⊎◌, inl, inr, Bool-cases, Option, none,
  some, arith, ◌==◌, ==_iff, ==_false,
}
use mathlib.Core.Path.{subst}
use libks.Rwl.Posix.{Pthread}
use libks.Rwl.{Rwl}
use libks.Rwl.System.{Pc, idle, wants, got, leaving, set_pc, System, init}

-- A number that is not the identifier of one of `n` threads.
abbrev pub Outside : ℕ → ℕ → Type 0
Outside n u = (u ≡ 0) ⊎ (n < u)

Outside-not : (n u t : ℕ) → Outside n u → 0 < t → t ≤ n → u ≢ t
Outside-not n u t (inl z) real under e = omega (arith, z, e, real)
Outside-not n u t (inr over) real under e = omega (arith, over, e, under)

module _ (P : Pthread) where
  abbrev pub writer_of : Rwl P.Lock → Option ℕ
  writer_of s = P.writer s.rwlock

  abbrev pub held_of : Rwl P.Lock → ℕ → ℕ
  held_of s = P.held s.rwlock

  -- What a thread finds at each place.
  unfoldable pub Fits : Rwl P.Lock → ℕ → Pc → Type 0
  Fits s t (idle zero) = (writer_of s ≢ some t) × (s.write_locker ≢ t)
  Fits s t (idle (suc d)) = (writer_of s ≡ some t) × (s.write_locker ≡ t) × (s.wlc ≡ d)
  Fits s t wants = (writer_of s ≢ some t) × (s.write_locker ≢ t) × (held_of s t ≡ 0)
  Fits s t got = (writer_of s ≡ some t) × (s.write_locker ≡ 0) × (s.wlc ≡ 0)
  Fits s t leaving = (writer_of s ≡ some t) × (s.write_locker ≡ 0) × (s.wlc ≡ 0)

  pub record IsSound (n : ℕ) (s : System P) : Type 0 where
    pub fits : (t : ℕ) → 0 < t → Fits s.rwl t (s.pc t)
    pub alone : (t u : ℕ) → writer_of s.rwl ≡ some t → held_of s.rwl u ≡ 0
    pub nobody : writer_of s.rwl ≡ none → (s.rwl.write_locker ≡ 0) × (s.rwl.wlc ≡ 0)
    pub known : (u : ℕ) → Outside n u → (held_of s.rwl u ≡ 0) × (writer_of s.rwl ≢ some u)

  -- A thread that does not write, and does not come to write, fits as before.
  stays_out :
      (s r : Rwl P.Lock) (u : ℕ) (p : Pc)
      → Fits s u p
      → writer_of s ≢ some u
      → writer_of r ≢ some u
      → r.write_locker ≢ u
      → (held_of s u ≡ 0 → held_of r u ≡ 0)
      → Fits r u p
  unfolding Fits
  stays_out s r u (idle zero) f w w' l h = (w', l)
  stays_out s r u (idle (suc d)) f w w' l h = absurd (w f.0)
  stays_out s r u wants f w w' l h = (w', l, h f.2)
  stays_out s r u got f w w' l h = absurd (w f.0)
  stays_out s r u leaving f w w' l h = absurd (w f.0)

  pub set-Fits :
      (r : Rwl P.Lock) (pc : ℕ → Pc) (t : ℕ) (p : Pc)
      → Fits r t p
      → ((u : ℕ) → 0 < u → u ≢ t → Fits r u (pc u))
      → (u : ℕ) → 0 < u
      → Fits r u (set_pc pc t p u)
  set-Fits r pc t p fit others u h = elim (Bool-cases (u == t)) [
    | inl e ↦ rw (e, (==_iff u t).0 e) fit
    | inr e ↦ rw e (others u h (==_false u t e))
  ]

  same-Fits :
      (r : Rwl P.Lock) (pc : ℕ → Pc) (t : ℕ)
      → Fits r t (pc t)
      → ((u : ℕ) → 0 < u → u ≢ t → Fits r u (pc u))
      → (u : ℕ) → 0 < u
      → Fits r u (pc u)
  same-Fits r pc t fit others u h = elim (Bool-cases (u == t)) [
    | inl e ↦ subst (λ v. Fits r v (pc v)) (sym ((==_iff u t).0 e)) fit
    | inr e ↦ others u h (==_false u t e)
  ]

  pub none_not : (w : Option ℕ) (t : ℕ) → w ≡ none → w ≢ some t
  none_not w t e h = ground (arith, e, h)

  pub some_not : (w : Option ℕ) (t u : ℕ) → w ≡ some t → u ≢ t → w ≢ some u
  some_not w t u e d h = ground (arith, e, h, d)

  pub init-IsSound : (n : ℕ) → IsSound n (init P)
  unfolding Fits
  init-IsSound n = record {
    fits = λ t h. (none_not (P.writer P.fresh) t (P.fresh_free.0), λ e. ground arith);
    alone = λ t u h. P.fresh_free.1 u;
    nobody = λ e. (refl, refl);
    known = λ u o. (P.fresh_free.1 u, none_not (P.writer P.fresh) u (P.fresh_free.0));
  }

  -- A thread between its calls is not the writer where none is.
  idle-Fits :
      (s r : Rwl P.Lock) (t d : ℕ)
      → Fits s t (idle d)
      → writer_of s ≡ none
      → writer_of r ≡ none
      → r.write_locker ≡ s.write_locker
      → Fits r t (idle d)
  unfolding Fits
  idle-Fits s r t zero f before after same =
      (none_not (writer_of r) t after, λ e. f.1 (sym same ∙ e))
  idle-Fits s r t (suc d) f before after same = absurd (none_not (writer_of s) t before f.0)

  pub unowned : (w u : ℕ) → w ≡ 0 → 0 < u → w ≢ u
  unowned w u z h e = omega arith

  -- A read lock is given to thread `t` or taken back, while none writes.
  pub readers-IsSound :
      (n : ℕ) (s : System P) (t d : ℕ) (k : P.Lock)
      → 0 < t
      → t ≤ n
      → s.pc t ≡ idle d
      → writer_of s.rwl ≡ none
      → P.writer k ≡ none
      → ((u : ℕ) → u ≢ t → P.held k u ≡ held_of s.rwl u)
      → IsSound n s
      → IsSound n (record s { rwl = record (s.rwl) { rwlock = k } })
  readers-IsSound n s t d k real under at before after kept sound =
      let r = record (s.rwl) { rwlock = k } in
      record {
        fits =
            same-Fits r (s.pc) t
              (subst (Fits r t) (sym at) (
                idle-Fits (s.rwl) r t d (subst (Fits (s.rwl) t) at (sound.fits t real)) before after
                  refl))
              (λ u h other.
                stays_out (s.rwl) r u (s.pc u) (sound.fits u h)
                  (none_not (writer_of s.rwl) u before) (none_not (P.writer k) u after)
                  (unowned (s.rwl.write_locker) u ((sound.nobody before).0) h)
                  (λ e. kept u other ∙ e));
        alone = λ v u h. absurd (none_not (P.writer k) v after h);
        nobody = λ e. sound.nobody before;
        known = λ u o. (
          kept u (Outside-not n u t o real under) ∙ (sound.known u o).0,
          none_not (P.writer k) u after,
        );
      }

  -- Thread `t` comes to write, goes on writing or stops, while no other writes.
  pub writer-IsSound :
      (n : ℕ) (s : System P) (t : ℕ) (r : Rwl P.Lock) (p : Pc)
      → 0 < t
      → t ≤ n
      → ((u : ℕ) → u ≢ t → writer_of s.rwl ≢ some u)
      → ((u : ℕ) → u ≢ t → writer_of r ≢ some u)
      → ((u : ℕ) → 0 < u → u ≢ t → r.write_locker ≢ u)
      → ((u : ℕ) → held_of s.rwl u ≡ 0 → held_of r u ≡ 0)
      → (writer_of r ≡ some t → (u : ℕ) → held_of r u ≡ 0)
      → (writer_of r ≡ none → (r.write_locker ≡ 0) × (r.wlc ≡ 0))
      → Fits r t p
      → IsSound n s
      → IsSound n (record { rwl = r; pc = set_pc s.pc t p })
  writer-IsSound n s t r p real under before after unowned kept alone nobody fit sound = record {
    fits = set-Fits r (s.pc) t p fit (λ u h other.
        stays_out (s.rwl) r u (s.pc u) (sound.fits u h) (before u other) (after u other)
          (unowned u h other) (kept u));
    alone = λ v u h. elim (Bool-cases (v == t)) [
      | inl e ↦ alone (h ∙ ap some ((==_iff v t).0 e)) u
      | inr e ↦ absurd (after v (==_false v t e) h)
    ];
    nobody = nobody;
    known = λ u o. (kept u ((sound.known u o).0), after u (Outside-not n u t o real under));
  }
