-- ===== src/Rwl/Safety.antt =====
-- Every step on a reader-writer lock of src/ks_mutex.c keeps its invariant, so that a thread that
-- writes is alone.
use mathlib.Core.Path.{subst}
use libks.Base.{
  ℕ, zero, suc, ◌^◌, ◌≡◌, ◌≢◌, ◌≤◌, ◌<◌, refl, sym, ap, ◌∙◌, ◌⊎◌, inl, inr, true, false, some,
  arith, ==_iff, ==_false,
}
use libks.Rwl.Posix.{Pthread}
use libks.Rwl.{Rwl, is_me, again, own, give_up, is_inner, inner, disown}
use libks.Rwl.System.{
  Pc, idle, wants, got, leaving, set_pc, System, init, StepOf, reads, tries_read, stops_reading,
  enters_again, asks, acquires, tries_write, owns, leaves_inner, disowns, gives_up, Steps, here,
  next,
}
use libks.Rwl.Invariant.{
  writer_of, held_of, Fits, set-Fits, IsSound, none_not, some_not, unowned, init-IsSound,
  writer-IsSound,
}
use libks.Rwl.Calls.{
  fit_at, read_lock-IsSound, try_read_lock-IsSound, read_unlock-IsSound, acquire-IsSound,
  try_acquire-IsSound,
}

module _ (P : Pthread) (n : ℕ) (s : System P) (t : ℕ) (real : 0 < t) (under : t ≤ n)
    (sound : IsSound P n s) where
  -- A step of the writer, which it stays.
  writing-IsSound :
      (r : Rwl P.Lock) (p : Pc)
      → writer_of P s.rwl ≡ some t
      → r.rwlock ≡ s.rwl.rwlock
      → (r.write_locker ≡ t) ⊎ (r.write_locker ≡ 0)
      → Fits P r t p
      → IsSound P n (record { rwl = r; pc = set_pc s.pc t p })
  writing-IsSound r p mine same locker fit =
      let still = ap (λ l. P.writer l) same ∙ mine in
      writer-IsSound P n s t r p real under
        (λ u other. some_not P (writer_of P (s.rwl)) t u mine other)
        (λ u other. some_not P (writer_of P r) t u still other)
        (λ u h other e. elim locker [
          | inl a ↦ other (sym e ∙ a)
          | inr a ↦ unowned P (r.write_locker) u a h e
        ])
        (λ u e. ap (λ l. P.held l u) same ∙ e)
        (λ e u. ap (λ l. P.held l u) same ∙ sound.alone t u mine)
        (λ e. absurd (none_not P (writer_of P r) t e still)) fit sound

  own-IsSound :
      s.pc t ≡ got → IsSound P n (record { rwl = own P t s.rwl; pc = set_pc s.pc t (idle 1) })
  unfolding Fits
  own-IsSound at =
      let fit = fit_at P n s t real under sound got at in
      writing-IsSound (own P t (s.rwl)) (idle 1) (fit.0) refl (inl refl) (fit.0, refl, fit.2)

  again-IsSound :
      (d : ℕ)
      → s.pc t ≡ idle d
      → d < 2 ^ 32
      → is_me P t s.rwl ≡ true
      → IsSound P n (record { rwl = again P s.rwl; pc = set_pc s.pc t (idle (suc d)) })
  unfolding Fits
  again-IsSound zero at small me =
      absurd
        ((fit_at P n s t real under sound (idle 0) at).1 ((==_iff (s.rwl.write_locker) t).0 me))
  again-IsSound (suc d) at small me =
      let fit = fit_at P n s t real under sound (idle (suc d)) at in
      writing-IsSound (again P (s.rwl)) (idle (suc (suc d))) (fit.0) refl (inl (fit.1))
        (fit.0, fit.1, omega (arith, fit.2, small))

  unlocked : (d : ℕ) → s.pc t ≡ idle d → is_me P t s.rwl ≡ false → writer_of P s.rwl ≢ some t
  unfolding Fits
  unlocked zero at me = (fit_at P n s t real under sound (idle 0) at).0
  unlocked (suc d) at me =
      let fit = fit_at P n s t real under sound (idle (suc d)) at in
      absurd (ground (arith, fit.1, me))

  asks-IsSound :
      (d : ℕ)
      → s.pc t ≡ idle d
      → held_of P s.rwl t ≡ 0
      → is_me P t s.rwl ≡ false
      → IsSound P n (record s { pc = set_pc s.pc t wants })
  unfolding Fits
  asks-IsSound d at none_held me = record {
    fits =
        set-Fits P (s.rwl) (s.pc) t wants
          (unlocked d at me, ==_false (s.rwl.write_locker) t me, none_held)
          (λ u h other. sound.fits u h);
    alone = sound.alone;
    nobody = sound.nobody;
    known = sound.known;
  }

  inner-IsSound :
      (d : ℕ)
      → s.pc t ≡ idle (suc d)
      → is_inner P t s.rwl ≡ true
      → IsSound P n (record { rwl = inner P s.rwl; pc = set_pc s.pc t (idle d) })
  unfolding Fits
  inner-IsSound zero at more =
      let fit = fit_at P n s t real under sound (idle 1) at in absurd (ground (arith, fit.2, more))
  inner-IsSound (suc d) at more =
      let fit = fit_at P n s t real under sound (idle (suc (suc d))) at in
      writing-IsSound (inner P (s.rwl)) (idle (suc d)) (fit.0) refl (inl (fit.1))
        (fit.0, fit.1, omega (arith, fit.2))

  disown-IsSound :
      (d : ℕ)
      → s.pc t ≡ idle (suc d)
      → is_inner P t s.rwl ≡ false
      → IsSound P n (record { rwl = disown P s.rwl; pc = set_pc s.pc t leaving })
  unfolding Fits
  disown-IsSound d at last =
      let fit = fit_at P n s t real under sound (idle (suc d)) at in
      writing-IsSound (disown P (s.rwl)) leaving (fit.0) refl (inr refl)
        (fit.0, refl, ground (arith, fit.1, last))

  give_up-IsSound :
      s.pc t ≡ leaving
      → IsSound P n (record { rwl = give_up P t s.rwl; pc = set_pc s.pc t (idle 0) })
  unfolding Fits
  give_up-IsSound at =
      let fit = fit_at P n s t real under sound leaving at in
      let law = P.unlock_writer t (s.rwl.rwlock) (fit.0) in
      let r = give_up P t (s.rwl) in
      writer-IsSound P n s t r (idle 0) real under
        (λ u other. some_not P (writer_of P (s.rwl)) t u (fit.0) other)
        (λ u other. none_not P (writer_of P r) u (law.0))
        (λ u h other. unowned P (r.write_locker) u (fit.1) h) (λ u e. law.1 u ∙ e)
        (λ e u. law.1 u ∙ sound.alone t u (fit.0)) (λ e. (fit.1, fit.2))
        (none_not P (writer_of P r) t (law.0), unowned P (r.write_locker) t (fit.1) real) sound

  pub step-IsSound : (r : System P) → StepOf P t s r → IsSound P n r
  step-IsSound r (reads q at room e) = read_lock-IsSound P n s t real under sound q at room e
  step-IsSound r (tries_read d at) = try_read_lock-IsSound P n s t real under sound d at
  step-IsSound r (stops_reading d at h) = read_unlock-IsSound P n s t real under sound d at h
  step-IsSound r (enters_again d at small me) = again-IsSound d at small me
  step-IsSound r (asks d at h me) = asks-IsSound d at h me
  step-IsSound r (acquires q at e) = acquire-IsSound P n s t real under sound q at e
  step-IsSound r (tries_write d q at me e) = try_acquire-IsSound P n s t real under sound q e
  step-IsSound r (owns at) = own-IsSound at
  step-IsSound r (leaves_inner d at more) = inner-IsSound d at more
  step-IsSound r (disowns d at last) = disown-IsSound d at last
  step-IsSound r (gives_up at) = give_up-IsSound at

module _ (P : Pthread) where
  pub Steps-IsSound : (n : ℕ) (s : System P) → Steps P n (init P) s → IsSound P n s
  Steps-IsSound n s here = init-IsSound P n
  Steps-IsSound n s (next t {u} real under path step) =
      step-IsSound P n u t real under (Steps-IsSound n u path) s step

  -- What another thread is doing while thread `t` writes.
  kept_out :
      (s : System P) (t u : ℕ) (p : Pc)
      → u ≢ t
      → writer_of P s.rwl ≡ some t
      → Fits P s.rwl u p
      → (p ≡ idle 0) ⊎ (p ≡ wants)
  unfolding Fits
  kept_out s t u (idle zero) other w fit = inl refl
  kept_out s t u (idle (suc d)) other w fit =
      absurd (some_not P (writer_of P (s.rwl)) t u w other (fit.0))
  kept_out s t u wants other w fit = inr refl
  kept_out s t u got other w fit = absurd (some_not P (writer_of P (s.rwl)) t u w other (fit.0))
  kept_out s t u leaving other w fit = absurd (some_not P (writer_of P (s.rwl)) t u w other (fit.0))

  -- Whatever steps `n` threads took on a new reader-writer lock: where one of them has a write lock
  -- `d + 1` times, `wlc` is `d` and the lock is its own, no thread has a read lock, and every other
  -- thread is between its calls without a write lock or waits for one. The threads give back what
  -- they have only, and ask for no read lock while they write and no write lock while they read.
  pub writer_alone :
      (n : ℕ) (s : System P) (t u v d : ℕ)
      → Steps P n (init P) s
      → 0 < t
      → 0 < u
      → u ≢ t
      → s.pc t ≡ idle (suc d)
      → (s.rwl.write_locker ≡ t)
        × (s.rwl.wlc ≡ d)
        × (held_of P s.rwl v ≡ 0)
        × ((s.pc u ≡ idle 0) ⊎ (s.pc u ≡ wants))
  unfolding Fits
  writer_alone n s t u v d path real real_u other at =
      let sound = Steps-IsSound n s path in
      let fit = subst (Fits P (s.rwl) t) at (sound.fits t real) in
      (
        fit.1,
        fit.2,
        sound.alone t v (fit.0),
        kept_out s t u (s.pc u) other (fit.0) (sound.fits u real_u),
      )
