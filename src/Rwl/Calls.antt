-- ===== src/Rwl/Calls.antt =====
-- The steps that change the lock of POSIX below a reader-writer lock of src/ks_mutex.c, up to the end
-- of a write, keep the invariant.
use mathlib.Core.Path.{subst}
use libks.Base.{ℕ, ◌≡◌, ◌≤◌, ◌<◌, refl, sym, ◌∙◌, inl, inr, false, none, some, Option-cases, arith}
use libks.Rwl.Posix.{
  Pthread, granted, Answer-cases, granted-inj, granted_not, some-inj, none_not_some,
}
use libks.Rwl.{Status, Rwl, read_lock, try_read_lock, acquire, try_acquire, read_unlock}
use libks.Rwl.System.{Pc, idle, wants, got, set_pc, System}
use libks.Rwl.Invariant.{
  writer_of, held_of, Fits, IsSound, none_not, some_not, unowned, readers-IsSound, writer-IsSound,
}

module _ (P : Pthread) (n : ℕ) (s : System P) (t : ℕ) (real : 0 < t) (under : t ≤ n)
    (sound : IsSound P n s) where
  -- What the thread finds where it stands.
  pub fit_at : (p : Pc) → s.pc t ≡ p → Fits P s.rwl t p
  fit_at p at = subst (Fits P (s.rwl) t) at (sound.fits t real)

  pub read_lock-IsSound :
      (r : Status × Rwl P.Lock)
      → s.pc t ≡ idle 0
      → P.full s.rwl.rwlock ≡ false
      → read_lock P t s.rwl ≡ granted r
      → IsSound P n (record s { rwl = r.1 })
  unfolding read_lock Fits
  read_lock-IsSound r at room e = elim (Answer-cases (P.rdlock t (s.rwl.rwlock))) [
    | inl (l, g) ↦
        let is : (Status.success, record (s.rwl) { rwlock = l }) ≡ r =
          granted-inj _ r (sym (rw (read_lock, g) refl) ∙ e) in
        let law = P.rdlock_granted t (s.rwl.rwlock) l g in
        subst (λ q. IsSound P n (record s { rwl = q.1 })) is
          (readers-IsSound P n s t 0 l real under at (law.0) (law.1) (law.3) sound)
    | inr (inl g) ↦ elim (P.rdlock_refused t (s.rwl.rwlock) g) [
      | inl mine ↦ absurd ((fit_at (idle 0) at).0 mine)
      | inr full ↦ absurd (ground (arith, full, room))
    ]
    | inr (inr g) ↦ absurd (granted_not r (sym (rw (read_lock, g) refl) ∙ e))
  ]

  pub try_read_lock-IsSound :
      (d : ℕ) → s.pc t ≡ idle d → IsSound P n (record s { rwl = (try_read_lock P t s.rwl).1 })
  unfolding try_read_lock
  try_read_lock-IsSound d at = elim (Option-cases (P.tryrdlock t (s.rwl.rwlock))) [
    | inr (l, g) ↦
        let law = P.tryrdlock_granted t (s.rwl.rwlock) l g in
        rw (try_read_lock, g)
          (readers-IsSound P n s t d l real under at (law.0) (law.1) (law.3) sound)
    | inl g ↦ rw (try_read_lock, g) sound
  ]

  -- A thread with a read lock knows that none writes.
  unwritten : 0 < held_of P s.rwl t → writer_of P s.rwl ≡ none
  unwritten h = elim (Option-cases (writer_of P (s.rwl))) [
    | inr (w, e) ↦ absurd (omega (arith, sound.alone w t e, h))
    | inl e ↦ e
  ]

  pub read_unlock-IsSound :
      (d : ℕ)
      → s.pc t ≡ idle d
      → 0 < held_of P s.rwl t
      → IsSound P n (record s { rwl = (read_unlock P t s.rwl).1 })
  unfolding read_unlock
  read_unlock-IsSound d at h =
      let free = unwritten h in
      let law = P.unlock_reader t (s.rwl.rwlock) free h in
      readers-IsSound P n s t d (P.unlock t (s.rwl.rwlock)) real under at free (law.0) (law.2) sound

  -- The lock of POSIX is given to thread `t` for writing.
  taken-IsSound :
      (l : P.Lock)
      → writer_of P s.rwl ≡ none
      → P.writer l ≡ some t
      → ((u : ℕ) → P.held l u ≡ 0)
      → IsSound P n (record { rwl = record s.rwl { rwlock = l }; pc = set_pc s.pc t got })
  unfolding Fits
  taken-IsSound l free mine empty =
      let zero_fields = sound.nobody free in
      writer-IsSound P n s t (record (s.rwl) { rwlock = l }) got real under
        (λ u other. none_not P (writer_of P (s.rwl)) u free)
        (λ u other. some_not P (P.writer l) t u mine other)
        (λ u h other. unowned P (s.rwl.write_locker) u (zero_fields.0) h) (λ u e. empty u)
        (λ e u. empty u) (λ e. absurd (none_not P (P.writer l) t e mine))
        (mine, zero_fields.0, zero_fields.1) sound

  pub acquire-IsSound :
      (r : Rwl P.Lock)
      → s.pc t ≡ wants
      → acquire P t s.rwl ≡ granted r
      → IsSound P n (record { rwl = r; pc = set_pc s.pc t got })
  unfolding acquire Fits
  acquire-IsSound r at e = elim (Answer-cases (P.wrlock t (s.rwl.rwlock))) [
    | inl (l, g) ↦
        let is : record (s.rwl) { rwlock = l } ≡ r =
          granted-inj _ r (sym (rw (acquire, g) refl) ∙ e) in
        let law = P.wrlock_granted t (s.rwl.rwlock) l g in
        subst (λ q. IsSound P n (record { rwl = q; pc = set_pc s.pc t got })) is
          (taken-IsSound l (law.0) (law.2) (law.3))
    | inr (inl g) ↦
        let fit = fit_at wants at in
        elim (P.wrlock_refused t (s.rwl.rwlock) g) [
          | inl mine ↦ absurd (fit.0 mine)
          | inr reads ↦ absurd (omega (arith, fit.2, reads))
        ]
    | inr (inr g) ↦ absurd (granted_not r (sym (rw (acquire, g) refl) ∙ e))
  ]

  pub try_acquire-IsSound :
      (r : Rwl P.Lock)
      → try_acquire P t s.rwl ≡ some r
      → IsSound P n (record { rwl = r; pc = set_pc s.pc t got })
  unfolding try_acquire
  try_acquire-IsSound r e = elim (Option-cases (P.trywrlock t (s.rwl.rwlock))) [
    | inr (l, g) ↦
        let is : some (record (s.rwl) { rwlock = l }) ≡ some r =
          sym (rw (try_acquire, g) refl) ∙ e in
        let law = P.trywrlock_granted t (s.rwl.rwlock) l g in
        subst (λ q. IsSound P n (record { rwl = q; pc = set_pc s.pc t got })) (some-inj _ r is)
          (taken-IsSound l (law.0) (law.2) (law.3))
    | inl g ↦ absurd (none_not_some r (sym (rw (try_acquire, g) refl) ∙ e))
  ]
