-- ===== src/Rwl/Progress.antt =====
-- A thread that waits in `ks_rwl_write_lock` of src/ks_mutex.c can have the lock once the others gave
-- theirs back.
use mathlib.Core.Path.{subst}
use libks.Base.{
  ℕ, zero, suc, ◌≡◌, ◌≤◌, ◌<◌, refl, sym, ap, ◌∙◌, ◌⊎◌, inl, inr, Bool-cases, none, some,
  Option-cases, arith, ltb, ◌==◌, ==_iff,
}
use libks.Rwl.Posix.{Pthread}
use libks.Rwl.{acquire, own, read_unlock}
use libks.Rwl.System.{
  Pc, idle, wants, got, leaving, set_pc, System, init, stops_reading, acquires, owns, Steps, here,
  next,
}
use libks.Rwl.Invariant.{Outside, writer_of, held_of, Fits, IsSound, none_not}
use libks.Rwl.Safety.{Steps-IsSound}
use libks.Rwl.Release.{Waiting, Freed, moves_on, frees, set_at}

thread_or : (n u : ℕ) → Outside n u ⊎ ((0 < u) × (u ≤ n))
thread_or n zero = inl (inl refl)
thread_or n (suc u) = elim (Bool-cases (ltb n (suc u))) [
  | inl over ↦ inl (inr (ground (arith, over)))
  | inr within ↦ inr (omega arith, ground (arith, within))
]

module _ (P : Pthread) (n : ℕ) where
  -- None writes, whoever did.
  freed : (s : System P) (t : ℕ) → IsSound P n s → 0 < t → s.pc t ≡ wants → Freed P n s t
  unfolding Fits
  freed s t sound real at =
      let h : Waiting P n s t s = record { path = here; sound = sound; waits = at } in
      elim (Option-cases (writer_of P (s.rwl))) [
        | inl e ↦ (s, h, e)
        | inr (w, e) ↦ elim (thread_or n w) [
          | inl o ↦ absurd ((sound.known w o).1 e)
          | inr (real_w, under_w) ↦
              let fit = subst (Fits P (s.rwl) t) at (sound.fits t real) in
              frees P n s t w real_w under_w (λ same. fit.0 (e ∙ ap some (sym same))) s (s.pc w) h
                refl e (sound.fits w real_w)
        ]
      ]

  -- None of the threads above `m` reads.
  abbrev Emptied : System P → ℕ → ℕ → Type 0
  Emptied s t m =
      (r : System P) × Waiting P n s t r
      × (writer_of P r.rwl ≡ none)
      × ((u : ℕ) → m < u → held_of P r.rwl u ≡ 0)

  -- A thread that reads is between its calls.
  reads_idle :
      (r : System P) (u : ℕ) (p : Pc)
      → writer_of P r.rwl ≡ none
      → 0 < held_of P r.rwl u
      → Fits P r.rwl u p
      → (d : ℕ) × (p ≡ idle d)
  unfolding Fits
  reads_idle r u (idle d) free h fit = (d, refl)
  reads_idle r u wants free h fit = absurd (omega (arith, h, fit.2))
  reads_idle r u got free h fit = absurd (none_not P (writer_of P (r.rwl)) u free (fit.0))
  reads_idle r u leaving free h fit = absurd (none_not P (writer_of P (r.rwl)) u free (fit.0))

  module _ (s : System P) (t m : ℕ) (under : suc m ≤ n) where
    -- Thread `m + 1` gives back its `k` read locks.
    empties :
        (k : ℕ) (r : System P)
        → Waiting P n s t r
        → writer_of P r.rwl ≡ none
        → ((u : ℕ) → suc m < u → held_of P r.rwl u ≡ 0)
        → held_of P r.rwl (suc m) ≡ k
        → Emptied s t m
    unfolding read_unlock
    empties zero r h free above e = (
      r,
      h,
      free,
      λ u over. elim (Bool-cases (u == suc m)) [
        | inl i ↦ ap (P.held (r.rwl.rwlock)) ((==_iff u (suc m)).0 i) ∙ e
        | inr i ↦ above u (ground (arith, i, over))
      ],
    )
    empties (suc k) r h free above e =
        let some_held : 0 < held_of P (r.rwl) (suc m) = omega (arith, e) in
        let (d, at) =
          reads_idle r (suc m) (r.pc (suc m)) free some_held (h.sound.fits (suc m) (omega arith)) in
        let x : System P = record r { rwl = (read_unlock P (suc m) (r.rwl)).1 } in
        let law = P.unlock_reader (suc m) (r.rwl.rwlock) free some_held in
        empties k x
          (moves_on P n s t r (suc m) x h (omega arith) under (stops_reading d at some_held)
            (h.waits))
          (law.0) (λ u over. law.2 u (ground (arith, over)) ∙ above u over)
          (law.1 ∙ omega (arith, e))

  Emptied-all : (s : System P) (t m : ℕ) → m ≤ n → Emptied s t m → Emptied s t 0
  Emptied-all s t zero under h = h
  Emptied-all s t (suc m) under (r, h, free, above) =
      Emptied-all s t m (omega (arith, under))
        (empties s t m under (held_of P (r.rwl) (suc m)) r h free above refl)

  all_free :
      (r : System P)
      → IsSound P n r
      → ((u : ℕ) → 0 < u → held_of P r.rwl u ≡ 0)
      → (u : ℕ) → held_of P r.rwl u ≡ 0
  all_free r sound above zero = (sound.known 0 (inl refl)).0
  all_free r sound above (suc u) = above (suc u) (omega arith)

  -- The `n` threads keep to the discipline of the steps: they give back only what they have, ask for
  -- no read lock while they write, and for no write lock while they read. Then in whatever state one
  -- of them waits for a write lock, there is a way on, a step of one thread at a time, to one in
  -- which it has it: none of the threads is stuck with the lock.
  pub write_granted :
      (s : System P) (t : ℕ)
      → Steps P n (init P) s
      → 0 < t
      → t ≤ n
      → s.pc t ≡ wants
      → (r : System P) × Steps P n s r × (r.pc t ≡ idle 1)
  unfolding acquire
  write_granted s t path real under at =
      let (r0, h0, free0) = freed s t (Steps-IsSound P n s path) real at in
      let (r, h, free, above) =
        Emptied-all s t n (omega arith)
          (r0, h0, free0, λ u over. (h0.sound.known u (inr over)).0) in
      let empty = all_free r (h.sound) above in
      let (l, g) = P.wrlock_free t (r.rwl.rwlock) free empty in
      let x : System P = record { rwl = record (r.rwl) { rwlock = l }; pc = set_pc r.pc t got } in
      let y : System P = record { rwl = own P t (x.rwl); pc = set_pc x.pc t (idle 1) } in
      (
        y,
        next t real under
            (next t real under (h.path)
              (acquires (record (r.rwl) { rwlock = l }) (h.waits) (rw (acquire, g) refl)))
            (owns (set_at P n (r.pc) t got)),
        set_at P n (x.pc) t (idle 1),
      )
