-- ===== src/Rwl/Release.antt =====
-- While a thread waits in `ks_rwl_write_lock` of src/ks_mutex.c, the one that writes gives its locks back.
use mathlib.Core.Path.{subst}
use libks.Base.{ℕ, zero, suc, ◌≡◌, ◌≢◌, ◌≤◌, ◌<◌, refl, ◌∙◌, true, false, none, some, arith, ◌==◌}
use libks.Rwl.Posix.{Pthread}
use libks.Rwl.{own, give_up, inner, disown}
use libks.Rwl.System.{
  Pc, idle, wants, got, leaving, set_pc, System, StepOf, owns, leaves_inner, disowns, gives_up,
  Steps, next,
}
use libks.Rwl.Invariant.{writer_of, Fits, IsSound}
use libks.Rwl.Safety.{step-IsSound}

module _ (P : Pthread) (n : ℕ) where
  -- A state on the way from `s`, in which thread `t` still waits.
  pub record Waiting (s : System P) (t : ℕ) (r : System P) : Type 0 where
    pub path : Steps P n s r
    pub sound : IsSound P n r
    pub waits : r.pc t ≡ wants

  pub set_at : (f : ℕ → Pc) (w : ℕ) (p : Pc) → set_pc f w p w ≡ p
  set_at f w p = let e : (w == w) ≡ true = ground arith in rw e refl

  set_other : (f : ℕ → Pc) (w : ℕ) (p : Pc) (t : ℕ) → t ≢ w → set_pc f w p t ≡ f t
  set_other f w p t other = let e : (t == w) ≡ false = ground (arith, other) in rw e refl

  -- Another thread takes a step.
  pub moves_on :
      (s : System P) (t : ℕ) (r : System P) (w : ℕ) (x : System P)
      → Waiting s t r
      → 0 < w
      → w ≤ n
      → StepOf P w r x
      → x.pc t ≡ wants
      → Waiting s t x
  moves_on s t r w x h real under step still = record {
    path = next w real under (h.path) step;
    sound = step-IsSound P n r w real under (h.sound) x step;
    waits = still;
  }

  -- None writes any more.
  abbrev pub Freed : System P → ℕ → Type 0
  Freed s t = (r : System P) × Waiting s t r × (writer_of P r.rwl ≡ none)

  module _ (s : System P) (t w : ℕ) (real : 0 < w) (under : w ≤ n) (other : t ≢ w) where
    frees_leaving : (r : System P) → Waiting s t r → r.pc w ≡ leaving → Freed s t
    unfolding Fits
    frees_leaving r h at =
        let fit = subst (Fits P (r.rwl) w) at (h.sound.fits w real) in
        let x : System P = record { rwl = give_up P w (r.rwl); pc = set_pc r.pc w (idle 0) } in
        (
          x,
          moves_on s t r w x h real under (gives_up at)
              (set_other (r.pc) w (idle 0) t other ∙ h.waits),
          (P.unlock_writer w (r.rwl.rwlock) (fit.0)).0,
        )

    frees_writing : (d : ℕ) (r : System P) → Waiting s t r → r.pc w ≡ idle (suc d) → Freed s t
    unfolding Fits
    frees_writing zero r h at =
        let fit = subst (Fits P (r.rwl) w) at (h.sound.fits w real) in
        let x : System P = record { rwl = disown P (r.rwl); pc = set_pc r.pc w leaving } in
        frees_leaving x
          (moves_on s t r w x h real under (disowns 0 at (ground (arith, fit.2)))
            (set_other (r.pc) w leaving t other ∙ h.waits))
          (set_at (r.pc) w leaving)
    frees_writing (suc d) r h at =
        let fit = subst (Fits P (r.rwl) w) at (h.sound.fits w real) in
        let x : System P = record { rwl = inner P (r.rwl); pc = set_pc r.pc w (idle (suc d)) } in
        frees_writing d x
          (moves_on s t r w x h real under (leaves_inner (suc d) at (ground (arith, fit.1, fit.2)))
            (set_other (r.pc) w (idle (suc d)) t other ∙ h.waits))
          (set_at (r.pc) w (idle (suc d)))

    frees_got : (r : System P) → Waiting s t r → r.pc w ≡ got → Freed s t
    frees_got r h at =
        let x : System P = record { rwl = own P w (r.rwl); pc = set_pc r.pc w (idle 1) } in
        frees_writing 0 x
          (moves_on s t r w x h real under (owns at)
            (set_other (r.pc) w (idle 1) t other ∙ h.waits))
          (set_at (r.pc) w (idle 1))

    pub frees :
        (r : System P) (p : Pc)
        → Waiting s t r
        → r.pc w ≡ p
        → writer_of P r.rwl ≡ some w
        → Fits P r.rwl w p
        → Freed s t
    unfolding Fits
    frees r (idle zero) h at mine fit = absurd (fit.0 mine)
    frees r (idle (suc d)) h at mine fit = frees_writing d r h at
    frees r wants h at mine fit = absurd (fit.0 mine)
    frees r got h at mine fit = frees_got r h at
    frees r leaving h at mine fit = frees_leaving r h at
