-- ===== src/Rwl/Simple.antt =====
-- A lock that does what POSIX says of a reader-writer lock: the thread that writes, and those that read.
mod Tests
use libks.Base.{
  ℕ, zero, suc, ◌+◌, ◌-◌, ◌≡◌, ◌≢◌, ◌<◌, refl, sym, ap, ◌∙◌, ◌⊎◌, inl, inr, Bool, true, false,
  Bool-cases, Option, none, some, List, [], ◌∷◌, arith, ltb, ◌==◌, ==_iff, ==_false, if◌then◌else◌,
}
use libks.Rwl.Posix.{
  Pthread, Answer, granted, refused, blocked, granted-inj, granted_not, blocked_not_refused,
  granted_not_refused, some-inj, none_not_some,
}

abbrev times : List ℕ → ℕ → ℕ
times [] t = 0
times (u ∷ us) t = (if u == t then 1 else 0) + times us t

abbrev without : ℕ → List ℕ → List ℕ
without t [] = []
without t (u ∷ us) = let rest = without t us in if u == t then us else u ∷ rest

record Simple : Type 0 where
  writes : Option ℕ
  reading : List ℕ

abbrev simple_rdlock : ℕ → Simple → Answer Simple
simple_rdlock t l = elim (l.writes) [
  | none ↦ granted (record l { reading = t ∷ l.reading })
  | some w ↦ if w == t then refused else blocked
]

abbrev simple_tryrdlock : ℕ → Simple → Option Simple
simple_tryrdlock t l = elim (l.writes) [
  | none ↦ some (record l { reading = t ∷ l.reading })
  | some w ↦ none
]

abbrev free_to : ℕ → Option ℕ → List ℕ → Answer Simple
free_to t none [] = granted (record { writes = some t; reading = [] })
free_to t none (u ∷ us) = if ltb 0 (times (u ∷ us) t) then refused else blocked
free_to t (some w) us = if w == t then refused else blocked

abbrev granted_or : Answer Simple → Option Simple
granted_or (granted l) = some l
granted_or refused = none
granted_or blocked = none

abbrev simple_unlock : ℕ → Simple → Simple
simple_unlock t l = elim (l.writes) [
  | some w ↦ record l { writes = none }
  | none ↦ record l { reading = without t l.reading }
]

abbrev Granted : ℕ → Option ℕ → List ℕ → Simple → Type 0
Granted t w us k =
    (w ≡ none)
    × ((u : ℕ) → times us u ≡ 0)
    × (k.writes ≡ some t)
    × ((u : ℕ) → times k.reading u ≡ 0)

not_granted : (b : Bool) (k : Simple) → (if b then refused else blocked) ≢ granted k
not_granted true k e = granted_not_refused k e
not_granted false k e = granted_not k e

free_to-Granted :
    (t : ℕ) (w : Option ℕ) (us : List ℕ) (k : Simple)
    → free_to t w us ≡ granted k
    → Granted t w us k
free_to-Granted t none [] k e =
    let same = granted-inj (record { writes = some t; reading = [] }) k e in
    (
      refl,
      (λ u. refl),
      ap (λ l. l.writes) (sym same),
      λ u. ap (λ l. times (l.reading) u) (sym same),
    )
free_to-Granted t none (u ∷ us) k e = absurd (not_granted (ltb 0 (times (u ∷ us) t)) k e)
free_to-Granted t (some w) us k e = absurd (not_granted (w == t) k e)

times-without : (t : ℕ) (us : List ℕ) → times (without t us) t ≡ times us t - 1
times-without t [] = refl
times-without t (u ∷ us) = elim (Bool-cases (u == t)) [
  | inl e ↦ rw e (omega arith)
  | inr e ↦ rw (e, times, e) (omega (arith, times-without t us))
]

times-without_other : (t v : ℕ) (us : List ℕ) → v ≢ t → times (without t us) v ≡ times us v
times-without_other t v [] d = refl
times-without_other t v (u ∷ us) d = elim (Bool-cases (u == t)) [
  | inl e ↦ let f : (u == v) ≡ false = ground (arith, e, d) in rw (e, f) (omega arith)
  | inr e ↦ rw e (ap (λ k. (if u == v then 1 else 0) + k) (times-without_other t v us d))
]

granted_or-eq : (a : Answer Simple) (k : Simple) → granted_or a ≡ some k → a ≡ granted k
granted_or-eq (granted l) k e = ap granted (some-inj l k e)
granted_or-eq refused k e = absurd (none_not_some k e)
granted_or-eq blocked k e = absurd (none_not_some k e)

-- The list of those who read has one more at its front.
abbrev Added : ℕ → Option ℕ → List ℕ → Simple → Type 0
Added t w us k =
    (w ≡ none)
    × (k.writes ≡ none)
    × (times k.reading t ≡ suc (times us t))
    × ((u : ℕ) → u ≢ t → times k.reading u ≡ times us u)

added :
    (t : ℕ) (us : List ℕ) (k : Simple)
    → record { writes = none; reading = t ∷ us } ≡ k
    → Added t none us k
added t us k e = (
  refl,
  ap (λ l. l.writes) (sym e),
  ap (λ l. times (l.reading) t) (sym e)
      ∙ (let same : (t == t) ≡ true = ground arith in rw same (omega arith)),
  λ u other.
      ap (λ l. times (l.reading) u) (sym e)
      ∙ (let differs : (t == u) ≡ false = ground (arith, other) in rw differs (omega arith)),
)

rdlock_added :
    (t : ℕ) (w : Option ℕ) (us : List ℕ) (k : Simple)
    → simple_rdlock t (record { writes = w; reading = us }) ≡ granted k
    → Added t w us k
rdlock_added t none us k e = added t us k (granted-inj _ k e)
rdlock_added t (some w) us k e = absurd (not_granted (w == t) k e)

tryrdlock_added :
    (t : ℕ) (w : Option ℕ) (us : List ℕ) (k : Simple)
    → simple_tryrdlock t (record { writes = w; reading = us }) ≡ some k
    → Added t w us k
tryrdlock_added t none us k e = added t us k (some-inj _ k e)
tryrdlock_added t (some w) us k e = absurd (none_not_some k e)

refused_true :
    (b : Bool) → ◌≡◌ {A = Answer Simple} (if b then refused else blocked) refused → b ≡ true
refused_true true e = refl
refused_true false e = absurd (blocked_not_refused Simple e)

refused_mine :
    (w t : ℕ)
    → ◌≡◌ {A = Answer Simple} (if w == t then refused else blocked) refused
    → some w ≡ some t
refused_mine w t e = ap some ((==_iff w t).0 (refused_true (w == t) e))

rdlock_mine :
    (t : ℕ) (w : Option ℕ) (us : List ℕ)
    → simple_rdlock t (record { writes = w; reading = us }) ≡ refused
    → (w ≡ some t) ⊎ (false ≡ true)
rdlock_mine t none us e = absurd (granted_not_refused _ (sym e))
rdlock_mine t (some w) us e = inl (refused_mine w t e)

free_to_mine :
    (t : ℕ) (w : Option ℕ) (us : List ℕ)
    → free_to t w us ≡ refused
    → (w ≡ some t) ⊎ (0 < times us t)
free_to_mine t none [] e = absurd (granted_not_refused _ (sym e))
free_to_mine t none (u ∷ us) e =
    let some_read = refused_true (ltb 0 (times (u ∷ us) t)) e in inr (ground (arith, some_read))
free_to_mine t (some w) us e = inl (refused_mine w t e)

free_to_empty :
    (t : ℕ) (w : Option ℕ) (us : List ℕ)
    → w ≡ none
    → ((u : ℕ) → times us u ≡ 0)
    → (k : Simple) × (free_to t w us ≡ granted k)
free_to_empty t none [] e h = (record { writes = some t; reading = [] }, refl)
free_to_empty t none (u ∷ us) e h =
    let same : (u == u) ≡ true = ground arith in
    absurd (omega (arith, h u, ap (λ b. (if b then 1 else 0) + times us u) same))
free_to_empty t (some w) us e h = absurd (none_not_some w (sym e))

unlocked_writer :
    (t v : ℕ) (w : Option ℕ) (us : List ℕ)
    → w ≡ some v
    → let l = simple_unlock t (record { writes = w; reading = us }) in
      (l.writes ≡ none) × ((u : ℕ) → times l.reading u ≡ times us u)
unlocked_writer t v none us e = absurd (none_not_some v e)
unlocked_writer t v (some w) us e = (refl, λ u. refl)

unlocked_reader :
    (t : ℕ) (w : Option ℕ) (us : List ℕ)
    → w ≡ none
    → let l = simple_unlock t (record { writes = w; reading = us }) in
      (l.writes ≡ none)
      × (times l.reading t ≡ times us t - 1)
      × ((u : ℕ) → u ≢ t → times l.reading u ≡ times us u)
unlocked_reader t none us e =
    (refl, times-without t us, λ u other. times-without_other t u us other)
unlocked_reader t (some w) us e = absurd (none_not_some w (sym e))

simple : Pthread
simple = record {
  Lock = Simple;
  held = λ l. times l.reading;
  writer = λ l. l.writes;
  full = λ l. false;
  fresh = record { writes = none; reading = [] };
  rdlock = simple_rdlock;
  tryrdlock = simple_tryrdlock;
  wrlock = λ t l. free_to t (l.writes) (l.reading);
  trywrlock = λ t l. granted_or (free_to t (l.writes) (l.reading));
  unlock = simple_unlock;
  fresh_free = (refl, λ t. refl);
  rdlock_granted = λ t l k e. rdlock_added t (l.writes) (l.reading) k e;
  rdlock_refused = λ t l e. rdlock_mine t (l.writes) (l.reading) e;
  tryrdlock_granted = λ t l k e. tryrdlock_added t (l.writes) (l.reading) k e;
  wrlock_granted = λ t l k e. free_to-Granted t (l.writes) (l.reading) k e;
  wrlock_refused = λ t l e. free_to_mine t (l.writes) (l.reading) e;
  wrlock_free = λ t l w h. free_to_empty t (l.writes) (l.reading) w h;
  trywrlock_granted = λ t l k e. free_to-Granted t (l.writes) (l.reading) k (granted_or-eq _ k e);
  unlock_writer = λ t l e. unlocked_writer t t (l.writes) (l.reading) e;
  unlock_reader = λ t l e h. unlocked_reader t (l.writes) (l.reading) e;
}
