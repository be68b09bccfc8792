-- ===== src/Rwl/Posix.antt =====
-- The reader-writer lock of POSIX that src/ks_mutex.c stands on, as a parameter: what its calls
-- answer and change is what POSIX says of them.
use libks.Base.{
  ap, refl, inl, inr, arith, ℕ, suc, ◌-◌, ◌≡◌, ◌≢◌, ◌<◌, ◌⊎◌, Bool, true, Option, none, some,
}

-- A call that is refused leaves the lock as it was; one that blocks has no answer yet.
pub data Answer {ℓ} (A : Type ℓ) : Type ℓ where
  granted : A → Answer A
  refused : Answer A
  blocked : Answer A

-- `held l t` is how many read locks thread `t` has, and `full l` says that there are no more to give.
pub record Pthread : Type 1 where
  pub Lock : Type 0
  pub held : Lock → ℕ → ℕ
  pub writer : Lock → Option ℕ
  pub full : Lock → Bool
  pub fresh : Lock
  pub rdlock : ℕ → Lock → Answer Lock
  pub tryrdlock : ℕ → Lock → Option Lock
  pub wrlock : ℕ → Lock → Answer Lock
  pub trywrlock : ℕ → Lock → Option Lock
  pub unlock : ℕ → Lock → Lock
  pub fresh_free : (writer fresh ≡ none) × ((t : ℕ) → held fresh t ≡ 0)
  pub rdlock_granted :
      (t : ℕ) (l k : Lock)
      → rdlock t l ≡ granted k
      → (writer l ≡ none)
        × (writer k ≡ none)
        × (held k t ≡ suc (held l t))
        × ((u : ℕ) → u ≢ t → held k u ≡ held l u)
  pub rdlock_refused :
      (t : ℕ) (l : Lock) → rdlock t l ≡ refused → (writer l ≡ some t) ⊎ (full l ≡ true)
  pub tryrdlock_granted :
      (t : ℕ) (l k : Lock)
      → tryrdlock t l ≡ some k
      → (writer l ≡ none)
        × (writer k ≡ none)
        × (held k t ≡ suc (held l t))
        × ((u : ℕ) → u ≢ t → held k u ≡ held l u)
  pub wrlock_granted :
      (t : ℕ) (l k : Lock)
      → wrlock t l ≡ granted k
      → (writer l ≡ none)
        × ((u : ℕ) → held l u ≡ 0)
        × (writer k ≡ some t)
        × ((u : ℕ) → held k u ≡ 0)
  pub wrlock_refused :
      (t : ℕ) (l : Lock) → wrlock t l ≡ refused → (writer l ≡ some t) ⊎ (0 < held l t)
  pub wrlock_free :
      (t : ℕ) (l : Lock)
      → writer l ≡ none
      → ((u : ℕ) → held l u ≡ 0)
      → (k : Lock) × (wrlock t l ≡ granted k)
  pub trywrlock_granted :
      (t : ℕ) (l k : Lock)
      → trywrlock t l ≡ some k
      → (writer l ≡ none)
        × ((u : ℕ) → held l u ≡ 0)
        × (writer k ≡ some t)
        × ((u : ℕ) → held k u ≡ 0)
  pub unlock_writer :
      (t : ℕ) (l : Lock)
      → writer l ≡ some t
      → (writer (unlock t l) ≡ none) × ((u : ℕ) → held (unlock t l) u ≡ held l u)
  pub unlock_reader :
      (t : ℕ) (l : Lock)
      → writer l ≡ none
      → 0 < held l t
      → (writer (unlock t l) ≡ none)
        × (held (unlock t l) t ≡ held l t - 1)
        × ((u : ℕ) → u ≢ t → held (unlock t l) u ≡ held l u)

pub Answer-cases {ℓ} :
    {A : Type ℓ} (a : Answer A) → ((x : A) × (a ≡ granted x)) ⊎ ((a ≡ refused) ⊎ (a ≡ blocked))
Answer-cases (granted x) = inl (x, refl)
Answer-cases refused = inr (inl refl)
Answer-cases blocked = inr (inr refl)

abbrev answer_or {ℓ} : {A : Type ℓ} → A → Answer A → A
answer_or d (granted a) = a
answer_or d refused = d
answer_or d blocked = d

pub granted-inj {ℓ} : {A : Type ℓ} (a b : A) → granted a ≡ granted b → a ≡ b
granted-inj a b e = ap (answer_or a) e

abbrev some_or {ℓ} : {A : Type ℓ} → A → Option A → A
some_or d (some a) = a
some_or d none = d

pub some-inj {ℓ} : {A : Type ℓ} (a b : A) → some a ≡ some b → a ≡ b
some-inj a b e = ap (some_or a) e

pub none_not_some {ℓ} : {A : Type ℓ} (a : A) → Option.none ≢ some a
none_not_some a e = ground (arith, e)

pub granted_not {ℓ} : {A : Type ℓ} (a : A) → Answer.blocked ≢ granted a
granted_not a e = ground (arith, e)

pub granted_not_refused {ℓ} : {A : Type ℓ} (a : A) → Answer.refused ≢ granted a
granted_not_refused a e = ground (arith, e)

pub blocked_not_refused {ℓ} : (A : Type ℓ) → ◌≢◌ {A = Answer A} blocked refused
blocked_not_refused A e = ground (arith, e)
