-- ===== src/Hash/Count.antt =====
-- How many entries a table holds, after each of the steps that an insertion or a removal makes.
use libks.Base.{
  ℕ, zero, suc, ◌+◌, ◌%◌, ◌<◌, ◌≡◌, refl, List, [], ◌∷◌, Bool, true, arith, length, get_or, set,
  replicate, passes_under, passes_under_at, ltb,
}
use libks.Hash.{Entry, Chain, primes, push_front, move_chain, move_table}
use libks.Hash.Expand.{length-push, length-move_chain}

-- Every size in the list of primes is a size.
prime_pos_test : (i : ℕ) → Bool
prime_pos_test i = ltb 0 (get_or primes i 0)

prime_pos_tested : passes_under prime_pos_test 26 ≡ true
unfolding passes_under prime_pos_test
prime_pos_tested = refl

pub prime_pos : (i : ℕ) → i < 26 → 0 < get_or primes i 0
unfolding prime_pos_test
prime_pos i h = ground (arith, passes_under_at prime_pos_test 26 i h prime_pos_tested)

module _ {K V : Type 0} where
  unfoldable pub total : List (Chain K V) → ℕ
  total [] = 0
  total (c ∷ cs) = length c + total cs

  pub total-set :
      (t : List (Chain K V)) (i : ℕ) (d : Chain K V)
      → i < length t
      → total (set t i d) + length (get_or t i []) ≡ total t + length d
  unfolding total
  total-set [] i d h = absurd (omega arith)
  total-set (c ∷ cs) zero d h = omega arith
  total-set (c ∷ cs) (suc i) d h = omega (arith, total-set cs i d (omega arith))

  pub total-push :
      (t : List (Chain K V)) (e : Entry K V) → 0 < length t → total (push_front t e) ≡ suc (total t)
  unfolding push_front
  total-push t e pos =
      let i = e.h % length t in omega (arith, total-set t i (e ∷ get_or t i []) (omega arith))

  total-move_chain :
      (c : Chain K V) (t : List (Chain K V))
      → 0 < length t
      → total (move_chain c t) ≡ length c + total t
  unfolding move_chain
  total-move_chain [] t pos = omega arith
  total-move_chain (e ∷ c) t pos = omega (
    arith,
    total-push t e pos,
    total-move_chain c (push_front t e) (omega (arith, length-push t e)),
  )

  total-move_table :
      (cs t : List (Chain K V)) → 0 < length t → total (move_table cs t) ≡ total cs + total t
  unfolding move_table total
  total-move_table [] t pos = omega arith
  total-move_table (c ∷ cs) t pos = omega (
    arith,
    total-move_chain c t pos,
    total-move_table cs (move_chain c t) (omega (arith, length-move_chain c t)),
  )

module _ (K V : Type 0) where
  pub total-replicate : (n : ℕ) → total {K = K} {V = V} (replicate n []) ≡ 0
  unfolding total
  total-replicate zero = refl
  total-replicate (suc n) = omega (arith, total-replicate n)

module _ {K V : Type 0} where
  -- Growth loses no entry and makes none.
  pub total-rehash :
      (t : List (Chain K V)) (n : ℕ)
      → 0 < length {A = Chain K V} (replicate n [])
      → total (move_table t (replicate n [])) ≡ total t
  total-rehash t n pos =
      omega (arith, total-move_table t (replicate n []) pos, total-replicate K V n)
