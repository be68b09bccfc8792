-- ===== src/Hash/View.antt =====
-- What a table holds for a key: the values of its matching entries, the newest first.
use libks.Base.{
  ℕ, ◌%◌, ◌<◌, ◌≡◌, ◌≢◌, refl, sym, ap, ◌∙◌, inl, inr, Bool, true, false, Bool-cases, ◌&&◌, Option,
  none, some, List, [], ◌∷◌, arith, length, length-set, get_or, get_or-set, ◌==◌, ==_iff, ==_false,
  if◌then◌else◌,
}
use mathlib.Core.Path.{subst}
use libks.Hash.{Keys, Entry, Chain, hash, matches, push_front, find}

-- The two keys have one hash and are equal for the caller.
unfoldable pub alike : {K : Type 0} → Keys K → K → K → Bool
alike keys q k = hash keys q == hash keys k && keys.eqfn q k

module _ {K V : Type 0} where
  -- Each entry stands in the chain of its hash.
  abbrev pub AllAt : ℕ → ℕ → Chain K V → Type 0
  AllAt n i [] = Unit {0}
  AllAt n i (e ∷ c) = (e.h % n ≡ i) × AllAt n i c

  abbrev pub IsPlaced : List (Chain K V) → Type 0
  IsPlaced t = (i : ℕ) → AllAt (length t) i (get_or t i [])

module _ {V : Type 0} where
  -- The newest, and the older ones.
  unfoldable pub head_of : List V → Option V
  head_of [] = none
  head_of (v ∷ vs) = some v

  unfoldable pub tail_of : List V → List V
  tail_of [] = []
  tail_of (v ∷ vs) = vs

module _ {K V : Type 0} (keys : Keys K) where
  -- The values of the entries of a chain that match.
  unfoldable pub values : K → Chain K V → List V
  values q [] = []
  values q (e ∷ c) = if matches keys q e then e.v ∷ values q c else values q c

  unfoldable pub slot : K → List (Chain K V) → ℕ
  slot q t = hash keys q % length t

  unfoldable pub view : List (Chain K V) → K → List V
  view t q = values q (get_or t (slot q t) [])

  pub matches-hash : (q : K) (e : Entry K V) → matches keys q e ≡ true → hash keys q ≡ e.h
  unfolding matches
  matches-hash q e h = ground arith

  -- A chain elsewhere has nothing for the key.
  pub values-elsewhere :
      (q : K) (n i : ℕ) (c : Chain K V) → hash keys q % n ≢ i → AllAt n i c → values q c ≡ []
  unfolding values
  values-elsewhere q n i [] h a = refl
  values-elsewhere q n i (e ∷ c) h a = elim (Bool-cases (matches keys q e)) [
    | inl m ↦ absurd (h (ap (λ x. x % n) (matches-hash q e m) ∙ a.0))
    | inr m ↦ rw m (values-elsewhere q n i c h a.1)
  ]

  -- A search finds the newest.
  pub find-head : (q : K) (c : Chain K V) → find keys q c ≡ head_of (values q c)
  unfolding values head_of find
  find-head q [] = refl
  find-head q (e ∷ c) = elim (Bool-cases (matches keys q e)) [
    | inl m ↦ rw m
    | inr m ↦ rw m (find-head q c)
  ]

  pub matches-alike :
      (k q : K) (e : Entry K V) → matches keys k e ≡ true → matches keys q e ≡ alike keys q k
  unfolding matches alike
  matches-alike k q e m = ground (arith, keys.eqfn_congr k e.k q)

  pub values-cons :
      (q : K) (e : Entry K V) (c : Chain K V)
      → values q (e ∷ c) ≡ (if matches keys q e then e.v ∷ values q c else values q c)
  unfolding values
  values-cons q e c = refl

  no_match :
      (t : List (Chain K V)) (e : Entry K V) (q : K)
      → (e.h % length t == hash keys q % length t) ≡ false
      → matches keys q e ≡ false
  no_match t e q s = elim (Bool-cases (matches keys q e)) [
    | inr m ↦ m
    | inl m ↦ absurd (==_false _ _ s (ap (λ x. x % length t) (sym (matches-hash q e m))))
  ]

  -- An entry put at the front of its chain.
  pub view-push :
      (t : List (Chain K V)) (e : Entry K V) (q : K)
      → 0 < length t
      → view (push_front t e) q ≡ (if matches keys q e then e.v ∷ view t q else view t q)
  unfolding view slot push_front values
  view-push t e q pos =
      let i = e.h % length t in
      let j = hash keys q % length t in
      let c = get_or t i [] in
      rw (length-set t i (e ∷ c), get_or-set t i j (e ∷ c) [] (omega arith))
        (elim (Bool-cases (i == j)) [
          | inl s ↦ rw (s, (==_iff i j).0 s) (values-cons q e (get_or t j []))
          | inr s ↦ rw (s, no_match t e q s) refl
        ])

  pub IsPlaced-push :
      (t : List (Chain K V)) (e : Entry K V) → 0 < length t → IsPlaced t → IsPlaced (push_front t e)
  unfolding push_front
  IsPlaced-push t e pos p i =
      let j = e.h % length t in
      let c = get_or t j [] in
      rw (length-set t j (e ∷ c), get_or-set t j i (e ∷ c) [] (omega arith))
        (elim (Bool-cases (j == i)) [
          | inl s ↦ rw s (
            (==_iff j i).0 s,
            subst (AllAt (length t) i) (ap (λ x. get_or t x []) (sym ((==_iff j i).0 s))) (p i),
          )
          | inr s ↦ rw s (p i)
        ])
