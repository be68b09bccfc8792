-- ===== src/Hash/Expand.antt =====
-- Growth keeps every entry, and turns the order of those with one key round.
use libks.Base.{
  ℕ, zero, suc, ◌%◌, ◌<◌, ◌≡◌, ◌≢◌, refl, sym, ap, ◌∙◌, inl, inr, Bool-cases, List, [], ◌∷◌, ◌++◌,
  append-nil, arith, length, length-set, length-replicate, get_or, replicate,
}
use mathlib.Core.Path.{subst}
use libks.Hash.{Keys, Entry, Chain, hash, matches, push_front, move_chain, move_table}
use libks.Hash.View.{
  values, slot, view, AllAt, IsPlaced, values-elsewhere, view-push, IsPlaced-push,
}

module _ {A : Type 0} where
  -- The first list turned round, before the second.
  unfoldable pub reverse_onto : List A → List A → List A
  reverse_onto [] ys = ys
  reverse_onto (x ∷ xs) ys = reverse_onto xs (x ∷ ys)

  reverse_onto-append :
      (xs ys zs : List A) → reverse_onto (xs ++ ys) zs ≡ reverse_onto ys (reverse_onto xs zs)
  unfolding reverse_onto
  reverse_onto-append [] ys zs = refl
  reverse_onto-append (x ∷ xs) ys zs = reverse_onto-append xs ys (x ∷ zs)

  get_or-replicate : (n i : ℕ) (x : A) → get_or (replicate n x) i x ≡ x
  get_or-replicate zero i x = refl
  get_or-replicate (suc n) zero x = refl
  get_or-replicate (suc n) (suc i) x = get_or-replicate n i x

module _ (K V : Type 0) where
  abbrev pub empty_table : ℕ → List (Chain K V)
  empty_table n = replicate n []

  pub IsPlaced-empty_table : (n : ℕ) → IsPlaced (empty_table n)
  IsPlaced-empty_table n i =
      subst (AllAt (length (empty_table n)) i) (sym (get_or-replicate {A = Chain K V} n i [])) tt

module _ {K V : Type 0} where
  pub length-push : (t : List (Chain K V)) (e : Entry K V) → length (push_front t e) ≡ length t
  unfolding push_front
  length-push t e = length-set t (e.h % length t) _

  pub length-move_chain :
      (c : Chain K V) (t : List (Chain K V)) → length (move_chain c t) ≡ length t
  unfolding move_chain
  length-move_chain [] t = refl
  length-move_chain (e ∷ c) t = length-move_chain c (push_front t e) ∙ length-push t e

module _ {K V : Type 0} (keys : Keys K) where
  IsPlaced-move_chain :
      (c : Chain K V) (t : List (Chain K V)) → 0 < length t → IsPlaced t → IsPlaced (move_chain c t)
  unfolding move_chain
  IsPlaced-move_chain [] t pos p = p
  IsPlaced-move_chain (e ∷ c) t pos p =
      IsPlaced-move_chain c (push_front t e) (omega (arith, length-push t e))
        (IsPlaced-push keys t e pos p)

  view-move_chain :
      (c : Chain K V) (t : List (Chain K V)) (q : K)
      → 0 < length t
      → view keys (move_chain c t) q ≡ reverse_onto (values keys q c) (view keys t q)
  unfolding move_chain reverse_onto values
  view-move_chain [] t q pos = refl
  view-move_chain (e ∷ c) t q pos =
      view-move_chain c (push_front t e) q (omega (arith, length-push t e))
      ∙ ap (reverse_onto (values keys q c)) (view-push keys t e q pos)
      ∙ elim (Bool-cases (matches keys q e)) [ inl m ↦ rw m | inr m ↦ rw m ]

  -- The values of all the chains, in their order.
  all_values : K → List (Chain K V) → List V
  all_values q [] = []
  all_values q (c ∷ cs) = values keys q c ++ all_values q cs

  move_table-lem :
      (cs t : List (Chain K V))
      → 0 < length t
      → IsPlaced t
      → (length (move_table cs t) ≡ length t)
        × IsPlaced (move_table cs t)
        × ((q : K) → view keys (move_table cs t) q ≡ reverse_onto (all_values q cs) (view keys t q))
  unfolding move_table all_values reverse_onto
  move_table-lem [] t pos p = (refl, p, λ q. refl)
  move_table-lem (c ∷ cs) t pos p =
      let n = length-move_chain c t in
      let (l, p', v) =
        move_table-lem cs (move_chain c t) (omega arith) (IsPlaced-move_chain c t pos p) in
      (
        l ∙ n,
        p',
        λ q.
            v q
            ∙ ap (reverse_onto (all_values q cs)) (view-move_chain c t q pos)
            ∙ sym (reverse_onto-append (values keys q c) (all_values q cs) (view keys t q)),
      )

  -- Where one chain alone has values, they are all the values.
  all_values-none :
      (q : K) (cs : List (Chain K V))
      → ((i : ℕ) → values keys q (get_or cs i []) ≡ [])
      → all_values q cs ≡ []
  unfolding all_values
  all_values-none q [] h = refl
  all_values-none q (c ∷ cs) h = rw (h 0, all_values-none q cs (λ i. h (suc i)))

  all_values_at :
      (q : K) (cs : List (Chain K V)) (j : ℕ)
      → ((i : ℕ) → j ≢ i → values keys q (get_or cs i []) ≡ [])
      → all_values q cs ≡ values keys q (get_or cs j [])
  unfolding all_values values
  all_values_at q [] j h = refl
  all_values_at q (c ∷ cs) zero h =
      rw (all_values-none q cs (λ i. h (suc i) (omega arith))) (append-nil (values keys q c))
  all_values_at q (c ∷ cs) (suc j) h =
      rw (h 0 (omega arith)) (all_values_at q cs j (λ i n. h (suc i) (omega arith)))

  all_values-view : (t : List (Chain K V)) (q : K) → IsPlaced t → all_values q t ≡ view keys t q
  unfolding view slot
  all_values-view t q p =
      all_values_at q t (hash keys q % length t)
        (λ i n. values-elsewhere keys q (length t) i (get_or t i []) n (p i))

  pub view-empty_table : (n : ℕ) (q : K) → view keys (empty_table K V n) q ≡ []
  unfolding view values slot
  view-empty_table n q =
      ap (values keys q) (get_or-replicate n (hash keys q % length (empty_table K V n)) [])

  -- The table that the entries were moved to holds for each key the same values, in the other order.
  pub rehash :
      (t : List (Chain K V)) (n : ℕ)
      → 0 < n
      → IsPlaced t
      → let t' = move_table t (empty_table K V n) in
        (length t' ≡ n) × IsPlaced t' × ((q : K) → view keys t' q ≡ reverse_onto (view keys t q) [])
  rehash t n pos p =
      let e = length-replicate {A = Chain K V} n [] in
      let (l, p', v) =
        move_table-lem t (empty_table K V n) (omega arith) (IsPlaced-empty_table K V n) in
      (
        l ∙ e,
        p',
        λ q.
            v q
            ∙ ap (reverse_onto (all_values q t)) (view-empty_table n q)
            ∙ ap (λ x. reverse_onto x []) (all_values-view t q p),
      )
