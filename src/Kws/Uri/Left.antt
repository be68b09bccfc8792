-- ===== src/Kws/Uri/Left.antt =====
-- The pieces of a query that the loop of `kws_parse_qs` of src/kws.c leaves over.
use libks.Base.{
  ℕ, zero, suc, ◌+◌, ◌≡◌, ◌≤◌, ◌<◌, refl, ap, ◌∙◌, inl, inr, true, false, Bool-cases, List, [], ◌∷◌,
  ◌++◌, map, append-nil, arith, length, ltb, leb, leb→le, lt→ltb, take, drop, take_all,
  if◌then◌else◌, done, fault,
}
use libks.Kws.Uri.{max_headers, Headers, free_left}

module _ {ℓ} {A : Type ℓ} where
  drop_all : (n : ℕ) (xs : List A) → length xs ≤ n → drop n xs ≡ []
  drop_all zero [] h = refl
  drop_all zero (x ∷ xs) h = absurd (omega (arith, h))
  drop_all (suc n) [] h = refl
  drop_all (suc n) (x ∷ xs) h = drop_all n xs (omega (arith, h))

-- `g` writes a pair.
module _ (g : List ℕ × List ℕ → List ℕ) where
  free_left_more :
      (n : ℕ) (headers found : Headers) (ps : List (List ℕ × List ℕ))
      → n < length ps
      → free_left headers (found, map g (drop n ps))
        ≡ (if ltb (length headers) max_headers then fault else done found)
  unfolding free_left
  free_left_more n headers found [] h = absurd (omega (arith, h))
  free_left_more zero headers found (p ∷ ps) h = refl
  free_left_more (suc n) headers found (p ∷ ps) h =
      free_left_more n headers found ps (omega (arith, h))

  free_left_full :
      (n : ℕ) (headers : Headers) (ps : List (List ℕ × List ℕ))
      → length headers + n ≡ max_headers
      → (if ltb (length headers) max_headers then fault else done (headers ++ take n ps))
        ≡ (if ltb (length headers) max_headers then fault else done headers)
  free_left_full zero headers ps e =
      ap (λ t. if ltb (length headers) max_headers then fault else done t) (append-nil headers)
  free_left_full (suc n) headers ps e =
      let below = lt→ltb (length headers) max_headers (omega (arith, e)) in rw below refl

  -- Behind the loop, where `n` of the pairs `ps` were read.
  pub free_left_lem :
      (n : ℕ) (headers : Headers) (ps : List (List ℕ × List ℕ))
      → length headers + n ≡ max_headers
      → free_left headers (headers ++ take n ps, map g (drop n ps)) ≡ (
          if leb (length headers + length ps) max_headers
          then done (headers ++ ps)
          else if ltb (length headers) max_headers
          then fault
          else done headers)
  unfolding free_left
  free_left_lem n headers ps e = elim (Bool-cases (leb (length ps) n)) [
    | inl fits ↦
        let small = leb→le (length ps) n fits in
        let room : leb (length headers + length ps) max_headers ≡ true = ground arith in
        rw (take_all ps n small, drop_all n ps small, room) refl
    | inr more ↦
        let none_left : leb (length headers + length ps) max_headers ≡ false = ground arith in
        rw none_left (
          free_left_more n headers (headers ++ take n ps) ps (ground arith)
          ∙ free_left_full n headers ps e)
  ]
