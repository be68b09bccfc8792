-- ===== src/Base/Slices.antt =====
-- Blocks of memory as lists of bytes: reading and writing a range, with a fault outside of it.
use Prim.Native.Nat.{ℕ, zero, suc, ◌+◌, ◌-◌, ◌≤◌, ◌<◌, min}
use mathlib.Core.Logic.{◌⊎◌, inl, inr}
use mathlib.Core.Path.{◌≡◌, refl, sym, ap, ap₂, ◌∙◌}
use mathlib.Core.List.{List, [], ◌∷◌, ◌++◌}
use native.Mathlib.Omega.{arith}
use libks.Base.Lists.{length, take, drop, length-take, length-drop}

module _ {ℓ} {A : Type ℓ} where
  -- The `n` items from index `i` on, as far as there are such.
  abbrev pub slice : List A → ℕ → ℕ → List A
  slice xs i n = take n (drop i xs)

  -- The items of `ys` put over those of `xs` from index `i` on; what lies beyond the end is lost.
  abbrev pub overwrite : List A → ℕ → List A → List A
  overwrite [] i ys = []
  overwrite (x ∷ xs) (suc i) ys = x ∷ overwrite xs i ys
  overwrite (x ∷ xs) zero [] = x ∷ xs
  overwrite (x ∷ xs) zero (y ∷ ys) = y ∷ overwrite xs zero ys

  pub take-append : (xs ys : List A) (n : ℕ) → n ≡ length xs → take n (xs ++ ys) ≡ xs
  take-append [] ys zero h = refl
  take-append [] ys (suc n) h = absurd (omega arith)
  take-append (x ∷ xs) ys zero h = absurd (omega arith)
  take-append (x ∷ xs) ys (suc n) h = ap (λ t. x ∷ t) (take-append xs ys n (omega arith))

  pub take-append_within : (xs ys : List A) (n : ℕ) → n ≤ length xs → take n (xs ++ ys) ≡ take n xs
  take-append_within xs ys zero h = refl
  take-append_within [] ys (suc n) h = absurd (omega arith)
  take-append_within (x ∷ xs) ys (suc n) h =
      ap (λ t. x ∷ t) (take-append_within xs ys n (omega arith))

  pub drop-append : (xs ys : List A) (n : ℕ) → n ≡ length xs → drop n (xs ++ ys) ≡ ys
  drop-append [] ys zero h = refl
  drop-append [] ys (suc n) h = absurd (omega arith)
  drop-append (x ∷ xs) ys zero h = absurd (omega arith)
  drop-append (x ∷ xs) ys (suc n) h = drop-append xs ys n (omega arith)

  pub drop-append_within :
      (xs ys : List A) (n : ℕ) → n ≤ length xs → drop n (xs ++ ys) ≡ drop n xs ++ ys
  drop-append_within xs ys zero h = refl
  drop-append_within [] ys (suc n) h = absurd (omega arith)
  drop-append_within (x ∷ xs) ys (suc n) h = drop-append_within xs ys n (omega arith)

  pub take_all : (xs : List A) (n : ℕ) → length xs ≤ n → take n xs ≡ xs
  take_all [] zero h = refl
  take_all [] (suc n) h = refl
  take_all (x ∷ xs) zero h = absurd (omega arith)
  take_all (x ∷ xs) (suc n) h = ap (λ t. x ∷ t) (take_all xs n (omega arith))

  pub length-slice : (xs : List A) (i n : ℕ) → i + n ≤ length xs → length (slice xs i n) ≡ n
  length-slice xs i n h = omega (arith, length-take n (drop i xs), length-drop i xs)

  pub length-overwrite :
      (xs : List A) (i : ℕ) (ys : List A) → length (overwrite xs i ys) ≡ length xs
  length-overwrite [] i ys = refl
  length-overwrite (x ∷ xs) (suc i) ys = ap suc (length-overwrite xs i ys)
  length-overwrite (x ∷ xs) zero [] = refl
  length-overwrite (x ∷ xs) zero (y ∷ ys) = ap suc (length-overwrite xs zero ys)

  take-overwrite-zero :
      (xs ys : List A) (m : ℕ)
      → length ys ≤ length xs
      → m ≡ length ys
      → take m (overwrite xs zero ys) ≡ ys
  take-overwrite-zero xs [] zero p q = refl
  take-overwrite-zero xs [] (suc m) p q = absurd (omega arith)
  take-overwrite-zero [] (y ∷ ys) m p q = absurd (omega arith)
  take-overwrite-zero (x ∷ xs) (y ∷ ys) zero p q = absurd (omega arith)
  take-overwrite-zero (x ∷ xs) (y ∷ ys) (suc m) p q =
      ap (λ t. y ∷ t) (take-overwrite-zero xs ys m (omega arith) (omega arith))

  take_empty : (n : ℕ) → take {A = A} n [] ≡ []
  take_empty zero = refl
  take_empty (suc n) = refl

  -- Two takes in a row are one.
  pub take-join :
      (xs : List A) (i j k : ℕ) → k ≡ i + j → take i xs ++ take j (drop i xs) ≡ take k xs
  take-join xs zero j k e = ap (λ n. take n xs) (omega arith)
  take-join [] (suc i) j k e = take_empty j ∙ sym (take_empty k)
  take-join (x ∷ xs) (suc i) j zero e = absurd (omega arith)
  take-join (x ∷ xs) (suc i) j (suc k) e = ap (λ t. x ∷ t) (take-join xs i j k (omega arith))

  -- What is written behind the front of a list, up to the end of its first part.
  pub take-overwrite_end :
      (xs : List A) (i : ℕ) (ys zs : List A) (m : ℕ)
      → i + length (ys ++ zs) ≤ length xs
      → m ≡ i + length ys
      → take m (overwrite xs i (ys ++ zs)) ≡ take i xs ++ ys
  take-overwrite_end [] zero [] zs zero p q = refl
  take-overwrite_end [] zero [] zs (suc m) p q = absurd (omega arith)
  take-overwrite_end [] zero (y ∷ ys) zs m p q = absurd (omega arith)
  take-overwrite_end [] (suc i) ys zs m p q = absurd (omega arith)
  take-overwrite_end (x ∷ xs) (suc i) ys zs zero p q = absurd (omega arith)
  take-overwrite_end (x ∷ xs) (suc i) ys zs (suc m) p q =
      ap (λ t. x ∷ t) (take-overwrite_end xs i ys zs m (omega arith) (omega arith))
  take-overwrite_end (x ∷ xs) zero [] zs zero p q = refl
  take-overwrite_end (x ∷ xs) zero [] zs (suc m) p q = absurd (omega arith)
  take-overwrite_end (x ∷ xs) zero (y ∷ ys) zs zero p q = absurd (omega arith)
  take-overwrite_end (x ∷ xs) zero (y ∷ ys) zs (suc m) p q =
      ap (λ t. y ∷ t) (take-overwrite_end xs zero ys zs m (omega arith) (omega arith))

  -- Writing just behind a range extends it.
  pub slice-overwrite :
      (xs : List A) (h n i : ℕ) (ys : List A) (m : ℕ)
      → i + length ys ≤ length xs
      → i ≡ h + n
      → m ≡ n + length ys
      → slice (overwrite xs i ys) h m ≡ slice xs h n ++ ys
  slice-overwrite xs zero zero zero ys m p e q =
      take-overwrite-zero xs ys m (omega arith) (omega arith)
  slice-overwrite xs zero zero (suc i) ys m p e q = absurd (omega arith)
  slice-overwrite xs zero (suc n) zero ys m p e q = absurd (omega arith)
  slice-overwrite xs (suc h) n zero ys m p e q = absurd (omega arith)
  slice-overwrite [] zero (suc n) (suc i) ys m p e q = absurd (omega arith)
  slice-overwrite [] (suc h) n (suc i) ys m p e q = absurd (omega arith)
  slice-overwrite (x ∷ xs) zero (suc n) (suc i) ys zero p e q = absurd (omega arith)
  slice-overwrite (x ∷ xs) zero (suc n) (suc i) ys (suc m) p e q =
      ap (λ t. x ∷ t) (slice-overwrite xs zero n i ys m (omega arith) (omega arith) (omega arith))
  slice-overwrite (x ∷ xs) (suc h) n (suc i) ys m p e q =
      slice-overwrite xs h n i ys m (omega arith) (omega arith) q

  -- What stands before a write stays.
  pub take-overwrite :
      (xs : List A) (i : ℕ) (ys : List A) (m : ℕ) → m ≤ i → take m (overwrite xs i ys) ≡ take m xs
  take-overwrite xs i ys zero p = refl
  take-overwrite [] i ys (suc m) p = refl
  take-overwrite (x ∷ xs) zero ys (suc m) p = absurd (omega arith)
  take-overwrite (x ∷ xs) (suc i) ys (suc m) p =
      ap (λ t. x ∷ t) (take-overwrite xs i ys m (omega arith))

  pub drop-drop : (xs : List A) (i j k : ℕ) → k ≡ i + j → drop j (drop i xs) ≡ drop k xs
  drop-drop xs zero j k e = rw (eq_of_zero e)
    where
      eq_of_zero : k ≡ 0 + j → j ≡ k
      eq_of_zero p = omega arith
  drop-drop [] (suc i) zero k e = drop_nil k
    where
      drop_nil : (n : ℕ) → [] ≡ drop {A = A} n []
      drop_nil zero = refl
      drop_nil (suc n) = refl
  drop-drop [] (suc i) (suc j) k e = drop_nil k
    where
      drop_nil : (n : ℕ) → [] ≡ drop {A = A} n []
      drop_nil zero = refl
      drop_nil (suc n) = refl
  drop-drop (x ∷ xs) (suc i) j zero e = absurd (omega arith)
  drop-drop (x ∷ xs) (suc i) j (suc k) e = drop-drop xs i j k (omega arith)

  -- A range cut in two.
  pub drop-take : (xs : List A) (i n m : ℕ) → m ≡ n - i → drop i (take n xs) ≡ take m (drop i xs)
  drop-take xs zero n m e = rw (eq_of_zero e)
    where
      eq_of_zero : m ≡ n - 0 → m ≡ n
      eq_of_zero p = omega arith
  drop-take xs (suc i) zero zero e = refl
  drop-take xs (suc i) zero (suc m) e = absurd (omega arith)
  drop-take [] (suc i) (suc n) zero e = refl
  drop-take [] (suc i) (suc n) (suc m) e = refl
  drop-take (x ∷ xs) (suc i) (suc n) m e = drop-take xs i n m (omega arith)

  pub take-take : (xs : List A) (n m : ℕ) → n ≤ m → take n (take m xs) ≡ take n xs
  take-take xs zero m h = refl
  take-take xs (suc n) zero h = absurd (omega arith)
  take-take [] (suc n) (suc m) h = refl
  take-take (x ∷ xs) (suc n) (suc m) h = ap (λ t. x ∷ t) (take-take xs n m (omega arith))

  -- Taking items off the front of a range.
  pub drop-slice :
      (xs : List A) (h u n : ℕ) → drop n (slice xs h u) ≡ slice xs (h + min n u) (u - min n u)
  drop-slice xs h u n = elim (le_cases n u) [
    | inl p ↦
        drop-take (drop h xs) n u (u - n) refl
        ∙ ap₂ (λ t k. take k t) (drop-drop xs h n (h + min n u) (omega arith)) (omega arith)
    | inr p ↦
        drop-take (drop h xs) n u 0 (omega arith)
        ∙ ap (λ k. take k (drop (h + min n u) xs)) (zero_of_le p)
  ]
    where
      le_cases : (a b : ℕ) → (a ≤ b) ⊎ (b < a)
      le_cases a b = grind arith

      zero_of_le : u < n → 0 ≡ u - min n u
      zero_of_le p = omega arith

  take-take-min : (xs : List A) (a b k : ℕ) → k ≡ min a b → take a (take b xs) ≡ take k xs
  take-take-min xs zero b zero e = refl
  take-take-min xs zero b (suc k) e = absurd (omega arith)
  take-take-min xs (suc a) zero zero e = refl
  take-take-min xs (suc a) zero (suc k) e = absurd (omega arith)
  take-take-min xs (suc a) (suc b) zero e = absurd (omega arith)
  take-take-min [] (suc a) (suc b) (suc k) e = refl
  take-take-min (x ∷ xs) (suc a) (suc b) (suc k) e =
      ap (λ t. x ∷ t) (take-take-min xs a b k (omega arith))

  pub take-slice : (xs : List A) (h u n : ℕ) → take n (slice xs h u) ≡ slice xs h (min n u)
  take-slice xs h u n = take-take-min (drop h xs) n u (min n u) refl

  pub take_within : (xs : List A) (n u : ℕ) → length xs ≡ u → take n xs ≡ take (min n u) xs
  take_within xs n u e =
      ap (λ t. take n t) (sym (take_all xs u (omega arith))) ∙ take-take-min xs n u (min n u) refl

  pub drop_within : (xs : List A) (n u k : ℕ) → length xs ≡ u → k ≡ min n u → drop n xs ≡ drop k xs
  drop_within xs zero u zero e q = refl
  drop_within xs zero u (suc k) e q = absurd (omega arith)
  drop_within [] (suc n) u zero e q = refl
  drop_within [] (suc n) u (suc k) e q = refl
  drop_within (x ∷ xs) (suc n) u zero e q = absurd (omega arith)
  drop_within (x ∷ xs) (suc n) u (suc k) e q =
      drop_within xs n (u - 1) k (omega arith) (omega arith)
