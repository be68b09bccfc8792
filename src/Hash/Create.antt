-- ===== src/Hash/Create.antt =====
-- A new table.
use libks.Base.{
  ℕ, zero, suc, ◌+◌, ◌^◌, ◌≤◌, ◌<◌, ◌≡◌, refl, sym, ap, ◌∙◌, ◌⊎◌, inl, inr, true, false, Bool-cases,
  Option, none, some, List, [], ◌∷◌, arith, length, length-replicate, get_or, replicate, ltb, ◌==◌,
  if◌then◌else◌,
}
use libks.Hash.{Keys, Flags, Chain, Hash, primes, choose_prime, create}
use libks.Hash.View.{view}
use libks.Hash.Count.{total-replicate}
use libks.Hash.Expand.{IsPlaced-empty_table, view-empty_table}
use libks.Hash.Remove.{IsValid}

-- Where some size of the list is above the size asked for, the choice is the first that is.
choose_prime_lem :
    (m : ℕ) (ps : List ℕ) (i j : ℕ)
    → j < length ps
    → m < get_or ps j 0
    → (n : ℕ) × (n < length ps) × (choose_prime m ps i ≡ (get_or ps n 0, i + n))
unfolding choose_prime
choose_prime_lem m [] i j h b = absurd (omega arith)
choose_prime_lem m (p ∷ ps) i zero h b = (0, omega arith, ground arith)
choose_prime_lem m (p ∷ ps) i (suc j) h b = elim (Bool-cases (ltb m p)) [
  | inl t ↦ (0, omega arith, rw t (ap (λ x. (p, x)) (omega arith)))
  | inr t ↦
      let (n, under, e) = choose_prime_lem m ps (i + 1) j (omega arith) b in
      (suc n, omega arith, rw (t, e) (ap (λ x. (get_or ps n 0, x)) (omega arith)))
]

first_prime :
    (m : ℕ)
    → m < get_or primes 25 0
    → (n : ℕ) × (n < 26) × (choose_prime m primes 0 ≡ (get_or primes n 0, n))
first_prime m b =
    let (n, under, e) = choose_prime_lem m primes 0 25 (omega arith) b in
    (n, under, e ∙ ap (λ x. (get_or primes n 0, x)) (omega arith))

asked_of : ℕ → ℕ
asked_of minsize = if minsize == 0 then 16 else minsize

asked_large : (n : ℕ) → ltb (2 ^ 30) (asked_of n) ≡ true → 2 ^ 30 < n
unfolding asked_of
asked_large n h = ground arith

asked_small : (n : ℕ) → ltb (2 ^ 30) (asked_of n) ≡ false → n ≤ 2 ^ 30
unfolding asked_of
asked_small n h = ground arith

asked_fits : (n : ℕ) → ltb (2 ^ 30) (asked_of n) ≡ false → asked_of n < get_or primes 25 0
asked_fits n h = ground arith

module _ {K V : Type 0} (keys : Keys K) (limit_of : ℕ → ℕ) where
  -- `ks_hash_create_ex` makes a valid, empty table for every size up to 2 ^ 30, and fails above.
  pub create_lem :
      (minsize : ℕ) (flags : Flags) (destructor : Option ℕ) (q : K)
      → ((minsize ≤ 2 ^ 30)
          × ((h : Hash K V) × (create limit_of minsize flags destructor ≡ some h)
              × IsValid h
              × (h.entrycount ≡ 0)
              × (view keys h.table q ≡ [])))
        ⊎ ((2 ^ 30 < minsize)
            × ◌≡◌ {A = Option (Hash K V)} (create limit_of minsize flags destructor) none)
  unfolding create asked_of
  create_lem minsize flags destructor q = elim (Bool-cases (ltb (2 ^ 30) (asked_of minsize))) [
    | inl t ↦ inr (asked_large minsize t, (rw t refl))
    | inr t ↦
        let (n, under, e) = first_prime (asked_of minsize) (asked_fits minsize t) in
        let made : Hash K V = record {
          table = replicate (get_or primes n 0) [];
          entrycount = 0;
          loadlimit = limit_of (get_or primes n 0);
          primeindex = n;
          flags = if flags.nolock then record flags { rwlock = false } else flags;
          destructor = destructor;
          readers = 0;
        } in
        inl (
          asked_small minsize t,
          (
            made,
            (rw (t, e) refl),
            record {
              placed = IsPlaced-empty_table K V (get_or primes n 0);
              index = under;
              sized = length-replicate {A = Chain K V} (get_or primes n 0) [];
              counted = sym (total-replicate K V (get_or primes n 0));
              small = omega arith;
            },
            refl,
            view-empty_table keys (get_or primes n 0) q,
          ),
        )
  ]
