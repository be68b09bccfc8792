-- ===== src/Hash/Remove.antt =====
-- Removal and insertion, by what the table holds for each key.
use mathlib.Core.Path.{subst}
use libks.Base.{
  ℕ, suc, ◌+◌, ◌-◌, ◌%◌, ◌^◌, ◌<◌, ◌≡◌, refl, sym, ap, ◌∙◌, ◌⊎◌, inl, inr, true, false, Bool-cases,
  Option, none, some, List, [], ◌∷◌, arith, length, length-set, get_or, get_or-set, set, ◌==◌,
  ==_iff, ==_false, if◌then◌else◌,
}
use libks.Hash.{Keys, Entry, Chain, Hash, Event, primes, hash, matches, unchain, release, remove}
use libks.Hash.View.{
  alike, values, slot, view, AllAt, IsPlaced, head_of, tail_of, values-cons, matches-alike,
}
use libks.Hash.Count.{total, total-set, prime_pos}

pub eqfn_sym : {K : Type 0} (keys : Keys K) (a b : K) → keys.eqfn a b ≡ true → keys.eqfn b a ≡ true
eqfn_sym keys a b h = sym (keys.eqfn_congr a b b h) ∙ keys.eqfn_refl b

-- Each entry is in its chain, the table has the size that the index says, and the count is right.
pub record IsValid {K V : Type 0} (h : Hash K V) : Type 0 where
  pub placed : IsPlaced h.table
  pub index : h.primeindex < 26
  pub sized : length h.table ≡ get_or primes h.primeindex 0
  pub counted : h.entrycount ≡ total h.table
  pub small : h.entrycount < 2 ^ 32

pub some_slot : {K V : Type 0} (h : Hash K V) → IsValid h → 0 < length h.table
some_slot h p = omega (arith, p.sized, prime_pos h.primeindex p.index)

module _ {K : Type 0} (keys : Keys K) where
  not_alike :
      (n : ℕ) (k q : K) → (hash keys k % n == hash keys q % n) ≡ false → alike keys q k ≡ false
  unfolding alike
  not_alike n k q s = elim (Bool-cases (hash keys q == hash keys k)) [
    | inl h ↦
        absurd (==_false _ _ s (ap (λ x. x % n) (sym ((==_iff (hash keys q) (hash keys k)).0 h))))
    | inr h ↦ rw h
  ]

  alike_self : (k : K) → alike keys k k ≡ true
  unfolding alike
  alike_self k = ground (arith, keys.eqfn_refl k)

  alike-hash : (q k : K) → alike keys q k ≡ true → hash keys q ≡ hash keys k
  unfolding alike
  alike-hash q k a = ground arith

module _ {K V : Type 0} (keys : Keys K) where
  alike-matches :
      (q k : K) (e : Entry K V)
      → alike keys q k ≡ true
      → matches keys k e ≡ false
      → matches keys q e ≡ false
  unfolding matches alike
  alike-matches q k e a m = ground (arith, keys.eqfn_congr q e.k k, eqfn_sym keys q k)

  values_pass :
      (q : K) (e : Entry K V) (c : Chain K V)
      → matches keys q e ≡ false
      → values keys q (e ∷ c) ≡ values keys q c
  values_pass q e c m = values-cons keys q e c ∙ (rw m)

  -- The entry `e` taken out of `c` leaves `d`: the newest of the key's, and of no other.
  record Unchained (k : K) (c : Chain K V) (e : Entry K V) (d : Chain K V) : Type 0 where
    found : matches keys k e ≡ true
    rest :
        (q : K)
        → values keys q c ≡ (if alike keys q k then e.v ∷ values keys q d else values keys q d)
    placed : (n i : ℕ) → AllAt n i c → AllAt n i d
    size : length c ≡ suc (length d)

  unchain_hit :
      (k : K) (e : Entry K V) (c : Chain K V)
      → matches keys k e ≡ true
      → unchain keys k (e ∷ c) ≡ some (e, c)
  unfolding unchain
  unchain_hit k e c m = rw m

  unchain_pass :
      (k : K) (e : Entry K V) (c : Chain K V) {f : Entry K V} {d : Chain K V}
      → matches keys k e ≡ false
      → unchain keys k c ≡ some (f, d)
      → unchain keys k (e ∷ c) ≡ some (f, e ∷ d)
  unfolding unchain
  unchain_pass k e c m u = rw (m, u)

  unchain_fail :
      (k : K) (e : Entry K V) (c : Chain K V)
      → matches keys k e ≡ false
      → unchain keys k c ≡ none
      → unchain keys k (e ∷ c) ≡ none
  unfolding unchain
  unchain_fail k e c m u = rw (m, u)

  hit-Unchained :
      (k : K) (e : Entry K V) (c : Chain K V) → matches keys k e ≡ true → Unchained k (e ∷ c) e c
  hit-Unchained k e c m = record {
    found = m;
    rest = λ q. values-cons keys q e c ∙ (rw (matches-alike keys k q e m));
    placed = λ n i a. a.1;
    size = refl;
  }

  pass-Unchained :
      (k : K) (e : Entry K V) (c : Chain K V) (f : Entry K V) (d : Chain K V)
      → matches keys k e ≡ false
      → Unchained k c f d
      → Unchained k (e ∷ c) f (e ∷ d)
  pass-Unchained k e c f d m u = record {
    found = u.found;
    rest = λ q. pass q;
    placed = λ n i a. (a.0, u.placed n i a.1);
    size = ap suc u.size;
  }
    where
      pass :
          (q : K)
          → values keys q (e ∷ c)
            ≡ (if alike keys q k then f.v ∷ values keys q (e ∷ d) else values keys q (e ∷ d))
      pass q = elim (Bool-cases (alike keys q k)) [
        | inl a ↦
            let n = alike-matches q k e a m in
            values_pass q e c n ∙ u.rest q ∙ (rw a (ap (λ x. f.v ∷ x) (sym (values_pass q e d n))))
        | inr a ↦
            values-cons keys q e c
            ∙ ap (λ x. if matches keys q e then e.v ∷ x else x) (u.rest q ∙ (rw a))
            ∙ sym (values-cons keys q e d)
            ∙ (rw a)
      ]

  unchain-cases :
      (k : K) (c : Chain K V)
      → ((unchain keys k c ≡ none) × ((q : K) → alike keys q k ≡ true → values keys q c ≡ []))
        ⊎ ((e : Entry K V) × (d : Chain K V) × (unchain keys k c ≡ some (e, d)) × Unchained k c e d)
  unchain-cases k [] = inl (unfold unchain in refl, λ q a. unfold values in refl)
  unchain-cases k (e ∷ c) = elim (Bool-cases (matches keys k e)) [
    | inl m ↦ inr (e, c, unchain_hit k e c m, hit-Unchained k e c m)
    | inr m ↦ elim (unchain-cases k c) [
      | inl (u, w) ↦
          inl (unchain_fail k e c m u, λ q a. values_pass q e c (alike-matches q k e a m) ∙ w q a)
      | inr (f, d, u, r) ↦ inr (f, e ∷ d, unchain_pass k e c m u, pass-Unchained k e c f d m r)
    ]
  ]

  tail_of-rest :
      (k q : K) (c : Chain K V) (e : Entry K V) (d : Chain K V)
      → Unchained k c e d
      → values keys q d ≡ (if alike keys q k then tail_of (values keys q c) else values keys q c)
  unfolding tail_of
  tail_of-rest k q c e d u =
      rw (u.rest q) (elim (Bool-cases (alike keys q k)) [ inl a ↦ rw a | inr a ↦ rw a ])

  -- The table with the chain `c` of the key without the entry `e`.
  taken :
      (t : List (Chain K V)) (k : K) (e : Entry K V) (d : Chain K V)
      → 0 < length t
      → Unchained k (get_or t (hash keys k % length t) []) e d
      → (q : K)
      → view keys (set t (hash keys k % length t) d) q
        ≡ (if alike keys q k then tail_of (view keys t q) else view keys t q)
  unfolding view slot tail_of
  taken t k e d pos u q =
      let i = hash keys k % length t in
      let j = hash keys q % length t in
      rw (length-set t i d, get_or-set t i j d [] (omega arith))
        (elim (Bool-cases (i == j)) [
          | inl s ↦ rw s (
              subst
                (λ x. values keys q d ≡ (
                  if alike keys q k
                  then tail_of (values keys q (get_or t x []))
                  else values keys q (get_or t x [])))
                ((==_iff i j).0 s) (tail_of-rest k q (get_or t i []) e d u))
          | inr s ↦ rw (s, not_alike keys (length t) k q s)
        ])

  taken-IsPlaced :
      (t : List (Chain K V)) (k : K) (e : Entry K V) (d : Chain K V)
      → 0 < length t
      → IsPlaced t
      → Unchained k (get_or t (hash keys k % length t) []) e d
      → IsPlaced (set t (hash keys k % length t) d)
  taken-IsPlaced t k e d pos p u j =
      let i = hash keys k % length t in
      rw (length-set t i d, get_or-set t i j d [] (omega arith))
        (elim (Bool-cases (i == j)) [
          | inl s ↦
              rw s
                (subst (λ x. AllAt (length t) x d) ((==_iff i j).0 s) (u.placed (length t) i (p i)))
          | inr s ↦ rw s (p j)
        ])

  remove-none :
      (h : Hash K V) (k : K)
      → unchain keys k (get_or h.table (hash keys k % length h.table) []) ≡ none
      → remove keys h k ≡ (none, [], h)
  unfolding remove
  remove-none h k u = rw (remove, u)

  remove-some :
      (h : Hash K V) (k : K) {e : Entry K V} {c : Chain K V}
      → unchain keys k (get_or h.table (hash keys k % length h.table) []) ≡ some (e, c)
      → remove keys h k ≡ (
        (release h.destructor e).0,
        (release h.destructor e).1,
        record h {
          table = set h.table (hash keys k % length h.table) c;
          entrycount = (h.entrycount + 2 ^ 32 - 1) % 2 ^ 32;
        },
      )
  unfolding remove
  remove-some h k u = rw (remove, u)

  abbrev pub IsRemoval : Hash K V → K → K → Option V × List (Event K V) × Hash K V → Type 0
  IsRemoval h k q (v, events, h') =
      IsValid h'
      × (view keys h'.table q
          ≡ (if alike keys q k then tail_of (view keys h.table q) else view keys h.table q))
      × (((view keys h.table k ≡ []) × (v ≡ none) × (events ≡ []) × (h' ≡ h))
          ⊎ ((e : Entry K V) × (matches keys k e ≡ true)
              × (head_of (view keys h.table k) ≡ some e.v)
              × (v ≡ (release h.destructor e).0)
              × (events ≡ (release h.destructor e).1)
              × (suc h'.entrycount ≡ h.entrycount)))

  none_view :
      (t : List (Chain K V)) (k q : K)
      → values keys q (get_or t (hash keys k % length t) []) ≡ []
      → alike keys q k ≡ true
      → view keys t q ≡ []
  unfolding view slot
  none_view t k q w a =
      ap (λ x. values keys q (get_or t (x % length t) [])) (alike-hash keys q k a) ∙ w

  none-IsRemoval :
      (h : Hash K V) (k q : K)
      → IsValid h
      → ((x : K) → alike keys x k ≡ true → view keys h.table x ≡ [])
      → IsRemoval h k q (none, [], h)
  unfolding tail_of
  none-IsRemoval h k q p w = (
    p,
    elim (Bool-cases (alike keys q k)) [ inl a ↦ rw (a, w q a) | inr a ↦ rw a ],
    inl (w k (alike_self keys k), refl, refl, refl),
  )

  head-rest :
      (t : List (Chain K V)) (k : K) (e : Entry K V) (d : Chain K V)
      → Unchained k (get_or t (hash keys k % length t) []) e d
      → head_of (view keys t k) ≡ some e.v
  unfolding view slot head_of
  head-rest t k e d u = rw (u.rest k, alike_self keys k) refl

  -- On a valid table `_ks_hash_remove` takes out the newest value of the key and of no other key: the
  -- older ones stay, the count falls by one, and what is returned and released is what the flags
  -- and the destructors of that entry say. Where the key has none, nothing changes.
  pub remove_lem : (h : Hash K V) (k q : K) → IsValid h → IsRemoval h k q (remove keys h k)
  remove_lem h k q p = elim (unchain-cases k (get_or h.table (hash keys k % length h.table) [])) [
    | inl (u, w) ↦
        subst (IsRemoval h k q) (sym (remove-none h k u))
          (none-IsRemoval h k q p (λ x a. none_view h.table k x (w x a) a))
    | inr (e, d, u, r) ↦ subst (IsRemoval h k q) (sym (remove-some h k u)) (
        let i = hash keys k % length h.table in
        let pos = some_slot h p in
        let n = total-set h.table i d (omega arith) in
        (
          record {
            placed = taken-IsPlaced h.table k e d pos p.placed r;
            index = p.index;
            sized = length-set h.table i d ∙ p.sized;
            counted = omega (arith, p.counted, p.small, r.size);
            small = omega (arith, p.small);
          },
          taken h.table k e d pos r q,
          inr (
            e,
            r.found,
            head-rest h.table k e d r,
            refl,
            refl,
            omega (arith, p.counted, p.small, r.size),
          ),
        ))
  ]
