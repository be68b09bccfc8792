-- ===== src/Hash/Iterate/Visit.antt =====
-- A walk over a table with its iterator.
use mathlib.Core.Path.{subst}
use libks.Base.{
  ℕ, zero, suc, ◌+◌, ◌-◌, ◌%◌, ◌^◌, ◌≤◌, ◌<◌, ◌≡◌, refl, sym, ap, ap₂, ◌∙◌, ◌⊎◌, inl, inr, Bool,
  true, false, Option, none, some, List, [], ◌∷◌, ◌++◌, arith, append_assoc, length, length-drop,
  drop, get_or, if◌then◌else◌,
}
use libks.Hash.{release, Entry, Chain, Hash}
use libks.Hash.Iterate.{
  Iterator, skip_empty, last, next_chain, next_from, next, first, destroy_chain, destroy_from,
}

module _ {A : Type 0} where
  get_or-drop : (xs : List A) (p k : ℕ) (d : A) → get_or (drop p xs) k d ≡ get_or xs (p + k) d
  get_or-drop xs zero k d = let n : k ≡ 0 + k = omega arith in ap (λ x. get_or xs x d) n
  get_or-drop [] (suc p) k d = refl
  get_or-drop (x ∷ xs) (suc p) k d =
      let n : suc (p + k) ≡ suc p + k = omega arith in
      get_or-drop xs p k d ∙ ap (λ n. get_or (x ∷ xs) n d) n

  drop-drop : (xs : List A) (p k : ℕ) → drop (suc k) (drop p xs) ≡ drop (suc (p + k)) xs
  drop-drop xs zero k = let n : suc k ≡ suc (0 + k) = omega arith in ap (λ n. drop n xs) n
  drop-drop [] (suc p) k = refl
  drop-drop (x ∷ xs) (suc p) k =
      let n : suc (suc (p + k)) ≡ suc (suc p + k) = omega arith in
      drop-drop xs p k ∙ ap (λ n. drop n (x ∷ xs)) n

module _ {K V : Type 0} where
  -- All the entries, chain by chain.
  unfoldable pub entries : List (Chain K V) → Chain K V
  entries [] = []
  entries (c ∷ cs) = c ++ entries cs

  -- The entries that a walk reads until the iterator ends, and the table then; `none` where the walk
  -- was cut off.
  unfoldable pub visit : ℕ → Option (Iterator K V) × Hash K V → Option (Chain K V × Hash K V)
  visit f (none, h) = some ([], h)
  visit zero (some i, h) = none
  visit (suc f) (some i, h) =
      let rest = visit f (next h i) in
      elim i.chain [
        | [] ↦ none
        | e ∷ c ↦ elim rest [ none ↦ none | some (es, h') ↦ some (e ∷ es, h') ]
      ]

  record Found (cs : List (Chain K V)) (p p' : ℕ) : Type 0 where
    k : ℕ
    e : Entry K V
    c : Chain K V
    inside : k < length cs
    at : p' ≡ p + k
    there : get_or cs k [] ≡ e ∷ c
    split : entries cs ≡ (e ∷ c) ++ entries (drop (suc k) cs)

  skip_empty-cases :
      (cs : List (Chain K V)) (p : ℕ)
      → ((skip_empty cs p ≡ p + length cs) × (entries cs ≡ [])) ⊎ Found cs p (skip_empty cs p)
  unfolding skip_empty entries
  skip_empty-cases [] p = inl (omega arith, refl)
  skip_empty-cases ([] ∷ cs) p = elim (skip_empty-cases cs (p + 1)) [
    | inl (a, b) ↦ inl (a ∙ (omega arith), b)
    | inr r ↦ inr (record {
      k = suc r.k;
      e = r.e;
      c = r.c;
      inside = omega (arith, r.inside);
      at = r.at ∙ (omega arith);
      there = r.there;
      split = r.split;
    })
  ]
  skip_empty-cases ((e ∷ c) ∷ cs) p = inr (record {
    k = 0;
    e = e;
    c = c;
    inside = omega arith;
    at = omega arith;
    there = refl;
    split = refl;
  })

  -- The table once its reader has left.
  unfoldable pub left : Hash K V → Bool → Hash K V
  left h locked = if locked then record h { readers = (h.readers + 2 ^ 32 - 1) % 2 ^ 32 } else h

  record More (h : Hash K V) (r : Option (Iterator K V) × Hash K V) (locked : Bool) (es : Chain K V)
      : Type 0 where
    at : Iterator K V
    e : Entry K V
    c : Chain K V
    result : r ≡ (some at, h)
    here : at.chain ≡ e ∷ c
    held : at.locked ≡ locked
    rest : es ≡ e ∷ c ++ entries (drop (suc at.pos) h.table)

  -- The call found the first of the entries `es`, or ended where there are none.
  abbrev Step : Hash K V → Option (Iterator K V) × Hash K V → Bool → Chain K V → Type 0
  Step h r locked es = ((r ≡ (none, left h locked)) × (es ≡ [])) ⊎ More h r locked es

  chain_end :
      (h : Hash K V) (i : Iterator K V)
      → length h.table ≤ skip_empty (drop i.pos h.table) i.pos
      → next_chain h i ≡ (none, left h i.locked)
  unfolding next_chain last left
  chain_end h i b = ground arith

  chain_found :
      (h : Hash K V) (i : Iterator K V) (p : ℕ) {e : Entry K V} {c : Chain K V}
      → skip_empty (drop i.pos h.table) i.pos ≡ p
      → p < length h.table
      → get_or h.table p [] ≡ e ∷ c
      → next_chain h i ≡ (some (record i { pos = p; chain = e ∷ c }), h)
  unfolding next_chain
  chain_found h i p s b g = rw (s, g) (ground arith)

  next_chain-Step :
      (h : Hash K V) (i : Iterator K V)
      → Step h (next_chain h i) i.locked (entries (drop i.pos h.table))
  next_chain-Step h i = elim (skip_empty-cases (drop i.pos h.table) i.pos) [
    | inl (a, b) ↦ inl (chain_end h i (omega (arith, length-drop i.pos h.table)), b)
    | inr r ↦ inr (record {
      at = record i { pos = i.pos + r.k; chain = r.e ∷ r.c };
      e = r.e;
      c = r.c;
      result =
          chain_found h i (i.pos + r.k) (r.at) (omega (arith, r.inside, length-drop i.pos h.table))
            (sym (get_or-drop h.table i.pos r.k []) ∙ r.there);
      here = refl;
      held = refl;
      rest = r.split ∙ ap (λ x. r.e ∷ r.c ++ entries x) (drop-drop h.table i.pos r.k);
    })
  ]

  next-Step :
      (h : Hash K V) (i : Iterator K V) {e : Entry K V} (c : Chain K V)
      → i.chain ≡ e ∷ c
      → Step h (next h i) i.locked (c ++ entries (drop (suc i.pos) h.table))
  unfolding next next_from
  next-Step h i [] g =
      let j : Iterator K V = record i { pos = i.pos + 1; chain = [] } in
      let n : i.pos + 1 ≡ suc i.pos = omega arith in
      subst (λ r. Step h r i.locked (entries (drop (suc i.pos) h.table)))
        (sym (ap (next_from h i) g))
        (subst (λ p. Step h (next_chain h j) i.locked (entries (drop p h.table))) n
          (next_chain-Step h j))
  next-Step h i (f ∷ c) g =
      let es = entries (drop (suc i.pos) h.table) in
      subst (λ r. Step h r i.locked (f ∷ c ++ es)) (sym (ap (next_from h i) g))
        (inr (record {
          at = record i { chain = f ∷ c };
          e = f;
          c = c;
          result = refl;
          here = refl;
          held = refl;
          rest = refl;
        }))

  visit_ended : (f : ℕ) (h : Hash K V) → visit f (none, h) ≡ some ([], h)
  unfolding visit
  visit_ended zero h = refl
  visit_ended (suc f) h = refl

  visit_cons :
      (f : ℕ) (h : Hash K V) (i : Iterator K V) {e : Entry K V} {c es : Chain K V} {h' : Hash K V}
      → i.chain ≡ e ∷ c
      → visit f (next h i) ≡ some (es, h')
      → visit (suc f) (some i, h) ≡ some (e ∷ es, h')
  unfolding visit
  visit_cons f h i g r = rw (g, r) refl

  visit_end :
      (f : ℕ) (h : Hash K V) (locked : Bool) {r : Option (Iterator K V) × Hash K V} {es : Chain K V}
      → r ≡ (none, left h locked)
      → es ≡ []
      → visit f r ≡ some (es, left h locked)
  visit_end f h locked r z =
      ap (visit f) r ∙ visit_ended f _ ∙ ap (λ x. some (x, left h locked)) (sym z)

  -- From an entry on, with a call for each entry that is left.
  visit_from :
      (f : ℕ) (h : Hash K V) (i : Iterator K V) {e : Entry K V} (c : Chain K V)
      → i.chain ≡ e ∷ c
      → length (c ++ entries (drop (suc i.pos) h.table)) ≤ f
      → visit (suc f) (some i, h)
        ≡ some (e ∷ c ++ entries (drop (suc i.pos) h.table), left h i.locked)
  visit_from zero h i c g enough = elim (next-Step h i c g) [
    | inl (r, z) ↦ visit_cons zero h i g (visit_end zero h i.locked r z)
    | inr m ↦ absurd (omega (arith, ap length (m.rest)))
  ]
  visit_from (suc f) h i c g enough = elim (next-Step h i c g) [
    | inl (r, z) ↦ visit_cons (suc f) h i g (visit_end (suc f) h i.locked r z)
    | inr m ↦ visit_cons (suc f) h i g (
        ap (visit (suc f)) (m.result)
        ∙ visit_from f h m.at m.c (m.here) (omega (arith, ap length (m.rest)))
        ∙ ap₂ (λ x l. some (x, left h l)) (sym (m.rest)) (m.held))
  ]

  visit_begin :
      (n : ℕ) (h : Hash K V) (r : Option (Iterator K V) × Hash K V) (locked : Bool)
      → length (entries h.table) ≡ n
      → Step h r locked (entries h.table)
      → visit n r ≡ some (entries h.table, left h locked)
  visit_begin n h r locked l (inl (e, z)) = visit_end n h locked e z
  visit_begin zero h r locked l (inr m) = absurd (omega (arith, ap length (m.rest)))
  visit_begin (suc n) h r locked l (inr m) =
      ap (visit (suc n)) (m.result)
      ∙ visit_from n h m.at m.c (m.here) (omega (arith, ap length (m.rest)))
      ∙ ap₂ (λ x b. some (x, left h b)) (sym (m.rest)) (m.held)

  unfoldable pub entered : Hash K V → Bool → Hash K V
  entered h locked = if locked then record h { readers = (h.readers + 1) % 2 ^ 32 } else h

  left-entered :
      (h : Hash K V) (locked : Bool) → h.readers < 2 ^ 32 → left (entered h locked) locked ≡ h
  unfolding left entered
  left-entered h false small = refl
  left-entered h true small =
      let n : ((h.readers + 1) % 2 ^ 32 + 2 ^ 32 - 1) % 2 ^ 32 ≡ h.readers = omega arith in
      ap (λ r. record h { readers = r }) n

  entered-table : (h : Hash K V) (locked : Bool) → (entered h locked).table ≡ h.table
  unfolding entered
  entered-table h false = refl
  entered-table h true = refl

  -- The walk of `ks_hash_first` and `ks_hash_next` reads every entry of the table once, chain by
  -- chain, and then ends: as many calls as there are entries are enough. The count of readers is as it
  -- was, where fewer than 2 ^ 32 were counted.
  pub visit-first :
      (h : Hash K V) (locked : Bool)
      → h.readers < 2 ^ 32
      → visit (length (entries h.table)) (first h locked) ≡ some (entries h.table, h)
  unfolding first next next_from entered
  visit-first h locked small =
      let h' = entered h locked in
      let t = entered-table h locked in
      let start : Iterator K V = record { pos = 0; chain = []; locked = locked } in
      visit_begin (length (entries h.table)) h' (next_chain h' start) locked
        (ap (λ x. length (entries x)) t) (next_chain-Step h' start)
      ∙ ap₂ (λ x y. some (entries x, y)) t (left-entered h locked small)

  destroy_chain-append :
      (d : Option ℕ) (c c' : Chain K V)
      → destroy_chain d (c ++ c') ≡ destroy_chain d c ++ destroy_chain d c'
  unfolding destroy_chain
  destroy_chain-append d [] c' = refl
  destroy_chain-append d (e ∷ c) c' =
      ap (λ x. (release d e).1 ++ x) (destroy_chain-append d c c')
      ∙ sym (append_assoc (release d e).1 (destroy_chain d c) (destroy_chain d c'))

  destroy_from-entries :
      (d : Option ℕ) (t : List (Chain K V)) → destroy_from d t ≡ destroy_chain d (entries t)
  unfolding destroy_from destroy_chain entries
  destroy_from-entries d [] = refl
  destroy_from-entries d (c ∷ cs) =
      ap (λ x. destroy_chain d c ++ x) (destroy_from-entries d cs)
      ∙ sym (destroy_chain-append d c (entries cs))
