-- ===== src/Hash/Map.antt =====
-- The calls on the table as a map from keys to values.
use libks.Base.{
  ℕ, suc, ◌-◌, ◌^◌, ◌≤◌, ◌<◌, ◌≡◌, refl, ap, ◌∙◌, inl, inr, Bool, true, Bool-cases, ◌&&◌, Option,
  none, some, List, [], ◌∷◌, arith, length, if◌then◌else◌,
}
use libks.Hash.{Keys, Flags, Entry, Hash, hash, matches, remove, add, insert, is_none, search}
use libks.Hash.View.{alike, slot, view, head_of, tail_of, find-head}
use libks.Hash.Expand.{reverse_onto}
use libks.Hash.Remove.{IsValid, remove_lem}
use libks.Hash.Insert.{grows, kept_order, add_lem}

module _ {K V : Type 0} where
  unfoldable pub in_use : Hash K V → Flags → Flags
  in_use h flags = if is_none flags then h.flags else flags

module _ {K V : Type 0} (keys : Keys K) where
  -- The table that the new entry goes to.
  unfoldable pub base_of : Hash K V → K → Flags → Hash K V
  base_of h k used = if used.dup_check then (remove keys h k).2 else h

  record Prior (h : Hash K V) (k q : K) (used : Flags) : Type 0 where
    valid : IsValid (base_of h k used)
    values : view keys (base_of h k used).table q ≡ (
        if used.dup_check && alike keys q k
        then tail_of (view keys h.table q)
        else view keys h.table q)
    bounded : (base_of h k used).entrycount ≤ h.entrycount

  removed_count :
      (h : Hash K V) (k q : K) → IsValid h → (remove keys h k).2.entrycount ≤ h.entrycount
  removed_count h k q p = elim ((remove_lem keys h k q p).2) [
    | inl (a, b, c, e) ↦ rw e (omega arith)
    | inr (e, m, a, b, c, n) ↦ omega (arith, n)
  ]

  base_of_good : (h : Hash K V) (k q : K) (used : Flags) → IsValid h → Prior h k q used
  unfolding base_of
  base_of_good h k q used p = elim (Bool-cases (used.dup_check)) [
    | inl d ↦
        let r = remove_lem keys h k q p in
        record { valid = rw d (r.0); values = rw d (r.1); bounded = rw d (removed_count h k q p) }
    | inr d ↦ record { valid = rw d p; values = rw d refl; bounded = rw d (omega arith) }
  ]

  abbrev new_entry : K → V → Flags → Option ℕ → Entry K V
  new_entry k v used destructor = record {
    k = k;
    v = v;
    h = hash keys k;
    flags = used;
    destructor = destructor;
  }

  new-matches :
      (k q : K) (v : V) (used : Flags) (destructor : Option ℕ)
      → matches keys q (new_entry k v used destructor) ≡ alike keys q k
  unfolding matches alike
  new-matches k q v used destructor = refl

module _ {K V : Type 0} (keys : Keys K) (limit_of : ℕ → ℕ) where
  insert_base :
      (h : Hash K V) (k : K) (v : V) (flags : Flags) (destructor : Option ℕ)
      → let used = in_use h flags in
        insert keys limit_of h k v flags destructor ≡ (
          (if used.dup_check then (remove keys h k).1 else []),
          add keys limit_of (base_of keys h k used) (new_entry keys k v used destructor),
        )
  unfolding insert in_use base_of
  insert_base h k v flags destructor =
      elim (Bool-cases ((if is_none flags then h.flags else flags).dup_check)) [
        | inl d ↦ rw d refl
        | inr d ↦ rw d refl
      ]

  -- On a valid table with room in its count, `ks_hash_insert_ex` releases what the removal does where
  -- duplicates are checked and nothing else, and puts the value before the key's others, of which
  -- the removal took the newest; growth turns the older ones round, for every key.
  pub insert_lem :
      (h : Hash K V) (k : K) (v : V) (flags : Flags) (destructor : Option ℕ) (q : K)
      → IsValid h
      → h.entrycount < 2 ^ 32 - 1
      → let (events, h') = insert keys limit_of h k v flags destructor in
        let used = in_use h flags in
        let base = base_of keys h k used in
        let kept =
          if used.dup_check && alike keys q k
          then tail_of (view keys h.table q)
          else view keys h.table q in
        let old = kept_order base kept in
        IsValid h'
        × (events ≡ (if used.dup_check then (remove keys h k).1 else []))
        × (h'.entrycount ≡ suc base.entrycount)
        × (view keys h'.table q ≡ (if alike keys q k then v ∷ old else old))
  insert_lem h k v flags destructor q p small =
      let used = in_use h flags in
      let b = base_of_good keys h k q used p in
      let a =
        add_lem keys limit_of (base_of keys h k used) (new_entry keys k v used destructor) q b.valid
          (omega (arith, b.bounded)) in
      rw (insert_base h k v flags destructor)
        (a.0, refl, a.1, a.2 ∙ (rw (new-matches keys k q v used destructor, b.values)))

module _ {A : Type 0} where
  tail_of_one : (xs : List A) → length xs ≤ 1 → tail_of xs ≡ []
  unfolding tail_of
  tail_of_one [] h = refl
  tail_of_one (x ∷ []) h = refl
  tail_of_one (x ∷ y ∷ xs) h = absurd (omega arith)

  reverse_one : (xs : List A) → length xs ≤ 1 → reverse_onto xs [] ≡ xs
  reverse_one [] h = unfold reverse_onto in refl
  reverse_one (x ∷ []) h = unfold reverse_onto in refl
  reverse_one (x ∷ y ∷ xs) h = absurd (omega arith)

module _ {K V : Type 0} where
  kept_one : (h : Hash K V) (vs : List V) → length vs ≤ 1 → kept_order h vs ≡ vs
  unfolding kept_order
  kept_one h vs one = elim (Bool-cases (grows h)) [
    | inl g ↦ rw g (reverse_one vs one)
    | inr g ↦ rw g refl
  ]

module _ {K V : Type 0} (keys : Keys K) where
  -- No key has two values.
  abbrev pub IsMap : Hash K V → Type 0
  IsMap h = (q : K) → length (view keys h.table q) ≤ 1

  search-head :
      (h : Hash K V) (k : K) (locked : Bool)
      → (search keys h k locked).0 ≡ head_of (view keys h.table k)
  unfolding search view slot
  search-head h k locked = find-head keys k _

  view-remove :
      (h : Hash K V) (k q : K)
      → IsValid h
      → IsMap h
      → view keys (remove keys h k).2.table q ≡ (if alike keys q k then [] else view keys h.table q)
  view-remove h k q p m =
      (remove_lem keys h k q p).1 ∙ (rw (tail_of_one (view keys h.table q) (m q)))

  -- A table whose values are replaced for the keys like `k`.
  replaced-IsMap :
      (h h' : Hash K V) (k : K) (vs : List V)
      → length vs ≤ 1
      → IsMap h
      → ((q : K) → view keys h'.table q ≡ (if alike keys q k then vs else view keys h.table q))
      → IsMap h'
  replaced-IsMap h h' k vs one m r q =
      rw (r q) (elim (Bool-cases (alike keys q k)) [ inl a ↦ rw a one | inr a ↦ rw a (m q) ])

  search-replaced :
      (h h' : Hash K V) (k q : K) (locked : Bool) (vs : List V)
      → ((x : K) → view keys h'.table x ≡ (if alike keys x k then vs else view keys h.table x))
      → (search keys h' q locked).0
        ≡ (if alike keys q k then head_of vs else (search keys h q locked).0)
  search-replaced h h' k q locked vs r =
      search-head h' q locked
      ∙ ap head_of (r q)
      ∙ (rw (search-head h q locked)
          (elim (Bool-cases (alike keys q k)) [ inl a ↦ rw a refl | inr a ↦ rw a refl ]))

  -- After `ks_hash_remove` on a valid map, a search finds no value for the key and for the other keys
  -- what it found before; the table is still a valid map.
  pub search-remove :
      (h : Hash K V) (k q : K) (locked : Bool)
      → IsValid h
      → IsMap h
      → let h' = (remove keys h k).2 in
        IsValid h'
        × IsMap h'
        × ((search keys h' q locked).0
            ≡ (if alike keys q k then none else (search keys h q locked).0))
  unfolding head_of
  search-remove h k q locked p m =
      let h' = (remove keys h k).2 in
      let r = λ (x : K). view-remove h k x p m in
      (
        (remove_lem keys h k q p).0,
        replaced-IsMap h h' k [] (omega arith) m r,
        search-replaced h h' k q locked [] r,
      )

  module _ (limit_of : ℕ → ℕ) where
    view-insert :
        (h : Hash K V) (k : K) (v : V) (flags : Flags) (destructor : Option ℕ) (q : K)
        → IsValid h
        → h.entrycount < 2 ^ 32 - 1
        → IsMap h
        → (in_use h flags).dup_check ≡ true
        → view keys (insert keys limit_of h k v flags destructor).1.table q
          ≡ (if alike keys q k then v ∷ [] else view keys h.table q)
    view-insert h k v flags destructor q p small m d =
        let vs = view keys h.table q in
        (insert_lem keys limit_of h k v flags destructor q p small).3
        ∙ (elim (Bool-cases (alike keys q k)) [
          | inl a ↦ rw (d, a, tail_of_one vs (m q)) (ap (λ x. v ∷ x) (kept_one _ [] (omega arith)))
          | inr a ↦ rw (d, a) (kept_one _ vs (m q))
        ])

    -- After `ks_hash_insert_ex` with a check for duplicates on a valid map with room in its count, a
    -- search finds the new value for the key and for the other keys what it found before, whether or
    -- not the table grew; the table is still a valid map.
    pub search-insert :
        (h : Hash K V) (k : K) (v : V) (flags : Flags) (destructor : Option ℕ) (q : K)
        (locked : Bool)
        → IsValid h
        → h.entrycount < 2 ^ 32 - 1
        → IsMap h
        → (in_use h flags).dup_check ≡ true
        → let h' = (insert keys limit_of h k v flags destructor).1 in
          IsValid h'
          × IsMap h'
          × ((search keys h' q locked).0
              ≡ (if alike keys q k then some v else (search keys h q locked).0))
    unfolding head_of
    search-insert h k v flags destructor q locked p small m d =
        let h' = (insert keys limit_of h k v flags destructor).1 in
        let r = λ (x : K). view-insert h k v flags destructor x p small m d in
        (
          (insert_lem keys limit_of h k v flags destructor q p small).0,
          replaced-IsMap h h' k (v ∷ []) (omega arith) m r,
          search-replaced h h' k q locked (v ∷ []) r,
        )
