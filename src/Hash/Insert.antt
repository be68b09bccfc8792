-- ===== src/Hash/Insert.antt =====
-- An insertion, by what the table holds for each key, growth included.
use libks.Base.{
  ℕ, suc, ◌+◌, ◌-◌, ◌%◌, ◌^◌, ◌<◌, ◌≡◌, refl, ap, ◌∙◌, inl, inr, Bool, true, false, Bool-cases,
  ◌&&◌, not, List, [], ◌∷◌, arith, length, length-replicate, get_or, replicate, ltb, ◌==◌,
  if◌then◌else◌,
}
use libks.Hash.{Keys, Entry, Chain, Hash, primes, matches, move_table, expand, add}
use libks.Hash.View.{view, IsPlaced, view-push, IsPlaced-push}
use libks.Hash.Count.{total, total-push, total-rehash, prime_pos}
use libks.Hash.Expand.{reverse_onto, length-push, rehash}
use libks.Hash.Remove.{IsValid}

if_and :
    {A : Type 0} (a b : Bool) (x y : A)
    → (if a then (if b then x else y) else x) ≡ (if a && not b then y else x)
if_and false b x y = refl
if_and true false x y = refl
if_and true true x y = refl

module _ {K V : Type 0} where
  -- The next insertion makes the table grow.
  unfoldable pub grows : Hash K V → Bool
  grows h = ltb h.loadlimit (h.entrycount + 1) && not (h.primeindex == 25)

  -- The values of the key, in the order that they are in before the new entry is linked.
  unfoldable pub kept_order : Hash K V → List V → List V
  kept_order h vs = if grows h then reverse_onto vs [] else vs

module _ {K V : Type 0} (keys : Keys K) (limit_of : ℕ → ℕ) where
  -- The table that the new entry is linked into.
  grown_form : Hash K V → Hash K V
  grown_form h =
      let n = get_or primes (h.primeindex + 1) 0 in
      record h {
        entrycount = h.entrycount + 1;
        table = move_table h.table (replicate n []);
        loadlimit = limit_of n;
        primeindex = h.primeindex + 1;
      }

  prepared : Hash K V → Hash K V
  prepared h =
      let counted = record h { entrycount = (h.entrycount + 1) % 2 ^ 32 } in
      if ltb counted.loadlimit counted.entrycount then expand limit_of counted else counted

  record Prepared (h g : Hash K V) (turned : Bool) : Type 0 where
    placed : IsPlaced g.table
    index : g.primeindex < 26
    sized : length g.table ≡ get_or primes g.primeindex 0
    counted : g.entrycount ≡ suc h.entrycount
    held : total g.table ≡ total h.table
    same :
        (q : K)
        → view keys g.table q
          ≡ (if turned then reverse_onto (view keys h.table q) [] else view keys h.table q)

  next_count :
      (h : Hash K V) → h.entrycount < 2 ^ 32 - 1 → (h.entrycount + 1) % 2 ^ 32 ≡ h.entrycount + 1
  next_count h small = omega arith

  prepared_cases :
      (h : Hash K V)
      → h.entrycount < 2 ^ 32 - 1
      → prepared h ≡ (if grows h then grown_form h else record h { entrycount = h.entrycount + 1 })
  unfolding prepared expand grows grown_form
  prepared_cases h small =
      rw (next_count h small) (if_and (ltb h.loadlimit (h.entrycount + 1)) (h.primeindex == 25) _ _)

  stays-Prepared :
      (h : Hash K V) → IsValid h → Prepared h (record h { entrycount = h.entrycount + 1 }) false
  stays-Prepared h p = record {
    placed = p.placed;
    index = p.index;
    sized = p.sized;
    counted = omega arith;
    held = refl;
    same = λ q. refl;
  }

  grown-Prepared : (h : Hash K V) → IsValid h → grows h ≡ true → Prepared h (grown_form h) true
  unfolding grown_form grows
  grown-Prepared h p g =
      let n = get_or primes (h.primeindex + 1) 0 in
      let index : h.primeindex + 1 < 26 = ground (arith, p.index) in
      let pos = prime_pos (h.primeindex + 1) index in
      let (l, placed, same) = rehash keys h.table n pos p.placed in
      record {
        placed = placed;
        index = index;
        sized = l;
        counted = omega arith;
        held = total-rehash h.table n (omega (arith, length-replicate {A = Chain K V} n []));
        same = same;
      }

  prepared-Prepared :
      (h : Hash K V) → IsValid h → h.entrycount < 2 ^ 32 - 1 → Prepared h (prepared h) (grows h)
  prepared-Prepared h p small = rw (prepared_cases h small) (elim (Bool-cases (grows h)) [
    | inl g ↦ rw g (grown-Prepared h p g)
    | inr g ↦ rw g (stays-Prepared h p)
  ])

  pub add_lem :
      (h : Hash K V) (e : Entry K V) (q : K)
      → IsValid h
      → h.entrycount < 2 ^ 32 - 1
      → let h' = add keys limit_of h e in
        IsValid h'
        × (h'.entrycount ≡ suc h.entrycount)
        × (view keys h'.table q ≡ (
            if matches keys q e
            then e.v ∷ kept_order h (view keys h.table q)
            else kept_order h (view keys h.table q)))
  unfolding add kept_order prepared
  add_lem h e q p small =
      let g = prepared h in
      let r = prepared-Prepared h p small in
      let pos : 0 < length g.table = omega (arith, r.sized, prime_pos g.primeindex r.index) in
      (
        record {
          placed = IsPlaced-push keys g.table e pos r.placed;
          index = r.index;
          sized = length-push g.table e ∙ r.sized;
          counted = omega (arith, r.counted, r.held, p.counted, total-push g.table e pos);
          small = omega (arith, r.counted);
        },
        r.counted,
        view-push keys g.table e q pos
            ∙ ap (λ x. if matches keys q e then e.v ∷ x else x) (r.same q),
      )
