-- ===== src/Hash/Tests.antt =====
-- A table of numbers that checks for duplicates, and the theorems at it.
use libks.Base.{
  length, ℕ, suc, ◌≤◌, ◌⊎◌, ◌∷◌, ◌&&◌, Option, ◌<◌, ◌-◌, ◌+◌, ◌*◌, ◌/◌, ◌^◌, ◌≡◌, refl, sym, ap,
  true, false, none, some, replicate, [], arith, ◌==◌, ==_iff, if◌then◌else◌,
}
use libks.Hash.{
  Keys, Flags, no_flags, Hash, remove, insert, search, add, unchain, find, matches, hash, spread,
  release, push_front, create, is_none,
}
use libks.Hash.Remove.{IsValid, IsRemoval, remove_lem}
use libks.Hash.Insert.{kept_order}
use libks.Hash.Map.{in_use, base_of, IsMap, search-insert, search-remove, insert_lem}
use libks.Hash.Create.{create_lem}
use libks.Hash.Count.{total}
use libks.Hash.Iterate.{first}
use libks.Hash.Iterate.Visit.{visit, entries, visit-first}
use libks.Hash.Expand.{IsPlaced-empty_table, view-empty_table}
use libks.Hash.View.{alike, view, tail_of}

congr_at : (a b c : ℕ) → (a == b) ≡ true → (c == b) ≡ (c == a)
congr_at a b c h = ap (λ x. c == x) (sym ((==_iff a b).0 h))

abbrev numbers : Keys ℕ
numbers = record {
  hashfn = λ k. k;
  eqfn = λ a b. a == b;
  eqfn_refl = λ a. (==_iff a a).1 refl;
  eqfn_congr = λ a b c h. congr_at a b c h;
}

abbrev limit_at : ℕ → ℕ
limit_at size = size * 65 / 100 + 1

abbrev checking : Flags
checking = record no_flags { dup_check = true }

abbrev new_table : Hash ℕ ℕ
new_table = record {
  table = replicate 53 [];
  entrycount = 0;
  loadlimit = 35;
  primeindex = 0;
  flags = checking;
  destructor = none;
  readers = 0;
}

new_table-IsValid : IsValid new_table
unfolding total
new_table-IsValid = record {
  placed = IsPlaced-empty_table ℕ ℕ 53;
  index = omega arith;
  sized = refl;
  counted = refl;
  small = omega arith;
}

new_table-IsMap : IsMap numbers new_table
new_table-IsMap q = rw (view-empty_table numbers 53 q) (omega arith)

new_table_checks : (in_use new_table no_flags).dup_check ≡ true
unfolding in_use is_none
new_table_checks = refl

-- The table with the value 70 for the key 7.
abbrev one_key : Hash ℕ ℕ
one_key = (insert numbers limit_at new_table 7 70 no_flags none).1

one_key_good :
    IsValid one_key
    × IsMap numbers one_key
    × ((search numbers one_key 7 false).0
        ≡ (if alike numbers 7 7 then some 70 else (search numbers new_table 7 false).0))
one_key_good =
    search-insert numbers limit_at new_table 7 70 no_flags none 7 false new_table-IsValid
      (omega arith) new_table-IsMap new_table_checks

-- A second value for the key takes the place of the first.
search_twice :
    (search numbers (insert numbers limit_at one_key 7 71 no_flags none).1 7 false).0 ≡ some 71
unfolding search insert remove add push_front unchain find matches hash spread release
search_twice = refl

one_key_count : one_key.entrycount ≡ 1
unfolding insert add remove unchain hash spread
one_key_count = refl

one_key_checks : (in_use one_key no_flags).dup_check ≡ true
unfolding in_use is_none insert add remove unchain hash spread
one_key_checks = refl

small_one_key : one_key.entrycount < 2 ^ 32 - 1
small_one_key = omega (arith, one_key_count)

search-insert_example :
    let h' = (insert numbers limit_at one_key 60 600 no_flags none).1 in
    IsValid h'
    × IsMap numbers h'
    × ((search numbers h' 7 false).0
        ≡ (if alike numbers 7 60 then some 600 else (search numbers one_key 7 false).0))
search-insert_example =
    search-insert numbers limit_at one_key 60 600 no_flags none 7 false (one_key_good.0)
      small_one_key (one_key_good.1) one_key_checks

search-remove_example :
    let h' = (remove numbers one_key 7).2 in
    IsValid h'
    × IsMap numbers h'
    × ((search numbers h' 60 true).0
        ≡ (if alike numbers 60 7 then none else (search numbers one_key 60 true).0))
search-remove_example = search-remove numbers one_key 7 60 true (one_key_good.0) (one_key_good.1)

remove_lem_example : IsRemoval numbers one_key 7 7 (remove numbers one_key 7)
remove_lem_example = remove_lem numbers one_key 7 7 (one_key_good.0)

abbrev freeing : Flags
freeing = record no_flags { free_key = true }

insert_lem_example :
    let (events, h') = insert numbers limit_at one_key 7 72 freeing none in
    let used = in_use one_key freeing in
    let base = base_of numbers one_key 7 used in
    let kept =
      if used.dup_check && alike numbers 7 7
      then tail_of (view numbers one_key.table 7)
      else view numbers one_key.table 7 in
    let old = kept_order base kept in
    IsValid h'
    × (events ≡ (if used.dup_check then (remove numbers one_key 7).1 else []))
    × (h'.entrycount ≡ suc base.entrycount)
    × (view numbers h'.table 7 ≡ (if alike numbers 7 7 then 72 ∷ old else old))
insert_lem_example =
    insert_lem numbers limit_at one_key 7 72 freeing none 7 (one_key_good.0) small_one_key

create_lem_example :
    ((100 ≤ 2 ^ 30)
      × ((h : Hash ℕ ℕ) × (create limit_at 100 freeing none ≡ some h)
          × IsValid h
          × (h.entrycount ≡ 0)
          × (view numbers h.table 7 ≡ [])))
    ⊎ ((2 ^ 30 < 100) × ◌≡◌ {A = Option (Hash ℕ ℕ)} (create limit_at 100 freeing none) none)
create_lem_example = create_lem numbers limit_at 100 freeing none 7

no_readers : one_key.readers ≡ 0
unfolding insert add remove unchain hash spread
no_readers = refl

visit-first_example :
    visit (length (entries one_key.table)) (first one_key true)
    ≡ some (entries one_key.table, one_key)
visit-first_example = visit-first one_key true (omega (arith, no_readers))
