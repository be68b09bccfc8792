-- ===== src/Pool/Tests.antt =====
-- A pool of two blocks, and the theorems at it. Addresses are given out in steps of 1000.
use libks.Base.{
  ℕ, ◌+◌, ◌*◌, ◌%◌, ◌^◌, ◌≡◌, ◌<◌, ◌⊎◌, map, inl, refl, true, Option, none, some, [], ◌∷◌, arith,
  replicate, ◌==◌, if◌then◌else◌, done, abort, sub_size, length-replicate,
}
use libks.Pool.{
  Block, Memory, Pool, Malloc, success, refs_exist, new_block, new_pool, prefix_size, fence_of,
  announce, teardown, destroy, has_magic, check_pool, cleanup_on_free,
}
use libks.Pool.Calls.{alloc_ex, calloc_ex, free_ex, ref_ex, clear, resize_ex, resized}
use libks.Pool.Links.{linked}
use libks.Pool.Holds.{IsGood, Holds}
use libks.Pool.Allocate.{Allocated, alloc_ex_lem, calloc_ex_lem}
use libks.Pool.Free.{Freed, called, with_refs, replaced, free_ex_lem, free_ex-ref_ex}
use libks.Pool.Clear.{Cleared, all_calls, clear_lem}
use libks.Pool.Resize.{Resized, resize_ex_moves, resize_ex-free_ex}

-- An allocator that gives the address 1000, or none where that is in use, and does not move blocks.
pick : Memory → ℕ → Option ℕ
pick m n = elim (m 1000) [ none ↦ some 1000 | some b ↦ none ]

pick_unused : (m : Memory) (n a : ℕ) → pick m n ≡ some a → m a ≡ none
unfolding pick
pick_unused m n a h = ground arith

stays : (a b : ℕ) → ◌≡◌ {A = Option ℕ} (some a) (some b) → b ≡ a
stays a b h = cc h

abbrev allocator : Malloc
allocator = record {
  malloc = pick;
  realloc = λ m a n. some a;
  added = λ m a n. replicate n 0;
  malloc_unused = pick_unused;
  realloc_unused = λ m a n b h. inl (stays a b h);
  length-added = λ m a n. length-replicate n 0;
}

-- A block of 8 bytes with a callback at 10, and one of 4 bytes that is shared at 20.
abbrev eight : Block
eight = record (new_block 8 none) { cleanup_callback = some 77 }

abbrev four : Block
four = record (new_block 4 none) { refs = 2 }

two_blocks : Memory
two_blocks x =
    if x == 10
    then some (linked eight none (some 20))
    else (if x == 20 then some (linked four (some 10) none) else none)

abbrev two : Pool
two = record (new_pool two_blocks) {
  alloc_c = 2;
  user_alloc = 12;
  max_alloc = 12;
  first = some 10;
  last = some 20;
}

eight-IsGood : IsGood eight
unfolding has_magic fence_of
eight-IsGood = record { words = refl; fenced = refl; sized = refl; used = omega arith }

four-IsGood : IsGood four
unfolding has_magic fence_of
four-IsGood = record { words = refl; fenced = refl; sized = refl; used = omega arith }

two-Holds : Holds two ((10, eight) ∷ (20, four) ∷ [])
unfolding two_blocks check_pool
two-Holds = record {
  listed = record {
    chain = (refl, (refl, tt));
    first_at = refl;
    last_at = refl;
    distinct = omega arith;
  };
  sane = refl;
  good = (eight-IsGood, (four-IsGood, tt));
  counted = refl;
  small = omega arith;
}

alloc_ex_lem_example :
    ((allocator.malloc two.mem (prefix_size + 3 + 2) ≡ none) × (alloc_ex allocator two 3 ≡ abort))
    ⊎ ((a : ℕ) × (p' : Pool) × (alloc_ex allocator two 3 ≡ done (a, p'))
        × Allocated two ((10, eight) ∷ (20, four) ∷ []) 3 a p')
alloc_ex_lem_example =
    alloc_ex_lem allocator two ((10, eight) ∷ (20, four) ∷ []) 3 two-Holds (omega arith)
      (omega arith) (omega arith)

-- 2 ^ 62 + 1 elements of 4 bytes.
calloc_ex_lem_example :
    let r = (2 ^ 62 + 1) * 4 % 2 ^ 64 in
    ((r ≡ 0) × (calloc_ex allocator two (2 ^ 62 + 1) 4 ≡ abort))
    ⊎ (((allocator.malloc two.mem (prefix_size + r + 2) ≡ none)
          × (calloc_ex allocator two (2 ^ 62 + 1) 4 ≡ abort))
        ⊎ ((a : ℕ) × (p' : Pool) × (calloc_ex allocator two (2 ^ 62 + 1) 4 ≡ done (a, p'))
            × Allocated two ((10, eight) ∷ (20, four) ∷ []) r a p'))
calloc_ex_lem_example =
    calloc_ex_lem allocator two ((10, eight) ∷ (20, four) ∷ []) (2 ^ 62 + 1) 4 two-Holds
      (omega arith) (omega arith) (omega arith) (omega arith)

free_ex_lem_example :
    ((1 < eight.refs)
      × (free_ex two (some 10)
          ≡ done (
            refs_exist,
            some 10,
            [],
            replaced two [] 10 eight ((20, four) ∷ []) two-Holds (with_refs eight 0),
          ))
      × Holds
          (replaced two [] 10 eight ((20, four) ∷ []) two-Holds (with_refs eight 0))
          ((10, with_refs eight 0) ∷ (20, four) ∷ []))
    ⊎ ((eight.refs ≡ 1)
        × ((p' : Pool) × (free_ex two (some 10)
              ≡ done (
                success,
                none,
                (if two.cleaning_up then [] else (elim eight.cleanup_callback [
                  | none ↦ []
                  | some f ↦
                      map
                        (called two [] 10 eight ((20, four) ∷ []) two-Holds f)
                        (announce ∷ teardown ∷ destroy ∷ [])
                ])),
                p',
              ))
            × Freed two [] 10 eight ((20, four) ∷ []) two-Holds p'))
free_ex_lem_example = free_ex_lem two [] 10 eight ((20, four) ∷ []) two-Holds

free_ex-ref_ex_example :
    (p1 : Pool) × (p2 : Pool) × (ref_ex two 20 ≡ done (20, p1))
    × (free_ex p1 (some 20) ≡ done (refs_exist, some 20, [], p2))
    × Holds p2 ((10, eight) ∷ (20, four) ∷ [])
free_ex-ref_ex_example = free_ex-ref_ex two ((10, eight) ∷ []) 20 four [] two-Holds (omega arith)

clear_lem_example :
    (m : Memory) × (clear 2 two
      ≡ done (
        all_calls two ((10, eight) ∷ (20, four) ∷ []),
        record two { mem = m; first = none; last = none; cleaning_up = true },
      ))
    × Cleared two.mem ((10, eight) ∷ (20, four) ∷ []) m
clear_lem_example = clear_lem 2 two ((10, eight) ∷ (20, four) ∷ []) two-Holds (omega arith)

resize_ex_moves_example :
    (p' : Pool) × (resize_ex allocator two 10 30 ≡ done (some 10, p'))
    × Resized allocator two [] 10 eight ((20, four) ∷ []) two-Holds 30 10 p'
resize_ex_moves_example =
    resize_ex_moves allocator two [] 10 eight ((20, four) ∷ []) two-Holds 30 10 refl (omega arith)
      refl (omega arith) refl

resize_ex-free_ex_example :
    (p1 : Pool) × (p2 : Pool) × (resize_ex allocator two 10 30 ≡ done (some 10, p1))
    × (free_ex p1 (some 10)
        ≡ done (success, none, cleanup_on_free p1 10 (resized allocator two.mem 10 eight 30), p2))
    × Holds p2 ((20, four) ∷ [])
    × (p2.user_alloc ≡ sub_size two.user_alloc 30)
resize_ex-free_ex_example =
    resize_ex-free_ex allocator two [] 10 eight ((20, four) ∷ []) two-Holds 30 10 refl (omega arith)
      refl (omega arith) refl

-- A block whose fence was written over.
abbrev spoilt : Block
spoilt = record (new_block 1 none) { bytes = 5 ∷ 0 ∷ 0 ∷ [] }

spoilt_memory : Memory
spoilt_memory x = if x == 10 then some spoilt else none

abbrev spoilt_pool : Pool
spoilt_pool = record (new_pool spoilt_memory) {
  alloc_c = 1;
  user_alloc = 1;
  first = some 10;
  last = some 10;
}
