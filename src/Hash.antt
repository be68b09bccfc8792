-- ===== src/Hash.antt =====
-- src/ks_hash.c: the chained hash table, with its growth through a list of primes, and its iterator.
-- The locks are left to their own model; memory for the table and the entries is taken to be there,
-- so that the second plan of `ks_hash_expand` is not followed.
pub mod View
pub mod Expand
pub mod Count
pub mod Remove
pub mod Insert
pub mod Map
pub mod Create
pub mod Iterate
mod Tests
use Prim.Native.Nat.{bit_xor}
use libks.Base.{
  ℕ, zero, suc, ◌+◌, ◌-◌, ◌*◌, ◌/◌, ◌%◌, ◌^◌, ◌≡◌, Bool, true, false, not, ◌&&◌, ◌||◌, Option, none,
  some, List, [], ◌∷◌, ◌++◌, length, replicate, get_or, set, ltb, leb, ◌==◌, if◌then◌else◌, Run,
  done, abort,
}

-- What the caller gives: a hash function and a test for equal keys, which is an equivalence.
pub record Keys (K : Type 0) : Type 0 where
  pub hashfn : K → ℕ
  pub eqfn : K → K → Bool
  pub eqfn_refl : (a : K) → eqfn a a ≡ true
  pub eqfn_congr : (a b c : K) → eqfn a b ≡ true → eqfn c b ≡ eqfn c a

-- `ks_hash_flag_t`
pub record Flags : Type 0 where
  pub free_key : Bool
  pub free_value : Bool
  pub dup_check : Bool
  pub rwlock : Bool
  pub nolock : Bool

abbrev pub no_flags : Flags
no_flags = record {
  free_key = false;
  free_value = false;
  dup_check = false;
  rwlock = false;
  nolock = false;
}

pub is_none : Flags → Bool
is_none f = not (f.free_key || f.free_value || f.dup_check || f.rwlock || f.nolock)

-- `struct entry`; the rest of its chain follows it in a list. A destructor is a number.
pub record Entry (K V : Type 0) : Type 0 where
  pub k : K
  pub v : V
  pub h : ℕ
  pub flags : Flags
  pub destructor : Option ℕ

abbrev pub Chain : Type 0 → Type 0 → Type 0
Chain K V = List (Entry K V)

-- `struct ks_hash`; the length of `table` is `tablelength`.
pub record Hash (K V : Type 0) : Type 0 where
  pub table : List (Chain K V)
  pub entrycount : ℕ
  pub loadlimit : ℕ
  pub primeindex : ℕ
  pub flags : Flags
  pub destructor : Option ℕ
  pub readers : ℕ

-- What a call releases.
pub data Event (K V : Type 0) : Type 0 where
  freed_key : K → Event K V
  freed_value : V → Event K V
  destroyed : ℕ → V → Event K V

abbrev pub primes : List ℕ
primes =
    53 ∷ 97 ∷ 193 ∷ 389 ∷ 769 ∷ 1543 ∷ 3079 ∷ 6151 ∷ 12289 ∷ 24593 ∷ 49157 ∷ 98317 ∷ 196613 ∷ 393241
    ∷ 786433 ∷ 1572869 ∷ 3145739 ∷ 6291469 ∷ 12582917 ∷ 25165843 ∷ 50331653 ∷ 100663319 ∷ 201326611
    ∷ 402653189 ∷ 805306457 ∷ 1610612741 ∷ []

-- `i += ~(i << 9); i ^= (i >> 14) | (i << 18); i += i << 4; i ^= (i >> 10) | (i << 22)` in 32 bits;
-- the two shifts of a rotation share no bit, so `|` is `+`.
pub spread : ℕ → ℕ
spread code =
    let i0 = code % 2 ^ 32 in
    let i1 = (i0 + (2 ^ 32 - 1 - i0 * 2 ^ 9 % 2 ^ 32)) % 2 ^ 32 in
    let i2 = bit_xor i1 (i1 / 2 ^ 14 + i1 * 2 ^ 18 % 2 ^ 32) in
    let i3 = (i2 + i2 * 2 ^ 4) % 2 ^ 32 in bit_xor i3 (i3 / 2 ^ 10 + i3 * 2 ^ 22 % 2 ^ 32)

-- The first prime above `minsize`, with its index; the first prime where there is none.
pub choose_prime : ℕ → List ℕ → ℕ → ℕ × ℕ
choose_prime minsize [] i = (53, i)
choose_prime minsize (p ∷ ps) i =
    let rest = choose_prime minsize ps (i + 1) in if ltb minsize p then (p, i) else rest

module _ {K V : Type 0} where
  -- `e->next = table[index]; table[index] = e`
  pub push_front : List (Chain K V) → Entry K V → List (Chain K V)
  push_front t e = let i = e.h % length t in set t i (e ∷ get_or t i [])

  -- The entries of a chain, from its head on, into the new table.
  pub move_chain : Chain K V → List (Chain K V) → List (Chain K V)
  unfolding push_front
  move_chain [] t = t
  move_chain (e ∷ es) t = move_chain es (push_front t e)

  pub move_table : List (Chain K V) → List (Chain K V) → List (Chain K V)
  unfolding move_chain
  move_table [] t = t
  move_table (c ∷ cs) t = move_table cs (move_chain c t)

-- The load limit is `ceil(size * 0.65f)`; the floating-point product is a parameter.
module _ (limit_of : ℕ → ℕ) {K V : Type 0} where
  -- `ks_hash_create_ex`, the choice of the key functions apart; `none` where it fails.
  pub create : ℕ → Flags → Option ℕ → Option (Hash K V)
  unfolding choose_prime
  create minsize flags destructor =
      let asked = if minsize == 0 then 16 else minsize in
      let (size, index) = choose_prime asked primes 0 in
      let locks = if flags.nolock then record flags { rwlock = false } else flags in
      if ltb (2 ^ 30) asked
      then none
      else some (record {
        table = replicate size [];
        entrycount = 0;
        loadlimit = limit_of size;
        primeindex = index;
        flags = locks;
        destructor = destructor;
        readers = 0;
      })

  -- `ks_hash_expand`
  pub expand : Hash K V → Hash K V
  unfolding move_table
  expand h =
      if h.primeindex == length primes - 1
      then h
      else (let newsize = get_or primes (h.primeindex + 1) 0 in
          record h {
            table = move_table h.table (replicate newsize []);
            loadlimit = limit_of newsize;
            primeindex = h.primeindex + 1;
          })

-- What happens to the key and the value of an entry that goes: the value that the call returns, and
-- what it releases.
module _ {K V : Type 0} where
  pub release_value : Option ℕ → Entry K V → Option V × List (Event K V)
  release_value table_destructor e =
      if e.flags.free_value then (none, freed_value e.v ∷ []) else (elim e.destructor [
        | some d ↦ (none, destroyed d e.v ∷ [])
        | none ↦ elim table_destructor [
          | some d ↦ (none, destroyed d e.v ∷ [])
          | none ↦ (some e.v, [])
        ]
      ])

  pub release : Option ℕ → Entry K V → Option V × List (Event K V)
  unfolding release_value
  release table_destructor e =
      let (v, events) = release_value table_destructor e in
      (v, if e.flags.free_key then freed_key e.k ∷ events else events)

pub hash : {K : Type 0} → Keys K → K → ℕ
unfolding spread
hash keys k = spread (keys.hashfn k)

module _ {K V : Type 0} (keys : Keys K) where
  -- `(hashvalue == e->h) && (key_equals(h, k, e->k))`
  pub matches : K → Entry K V → Bool
  matches k e = hash keys k == e.h && keys.eqfn k e.k

  -- The first entry that matches, and the chain without it.
  pub unchain : K → Chain K V → Option (Entry K V × Chain K V)
  unfolding matches
  unchain k [] = none
  unchain k (e ∷ c) =
      let rest = unchain k c in
      if matches k e
      then some (e, c)
      else elim rest [ none ↦ none | some (found, c') ↦ some (found, e ∷ c') ]

  -- `_ks_hash_remove`: the value returned, what is released, and the table.
  pub remove : Hash K V → K → Option V × List (Event K V) × Hash K V
  unfolding unchain release
  remove h k =
      let i = hash keys k % length h.table in
      elim (unchain k (get_or h.table i [])) [
        | none ↦ (none, [], h)
        | some (e, c) ↦
            let (v, events) = release h.destructor e in
            (
              v,
              events,
              record h {
                table = set h.table i c;
                entrycount = (h.entrycount + 2 ^ 32 - 1) % 2 ^ 32;
              },
            )
      ]

  pub find : K → Chain K V → Option V
  find k [] = none
  find k (e ∷ c) = if matches k e then some e.v else find k c

  -- `ks_hash_search` after its assertion; under a read lock one more reader is counted.
  pub search : Hash K V → K → Bool → Option V × Hash K V
  search h k locked = (
    find k (get_or h.table (hash keys k % length h.table) []),
    (if locked then record h { readers = (h.readers + 1) % 2 ^ 32 } else h),
  )

  -- `ks_hash_search`, which asserts that a table read under the lock has one.
  pub checked_search : Hash K V → K → Bool → Run (Option V × Hash K V)
  unfolding search
  checked_search h k locked =
      if locked && not h.flags.rwlock then abort else done (search h k locked)

  -- The end of `ks_hash_insert_ex`: count, grow, and link the new entry.
  pub add : (ℕ → ℕ) → Hash K V → Entry K V → Hash K V
  unfolding expand push_front
  add limit_of h e =
      let counted = record h { entrycount = (h.entrycount + 1) % 2 ^ 32 } in
      let grown =
        if ltb counted.loadlimit counted.entrycount then expand limit_of counted else counted in
      record grown { table = push_front grown.table e }

  -- `ks_hash_insert_ex`
  pub insert : (ℕ → ℕ) → Hash K V → K → V → Flags → Option ℕ → List (Event K V) × Hash K V
  unfolding add remove is_none
  insert limit_of h k v flags destructor =
      let used = if is_none flags then h.flags else flags in
      let e : Entry K V = record {
        k = k;
        v = v;
        h = hash keys k;
        flags = used;
        destructor = destructor;
      } in
      if used.dup_check
      then (let (_, events, h') = remove h k in (events, add limit_of h' e))
      else ([], add limit_of h e)

  pub count : Hash K V → ℕ
  count h = h.entrycount
