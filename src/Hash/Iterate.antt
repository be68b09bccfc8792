-- ===== src/Hash/Iterate.antt =====
-- The iterator of src/ks_hash.c. An iterator that was freed is `none`.
pub mod Visit
use libks.Base.{
  ℕ, zero, suc, ◌+◌, ◌-◌, ◌%◌, ◌^◌, ◌≡◌, Bool, true, false, Option, none, some, List, [], ◌∷◌, ◌++◌,
  length, drop, get_or, leb, ◌==◌, ◌&&◌, not, Run, done, abort, if◌then◌else◌,
}
use libks.Hash.{Keys, Entry, Chain, Hash, Event, release}

-- `struct ks_hash_iterator`; `chain` is the entry `e` and those behind it, or empty for NULL.
pub record Iterator (K V : Type 0) : Type 0 where
  pub pos : ℕ
  pub chain : Chain K V
  pub locked : Bool

module _ {K V : Type 0} where
  -- From `pos` on, the table being what is left of it there.
  pub skip_empty : List (Chain K V) → ℕ → ℕ
  skip_empty [] p = p
  skip_empty ([] ∷ cs) p = skip_empty cs (p + 1)
  skip_empty ((e ∷ c) ∷ cs) p = p

  pub last : Hash K V → Iterator K V → Hash K V
  last h i = if i.locked then record h { readers = (h.readers + 2 ^ 32 - 1) % 2 ^ 32 } else h

  -- The rest of `ks_hash_next`, where the chain is at its end.
  pub next_chain : Hash K V → Iterator K V → Option (Iterator K V) × Hash K V
  unfolding skip_empty last
  next_chain h i =
      let p = skip_empty (drop i.pos h.table) i.pos in
      if leb (length h.table) p then (none, last h i) else elim (get_or h.table p []) [
        | [] ↦ (none, last h i)
        | e ∷ c ↦ (some (record i { pos = p; chain = e ∷ c }), h)
      ]

  pub next_from : Hash K V → Iterator K V → Chain K V → Option (Iterator K V) × Hash K V
  unfolding next_chain
  next_from h i [] = next_chain h i
  next_from h i (e ∷ []) = next_chain h (record i { pos = i.pos + 1; chain = [] })
  next_from h i (e ∷ f ∷ c) = (some (record i { chain = f ∷ c }), h)

  pub next : Hash K V → Iterator K V → Option (Iterator K V) × Hash K V
  unfolding next_from
  next h i = next_from h i i.chain

  -- `ks_hash_first` after its assertion.
  pub first : Hash K V → Bool → Option (Iterator K V) × Hash K V
  unfolding next
  first h locked =
      next (if locked then record h { readers = (h.readers + 1) % 2 ^ 32 } else h)
        (record { pos = 0; chain = []; locked = locked })

  pub checked_first : Hash K V → Bool → Run (Option (Iterator K V) × Hash K V)
  unfolding first
  checked_first h locked = if locked && not h.flags.rwlock then abort else done (first h locked)

  -- `ks_hash_this`, as the entry that it reads.
  pub this : Iterator K V → Option (Entry K V)
  this i = elim i.chain [ [] ↦ none | e ∷ c ↦ some e ]

  -- `ks_hash_read_lock` and `ks_hash_read_unlock`, whether the lock is one that counts readers, and
  -- the table; the second fails an assertion where no reader is counted.
  pub read_lock : Hash K V → Bool × Hash K V
  read_lock h =
      if h.flags.rwlock then (true, record h { readers = (h.readers + 1) % 2 ^ 32 }) else (false, h)

  pub read_unlock : Hash K V → Run (Bool × Hash K V)
  read_unlock h =
      if h.flags.rwlock
      then (if h.readers == 0 then abort else done (true, record h { readers = h.readers - 1 }))
      else done (false, h)

  -- What `ks_hash_destroy` releases, in its order.
  pub destroy_chain : Option ℕ → Chain K V → List (Event K V)
  unfolding release
  destroy_chain d [] = []
  destroy_chain d (e ∷ c) = (release d e).1 ++ destroy_chain d c

  pub destroy_from : Option ℕ → List (Chain K V) → List (Event K V)
  unfolding destroy_chain
  destroy_from d [] = []
  destroy_from d (c ∷ cs) = destroy_chain d c ++ destroy_from d cs

  pub destroy : Hash K V → List (Event K V)
  unfolding destroy_from
  destroy h = destroy_from h.destructor h.table
