-- ===== src/Pool.antt =====
-- src/ks_pool.c: a memory pool, its list of allocations and its calls. The prefix of an allocation
-- and the bytes behind it are a `Block`; memory gives the block that starts at an address. The
-- blocks are those of one pool that has no log function. A call of a clean-up callback is recorded;
-- a callback that calls the pool back, as that of a string builder does, is left out.
mod Tests
pub mod Calls
pub mod Links
pub mod Unlink
pub mod Holds
pub mod Allocate
pub mod Free
pub mod Clear
pub mod Resize
use libks.Base.{
  ℕ, zero, suc, ◌+◌, ◌-◌, ◌*◌, ◌%◌, ◌^◌, ◌≡◌, ◌≤◌, ◌⊎◌, Bool, true, false, not, ◌&&◌, ◌||◌, Option,
  none, some, List, [], ◌∷◌, ◌++◌, length, take, drop, replicate, ltb, leb, ◌==◌, if◌then◌else◌,
  Run, done, abort, fault, ◌>>=◌, add_size, sub_size,
}

-- `struct ks_pool_prefix_s` with the memory that it stands before: `size` bytes and the fence.
pub record Block : Type 0 where
  pub magic1 : ℕ
  pub size : ℕ
  pub magic2 : ℕ
  pub refs : ℕ
  pub prev : Option ℕ
  pub next : Option ℕ
  pub magic3 : ℕ
  pub cleanup_callback : Option ℕ
  pub cleanup_arg : Option ℕ
  pub magic4 : ℕ
  pub magic5 : ℕ
  pub bytes : List ℕ

abbrev pub Memory : Type 0
Memory = ℕ → Option Block

-- `struct ks_pool_s`, with the memory that its pointers lead to.
pub record Pool : Type 0 where
  pub mem : Memory
  pub magic1 : ℕ
  pub alloc_c : ℕ
  pub user_alloc : ℕ
  pub max_alloc : ℕ
  pub first : Option ℕ
  pub last : Option ℕ
  pub magic2 : ℕ
  pub cleaning_up : Bool

-- The codes of `ks_status_t` that a pool's calls return.
pub data Status : Type 0 where
  success refs_exist pnt pool_over pnt_over not_allowed : Status

-- `ks_pool_cleanup_action_t`
pub data Action : Type 0 where
  announce teardown destroy : Action

-- The call of a callback: the function, the address, its argument, the action, and whether the
-- whole pool is freed.
pub record Event : Type 0 where
  pub callback : ℕ
  pub addr : ℕ
  pub arg : Option ℕ
  pub action : Action
  pub global : Bool

-- `malloc` and `realloc` of C: an address that is not in use, or none; `realloc` may stay, and what
-- it adds is not determined.
pub record Malloc : Type 0 where
  pub malloc : Memory → ℕ → Option ℕ
  pub realloc : Memory → ℕ → ℕ → Option ℕ
  pub added : Memory → ℕ → ℕ → List ℕ
  pub malloc_unused : (m : Memory) (n a : ℕ) → malloc m n ≡ some a → m a ≡ none
  pub realloc_unused : (m : Memory) (a n b : ℕ) → realloc m a n ≡ some b → (b ≡ a) ⊎ (m b ≡ none)
  pub length-added : (m : Memory) (a n : ℕ) → length (added m a n) ≡ n

abbrev pub magic : ℕ
magic = 0xDEADBEEF

abbrev pub fence : List ℕ
fence = 0xFA ∷ 0xD3 ∷ []

abbrev pub prefix_size : ℕ
prefix_size = 96

abbrev pub put : Memory → ℕ → Option Block → Memory
put m a b x = if x == a then b else m x

-- A pointer is followed; there is no block where it is dangling.
unfoldable pub deref : Memory → ℕ → Run Block
deref m a = elim (m a) [ none ↦ fault | some b ↦ done b ]

pub has_magic : Block → Bool
has_magic b =
    b.magic1 == magic
    && b.magic2 == magic
    && b.magic3 == magic
    && b.magic4 == magic
    && b.magic5 == magic

-- `CHECK_PREFIX`
pub checked : Memory → ℕ → Run Block
unfolding deref has_magic
checked m a = do b ← deref m a; if has_magic b then done b else abort

pub check_pool : Pool → Status
check_pool p =
    if not (p.magic1 == magic)
    then pnt
    else (if not (p.magic2 == magic) then pool_over else success)

-- The two bytes at the front.
pub fence_of : List ℕ → Status
fence_of [] = pnt_over
fence_of (x ∷ []) = pnt_over
fence_of (x ∷ y ∷ r) = if x == 0xFA && y == 0xD3 then success else pnt_over

-- `ks_debug_break` sends SIGINT to the process, which ends it: it has no handler for the signal.
pub debug_break : Run (Unit {0})
debug_break = abort

-- `check_fence` behind the bytes of a block.
pub check_fence : Block → Run Status
unfolding fence_of debug_break
check_fence b = elim (fence_of (drop b.size b.bytes)) [
  | success ↦ done success
  | _ ↦ do _ ← debug_break; done pnt_over
]

pub event : ℕ → ℕ → Block → Action → Bool → Event
event f a b action global = record {
  callback = f;
  addr = a;
  arg = b.cleanup_arg;
  action = action;
  global = global;
}

-- `perform_pool_cleanup_on_free`, of a callback that leaves the pool as it is.
pub cleanup_on_free : Pool → ℕ → Block → List Event
unfolding event
cleanup_on_free p a b = if p.cleaning_up then [] else (elim b.cleanup_callback [
  | none ↦ []
  | some f ↦
      event f a b announce false ∷ event f a b teardown false ∷ event f a b destroy false ∷ []
])

abbrev pub new_block : ℕ → Option ℕ → Block
new_block size next = record {
  magic1 = magic;
  size = size;
  magic2 = magic;
  refs = 1;
  prev = none;
  next = next;
  magic3 = magic;
  cleanup_callback = none;
  cleanup_arg = none;
  magic4 = magic;
  magic5 = magic;
  bytes = replicate size 0 ++ fence;
}

-- `if (pool->first) pool->first->prev = prefix; pool->first = prefix; if (!pool->last) …`
pub link_first : Pool → ℕ → Block → Run Pool
unfolding deref
link_first p a b =
    let last : Option ℕ = elim p.last [ none ↦ some a | some l ↦ some l ] in
    elim p.first [
      | none ↦ done (record p { mem = put p.mem a (some b); first = some a; last = last })
      | some f ↦ do
        fb ← deref (put p.mem a (some b)) f
        done (record p {
          mem = put (put p.mem a (some b)) f (some (record fb { prev = some a }));
          first = some a;
          last = last;
        })
    ]

pub count_alloc : Pool → ℕ → Pool
count_alloc p size =
    let user = add_size p.user_alloc size in
    record p {
      alloc_c = add_size p.alloc_c 1;
      user_alloc = user;
      max_alloc = if ltb p.max_alloc user then user else p.max_alloc;
    }

-- Where the size that is required wraps around, the block asked for is shorter than its prefix and
-- its fence: that is `fault`, whatever `malloc` answers.
pub alloc_mem : Malloc → Pool → ℕ → Run (ℕ × Pool)
unfolding link_first count_alloc
alloc_mem c p size =
    if size == 0
    then abort
    else (if leb (2 ^ 64) (prefix_size + size + 2)
        then fault
        else (elim (c.malloc p.mem (prefix_size + size + 2)) [
          | none ↦ abort
          | some a ↦ do p' ← link_first p a (new_block size p.first); done (a, count_alloc p' size)
        ]))

-- The block at `a` taken out of the list, and its memory freed.
pub unlink : Pool → ℕ → Block → Run Pool
unfolding deref
unlink p a b = elim b.prev [
  | none ↦ elim b.next [
    | none ↦ done (record p { mem = put p.mem a none; first = none; last = none })
    | some n ↦ do
      nb ← deref p.mem n
      done (record p {
        mem = put (put p.mem n (some (record nb { prev = none }))) a none;
        first = some n;
      })
  ]
  | some q ↦ elim b.next [
    | none ↦ do
      qb ← deref p.mem q
      done (record p {
        mem = put (put p.mem q (some (record qb { next = none }))) a none;
        last = some q;
      })
    | some n ↦ do
      qb ← deref p.mem q
      let m = put p.mem q (some (record qb { next = some n }))
      nb ← deref m n
      done (record p { mem = put (put m n (some (record nb { prev = some q }))) a none })
  ]
]

-- The end of `free_mem`, where no reference is left.
pub free_block : Pool → ℕ → Block → Run (Status × List Event × Pool)
unfolding check_fence cleanup_on_free unlink
free_block p a b = do
  status ← check_fence b
  p' ← unlink p a b
  done (
    status,
    cleanup_on_free p a b,
    record p' { alloc_c = sub_size p'.alloc_c 1; user_alloc = sub_size p'.user_alloc b.size },
  )

pub free_mem : Pool → ℕ → Run (Status × List Event × Pool)
unfolding checked free_block
free_mem p a = do
  b ← checked p.mem a
  let refs = if ltb 0 b.refs then b.refs - 1 else b.refs
  if ltb 0 refs
      then done (refs_exist, [], record p { mem = put p.mem a (some (record b { refs = refs })) })
      else free_block p a b

-- `ks_pool_raw_open`
abbrev pub new_pool : Memory → Pool
new_pool m = record {
  mem = m;
  magic1 = magic;
  alloc_c = 0;
  user_alloc = 0;
  max_alloc = 0;
  first = none;
  last = none;
  magic2 = magic;
  cleaning_up = false;
}
