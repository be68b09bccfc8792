-- ===== src/Pool/Calls.antt =====
-- The calls of src/ks_pool.c, over its list of allocations. Each holds the pool's mutex, so it is
-- one step.
use libks.Base.{
  ℕ, zero, suc, ◌+◌, ◌-◌, ◌*◌, ◌%◌, ◌^◌, Bool, true, false, ◌||◌, Option, none, some, List, [], ◌∷◌,
  ◌++◌, take, ltb, leb, ◌==◌, if◌then◌else◌, Run, done, abort, fault, ◌>>=◌, add_size,
}
use libks.Pool.{
  Block, Memory, Pool, Status, success, refs_exist, Action, announce, teardown, destroy, Event,
  Malloc, fence, prefix_size, put, deref, checked, check_pool, check_fence, event, alloc_mem,
  free_mem,
}

-- `__ks_pool_alloc_ex`. The other errors of the calls below end in a failed assertion too.
unfoldable pub alloc_ex : Malloc → Pool → ℕ → Run (ℕ × Pool)
unfolding alloc_mem check_pool checked
alloc_ex c p size = if size == 0 then abort else (elim (check_pool p) [
  | success ↦ do (a, p') ← alloc_mem c p size; b ← checked p'.mem a; done (a, p')
  | _ ↦ abort
])

-- `__ks_pool_calloc_ex`; the product wraps around.
unfoldable pub calloc_ex : Malloc → Pool → ℕ → ℕ → Run (ℕ × Pool)
unfolding alloc_mem check_pool
calloc_ex c p ele_n ele_size =
    if ele_n == 0 || ele_size == 0
    then abort
    else (elim (check_pool p) [ success ↦ alloc_mem c p (ele_n * ele_size % 2 ^ 64) | _ ↦ abort ])

-- What a status other than `refs_exist` leads to: the pointer is cleared, or the assertion fails.
unfoldable pub after_free :
    Option ℕ → Status × List Event × Pool → Run (Status × Option ℕ × List Event × Pool)
after_free addr (refs_exist, events, p) = done (refs_exist, addr, events, p)
after_free addr (success, events, p) = done (success, none, events, p)
after_free addr (_, events, p) = abort

-- `ks_pool_free_ex`: the status, the caller's pointer, and the callbacks that were called.
unfoldable pub free_ex : Pool → Option ℕ → Run (Status × Option ℕ × List Event × Pool)
unfolding checked check_pool free_mem after_free
free_ex p none = done (success, none, [], p)
free_ex p (some a) = do
  b ← checked p.mem a
  elim (check_pool p) [ success ↦ do r ← free_mem p a; after_free (some a) r | _ ↦ abort ]

-- `ks_pool_ref_ex`
unfoldable pub ref_ex : Pool → ℕ → Run (ℕ × Pool)
unfolding checked check_pool
ref_ex p a = do
  b ← checked p.mem a
  elim (check_pool p) [
    | success ↦
        done (a, record p { mem = put p.mem a (some (record b { refs = add_size b.refs 1 })) })
    | _ ↦ abort
  ]

-- `ks_pool_set_cleanup` and `ks_pool_remove_cleanup`
unfoldable pub set_cleanup : Pool → ℕ → Option ℕ → ℕ → Run Pool
unfolding checked
set_cleanup p a arg callback = do
  b ← checked p.mem a
  done (record p {
    mem = put p.mem a (some (record b { cleanup_arg = arg; cleanup_callback = some callback }));
  })

unfoldable pub remove_cleanup : Pool → ℕ → Run Pool
unfolding checked
remove_cleanup p a = do
  b ← checked p.mem a
  done (record p {
    mem = put p.mem a (some (record b { cleanup_arg = none; cleanup_callback = none }));
  })

-- `ks_pool_verify`
unfoldable pub verify : Pool → Option ℕ → Run Bool
unfolding checked check_fence
verify p none = done false
verify p (some a) = do
  b ← checked p.mem a
  status ← check_fence b
  done (elim status [ success ↦ true | _ ↦ false ])

-- `ks_pool_stats`: the allocations, the user's bytes, their maximum, and the bytes in all.
unfoldable pub stats : Pool → Run (ℕ × ℕ × ℕ × ℕ)
unfolding check_pool
stats p = elim (check_pool p) [
  | success ↦ done (
    p.alloc_c,
    p.user_alloc,
    p.max_alloc,
    add_size p.user_alloc (p.alloc_c * (prefix_size + 2) % 2 ^ 64),
  )
  | _ ↦ abort
]

-- `if (prefix->prev) prefix->prev->next = prefix; else pool->first = prefix`, the prefix being at `c`.
unfoldable pub relink_prev : Pool → ℕ → Option ℕ → Run Pool
unfolding deref
relink_prev p c none = done (record p { first = some c })
relink_prev p c (some q) = do
  b ← deref p.mem q
  done (record p { mem = put p.mem q (some (record b { next = some c })) })

-- `if (prefix->next) prefix->next->prev = prefix; else pool->last = prefix`
unfoldable pub relink_next : Pool → ℕ → Option ℕ → Run Pool
unfolding deref
relink_next p c none = done (record p { last = some c })
relink_next p c (some n) = do
  b ← deref p.mem n
  done (record p { mem = put p.mem n (some (record b { prev = some c })) })

-- The block of a new size that `realloc` gave, with its fence.
unfoldable pub resized : Malloc → Memory → ℕ → Block → ℕ → Block
resized c m a b size = record b {
  size = size;
  bytes = take size (b.bytes ++ c.added m a (size - (b.size + 2))) ++ fence;
}

-- `__ks_pool_resize_ex` once the prefix and the pool were checked. The assertion at its end fails
-- where there is more than one reference.
unfoldable pub resize_block : Malloc → Pool → ℕ → Block → ℕ → Run (Option ℕ × Pool)
unfolding relink_prev relink_next resized
resize_block c p a b size =
    if ltb 1 b.refs
    then abort
    else (if size == b.size
        then done (some a, p)
        else (if leb (2 ^ 64) (prefix_size + size + 2)
            then fault
            else (elim (c.realloc p.mem a (prefix_size + size + 2)) [
              | none ↦ abort
              | some d ↦ do
                let b' = resized c p.mem a b size
                p1 ← relink_prev (record p { mem = put (put p.mem a none) d (some b') }) d b'.prev
                p' ← relink_next p1 d b'.next
                done (some d, p')
            ])))

unfoldable pub resize_ex : Malloc → Pool → ℕ → ℕ → Run (Option ℕ × Pool)
unfolding checked check_pool resize_block
resize_ex c p a size = if size == 0 then abort else (do
  b ← checked p.mem a
  elim (check_pool p) [ success ↦ resize_block c p a b size | _ ↦ done (none, p) ])

-- One of the passes of `perform_pool_cleanup` from an allocation on. Where the fuel ends the list
-- has no end.
unfoldable pub pass : ℕ → Memory → Option ℕ → Action → Run (List Event)
unfolding deref event
pass f m none action = done []
pass zero m (some a) action = fault
pass (suc f) m (some a) action = do
  b ← deref m a
  events ← pass f m b.next action
  done (elim b.cleanup_callback [ none ↦ events | some g ↦ event g a b action true ∷ events ])

unfoldable pub cleanup_all : ℕ → Pool → Run (List Event)
unfolding pass
cleanup_all f p = if p.cleaning_up then done [] else (do
  first ← pass f p.mem p.first announce
  second ← pass f p.mem p.first teardown
  third ← pass f p.mem p.first destroy
  done (first ++ second ++ third))

-- `for (prefix = pool->first; prefix; prefix = nprefix) …`
unfoldable pub free_from : ℕ → Memory → Option ℕ → Run Memory
unfolding deref
free_from f m none = done m
free_from zero m (some a) = fault
free_from (suc f) m (some a) = do b ← deref m a; free_from f (put m a none) b.next

-- `ks_pool_clear`, with what is called.
unfoldable pub clear : ℕ → Pool → Run (List Event × Pool)
unfolding check_pool cleanup_all free_from
clear f p = elim (check_pool p) [
  | success ↦ do
    events ← cleanup_all f p
    m ← free_from f p.mem p.first
    done (events, record p { mem = m; first = none; last = none; cleaning_up = true })
  | _ ↦ abort
]

-- `ks_pool_close`: the memory that is left, once the pool itself is freed.
unfoldable pub close : ℕ → Option Pool → Run (List Event × Option Memory)
unfolding clear
close f none = done ([], none)
close f (some p) = do (events, p') ← clear f p; done (events, some p'.mem)
