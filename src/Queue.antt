-- ===== src/Queue.antt =====
-- src/ks_q.c: the blocking queue, a doubly linked list of nodes with a list of free nodes behind.
-- `ks_q_term` and every push, pop and peek run under the queue's mutex; a call that waits on a
-- condition is cut there in two, `push` and `push_woken`, `pop` and `pop_woken`, and other calls may
-- run in between. `ks_q_flush` takes the mutex once for each item, in `ks_q_trypop`.
pub mod Cells
mod Tests
pub mod Shape
pub mod Take
pub mod Spec
use libks.Base.{
  ℕ, zero, suc, ◌+◌, ◌-◌, ◌%◌, ◌^◌, ◌≡◌, Bool, true, false, not, ◌&&◌, Option, none, some, List, [],
  ◌∷◌, ◌++◌, ltb, leb, ◌==◌, if◌then◌else◌, add_size, sub_size,
}

-- The codes of `ks_status_t` that the queue returns; `timeout` is any failure of a timed wait.
pub data Status : Type 0 where
  success inactive break_out fail timeout : Status

-- `ks_qnode_t`. A `void *` is a number, 0 for NULL.
pub record Node : Type 0 where
  pub ptr : ℕ
  pub next : Option ℕ
  pub prev : Option ℕ

abbrev pub Cells : Type 0
Cells = ℕ → Node

abbrev pub update : Cells → ℕ → Node → Cells
update c a n b = if b == a then n else c b

abbrev pub blank : Node
blank = record { ptr = 0; next = none; prev = none }

-- `struct ks_q_s` and the nodes. A node that the pool gives is at `fresh`, where none was before.
-- The flush function is there or not; its calls are the list that `flush` returns.
pub record Queue : Type 0 where
  pub cells : Cells
  pub fresh : ℕ
  pub head : Option ℕ
  pub tail : Option ℕ
  pub empty : Option ℕ
  pub len : ℕ
  pub maxlen : ℕ
  pub pushers : ℕ
  pub poppers : ℕ
  pub active : Bool
  pub flushes : Bool

unfoldable pub create : Cells → ℕ → ℕ → Queue
create cells fresh maxlen = record {
  cells = cells;
  fresh = fresh;
  head = none;
  tail = none;
  empty = none;
  len = 0;
  maxlen = maxlen;
  pushers = 0;
  poppers = 0;
  active = true;
  flushes = false;
}

-- `new_node`: the node and the queue; the node's fields are cleared.
pub new_node : Queue → ℕ × Queue
new_node q = elim q.empty [
  | some a ↦ (a, record q { cells = update q.cells a blank; empty = (q.cells a).next })
  | none ↦ (q.fresh, record q { cells = update q.cells q.fresh blank; fresh = q.fresh + 1 })
]

-- The new node behind the tail, or alone. A queue with a head has a tail (`Queue.Shape`): the code
-- would read through NULL otherwise, and nothing is done here.
pub link : Queue → ℕ → ℕ → Queue
link q a x =
    let filled = update q.cells a (record blank { ptr = x }) in
    elim q.head [
      | none ↦ record q { cells = filled; head = some a; tail = some a }
      | some _ ↦ elim q.tail [
        | none ↦ q
        | some t ↦ record q {
          cells =
              update (update filled t (record (filled t) { next = some a })) a
                (record blank { ptr = x; prev = some t });
          tail = some a;
        }
      ]
    ]

pub do_push : Queue → ℕ → Status × Queue
unfolding new_node link
do_push q x =
    if q.active
    then (let (a, q1) = new_node q in
        let q2 = link q1 a x in (success, record q2 { len = add_size q2.len 1 }))
    else (inactive, q)

-- `q->maxlen && q->len == q->maxlen`
pub is_full : Queue → Bool
is_full q = not (q.maxlen == 0) && q.len == q.maxlen

-- `ks_q_push` up to its wait: `none` where it waits.
pub push : Queue → ℕ → Option Status × Queue
unfolding is_full
push q x =
    if q.active
    then (if is_full q
        then (none, record q { pushers = (q.pushers + 1) % 2 ^ 32 })
        else (let (r, q') = do_push q x in (some r, q')))
    else (some inactive, q)

-- The rest of `ks_q_push`, once it was woken.
pub push_woken : Queue → ℕ → Status × Queue
unfolding is_full
push_woken q x =
    let q' = record q { pushers = (q.pushers + 2 ^ 32 - 1) % 2 ^ 32 } in
    if is_full q then ((if q.active then break_out else inactive), q') else do_push q' x

pub try_push : Queue → ℕ → Status × Queue
unfolding is_full
try_push q x =
    if q.active then (if is_full q then (break_out, q) else do_push q x) else (inactive, q)

-- The head taken off and put on the free list.
pub unlink : Queue → ℕ → ℕ × Queue
unlink q a =
    let n = q.cells a in
    let free = record blank { next = q.empty } in
    elim n.next [
      | some b ↦ (
        n.ptr,
        record q {
          cells = update (update q.cells b (record (q.cells b) { prev = none })) a free;
          head = some b;
          empty = some a;
        },
      )
      | none ↦ (
        n.ptr,
        record q { cells = update q.cells a free; head = none; tail = none; empty = some a },
      )
    ]

-- The item is what goes through `ptr`; 0 where the call does not write there.
pub do_pop : Queue → Status × ℕ × Queue
unfolding unlink
do_pop q =
    if q.active
    then (elim q.head [
      | none ↦ (success, 0, record q { len = sub_size q.len 1 })
      | some a ↦ let (x, q') = unlink q a in (success, x, record q' { len = sub_size q'.len 1 })
    ])
    else (inactive, 0, q)

-- `ks_q_pop_timeout` up to its wait: `none` where it waits. `ks_q_pop` is the same with no timeout.
pub pop : Queue → Option (Status × ℕ) × Queue
pop q =
    if q.active
    then (if q.len == 0
        then (none, record q { poppers = (q.poppers + 1) % 2 ^ 32 })
        else (let (r, x, q') = do_pop q in (some (r, x), q')))
    else (some (inactive, 0), q)

-- The rest of `ks_q_pop_timeout`, once it was woken: `timed` where it has a timeout, and `ended`
-- where the wait did not return success.
pub pop_woken : Bool → Bool → Queue → Status × ℕ × Queue
pop_woken timed ended q =
    let q' = record q { poppers = (q.poppers + 2 ^ 32 - 1) % 2 ^ 32 } in
    if timed && ended
    then (timeout, 0, q')
    else (if q.len == 0 then ((if q.active then break_out else inactive), 0, q') else do_pop q')

pub try_pop : Queue → Status × ℕ × Queue
try_pop q =
    if q.active then (if q.len == 0 then (break_out, 0, q) else do_pop q) else (inactive, 0, q)

pub do_peek : Queue → Status × ℕ
do_peek q =
    if q.active
    then elim q.head [ none ↦ (success, 0) | some a ↦ (success, (q.cells a).ptr) ]
    else (inactive, 0)

pub try_peek : Queue → Status × ℕ
unfolding do_peek
try_peek q = if q.active then (if q.len == 0 then (break_out, 0) else do_peek q) else (inactive, 0)

pub set_flush_fn : Queue → Bool → Status × Queue
set_flush_fn q there = if q.active then (success, record q { flushes = there }) else (inactive, q)

-- An item that was flushed, before those of the rest of the loop.
abbrev pub handed : ℕ → Option (List ℕ × Queue) → Option (List ℕ × Queue)
handed x none = none
handed x (some (items, q)) = some (x ∷ items, q)

-- `while (ks_q_trypop(q, &ptr) == KS_STATUS_SUCCESS)`: the items that were flushed, or `none` where
-- the loop is not over in that many rounds. The mutex is held in `ks_q_trypop` only: `flush_fn` is
-- the flush function with what other threads do while it runs, and may do anything to the queue.
pub flush_loop : (Queue → ℕ → Queue) → ℕ → Queue → Option (List ℕ × Queue)
flush_loop flush_fn zero q = none
flush_loop flush_fn (suc f) q =
    let (r, x, q') = try_pop q in
    let rest = flush_loop flush_fn f (flush_fn q' x) in
    elim r [ success ↦ handed x rest | _ ↦ some ([], q') ]

abbrev pub flushed : Option (List ℕ × Queue) → Option (Status × List ℕ × Queue)
flushed none = none
flushed (some (items, q)) = some (success, items, q)

-- `ks_q_flush`, with the number of rounds that its loop is given.
pub flush : (Queue → ℕ → Queue) → ℕ → Queue → Option (Status × List ℕ × Queue)
unfolding flush_loop
flush flush_fn rounds q =
    if q.active
    then (if q.flushes then flushed (flush_loop flush_fn rounds q) else some (fail, [], q))
    else some (inactive, [], q)

pub term : Queue → Status × Queue
term q = ((if q.active then success else inactive), record q { active = false })

pub size : Queue → ℕ
size q = q.len

-- `ks_q_destroy` of a queue, up to the release of its memory: what is flushed.
pub destroy : (Queue → ℕ → Queue) → ℕ → Queue → Option (List ℕ × Queue)
unfolding flush term
destroy flush_fn rounds q = elim (flush flush_fn rounds q) [
  | none ↦ none
  | some (r, items, q') ↦ some (items, (term q').1)
]
