-- ===== src/Queue/Tests.antt =====
-- Runs of the queue, and the theorems at concrete queues.
use libks.Base.{
  ℕ, ◌≡◌, refl, true, Option, none, some, ◌+◌, List, [], ◌∷◌, arith, ◌==◌, if◌then◌else◌,
}
use libks.Queue.{
  Status, success, break_out, Cells, blank, Queue, push, push_woken, do_push, try_push, do_pop,
  try_pop, flush,
}
use libks.Queue.Spec.{Fifo, put, take_first, clear, Holds}
use libks.Queue.Spec.Calls.{try_push_refines, try_pop_refines}
use libks.Queue.Spec.Flush.{IsQuiet, flush_refines}
use libks.Queue.Spec.Threads.{System, Step, Reach, IsSafe, Reach-IsSafe}

abbrev memory : Cells
memory a = blank

-- Items 7 and 9 at nodes 1 and 2, node 3 free, a limit of 2.
abbrev two_cells : Cells
two_cells a =
    if a == 1
    then record { ptr = 7; next = some 2; prev = none }
    else (if a == 2 then record { ptr = 9; next = none; prev = some 1 } else blank)

abbrev two : Queue
two = record {
  cells = two_cells;
  fresh = 4;
  head = some 1;
  tail = some 2;
  empty = some 3;
  len = 2;
  maxlen = 2;
  pushers = 0;
  poppers = 0;
  active = true;
  flushes = true;
}

abbrev two_items : Fifo
two_items = record { items = 7 ∷ 9 ∷ []; bound = 2; active = true; flushes = true }

two-Holds : Holds two two_items
two-Holds = record {
  nodes = 1 ∷ 2 ∷ [];
  spare = 3 ∷ [];
  shape = record {
    used = (refl, refl, refl, (refl, refl, refl, refl));
    ends = refl;
    free = (refl, refl);
    distinct = omega arith;
    known = omega arith;
  };
  counted = refl;
  bounded = refl;
  running = refl;
  flushing = refl;
  small = omega arith;
}

quiet_fn : Queue → ℕ → Queue
quiet_fn q x = q

quiet_fn-IsQuiet : IsQuiet quiet_fn
unfolding quiet_fn
quiet_fn-IsQuiet q f x h = h

items_of : Option (Status × List ℕ × Queue) → List ℕ
items_of none = []
items_of (some (r, items, q)) = items

pop_then_push :
    ◌≡◌ {A = Status × ℕ × Status × List ℕ}
      (let (r, x, q) = try_pop two in
        let (s, q') = try_push q 5 in (r, x, s, items_of (flush quiet_fn 5 q')))
      (success, 7, success, 9 ∷ 5 ∷ [])
unfolding try_pop try_push flush do_pop do_push quiet_fn items_of
pop_then_push = refl

try_push_refines_example :
    let (r, q') = try_push two 5 in let (s, f') = put two_items 5 in (r ≡ s) × Holds q' f'
try_push_refines_example = try_push_refines 5 two-Holds (omega arith)

try_pop_refines_example :
    let (r, x, q') = try_pop two in
    let (s, y, f') = take_first two_items in (r ≡ s) × (x ≡ y) × Holds q' f'
try_pop_refines_example = try_pop_refines two-Holds

flush_refines_example :
    let (s, items, f') = clear two_items in
    (q' : Queue) × (flush quiet_fn (two.len + 1) two ≡ some (s, items, q')) × Holds q' f'
flush_refines_example = flush_refines quiet_fn quiet_fn-IsQuiet two-Holds

abbrev start : System
start = record { queue = two; pushing = []; popping = 0 }

start-IsSafe : IsSafe start
start-IsSafe = record {
  fifo = two_items;
  holds = two-Holds;
  limited = omega arith;
  within = omega arith;
  pushers = refl;
  poppers = refl;
}

-- A thread that pushes 5 waits, and is woken too early.
abbrev waiting : System
waiting = record start { queue = record two { pushers = 1 }; pushing = 5 ∷ [] }

abbrev given_up : System
given_up = record waiting { queue = two; pushing = [] }

push_gives_up : Reach start given_up
unfolding push push_woken
push_gives_up =
    Reach.next (Reach.next Reach.here (Step.push_waits 5 (record two { pushers = 1 }) refl))
      (Step.push_wakes [] [] 5 break_out two refl refl)

Reach-IsSafe_example : IsSafe given_up
Reach-IsSafe_example = Reach-IsSafe push_gives_up start-IsSafe
