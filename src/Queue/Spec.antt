-- ===== src/Queue/Spec.antt =====
-- The queue that the calls promise, a list of items, and the calls of src/ks_q.c against it.
mod Branches
pub mod Refine
pub mod Calls
pub mod Flush
pub mod Threads
use libks.Base.{
  ℕ, zero, suc, ◌+◌, ◌^◌, ◌<◌, ◌≡◌, Bool, true, false, not, ◌&&◌, List, [], ◌∷◌, ◌++◌, length, ◌==◌,
  if◌then◌else◌,
}
use libks.Queue.{Status, success, inactive, break_out, fail, Queue}
use libks.Queue.Shape.{Shape}

-- A bounded first-in first-out queue; a bound of 0 is none.
pub record Fifo : Type 0 where
  pub items : List ℕ
  pub bound : ℕ
  pub active : Bool
  pub flushes : Bool

unfoldable pub full : Fifo → Bool
full f = not (f.bound == 0) && length f.items == f.bound

unfoldable pub put : Fifo → ℕ → Status × Fifo
unfolding full
put f x =
    if f.active
    then (if full f then (break_out, f) else (success, record f { items = f.items ++ x ∷ [] }))
    else (inactive, f)

unfoldable pub take_first : Fifo → Status × ℕ × Fifo
take_first f =
    if f.active
    then elim f.items [ [] ↦ (break_out, 0, f) | x ∷ xs ↦ (success, x, record f { items = xs }) ]
    else (inactive, 0, f)

unfoldable pub first : Fifo → Status × ℕ
first f =
    if f.active then elim f.items [ [] ↦ (break_out, 0) | x ∷ xs ↦ (success, x) ] else (inactive, 0)

unfoldable pub clear : Fifo → Status × List ℕ × Fifo
clear f =
    if f.active
    then (if f.flushes then (success, f.items, record f { items = [] }) else (fail, [], f))
    else (inactive, [], f)

-- `q` represents `f`: its nodes hold the items in order, and its fields agree.
pub record Holds (q : Queue) (f : Fifo) : Type 0 where
  pub nodes : List ℕ
  pub spare : List ℕ
  pub shape : Shape q nodes spare f.items
  pub counted : q.len ≡ length f.items
  pub bounded : q.maxlen ≡ f.bound
  pub running : q.active ≡ f.active
  pub flushing : q.flushes ≡ f.flushes
  pub small : length f.items < 2 ^ 64
