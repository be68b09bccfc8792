-- ===== src/Queue/Cells.antt =====
-- Chains of nodes in memory, and what an update of one node does to them.
use libks.Base.{
  Lacks, Distinct, ℕ, ◌<◌, ◌≡◌, refl, sym, ◌≢◌, Option, none, some, List, [], ◌∷◌, ◌++◌, arith,
}
use mathlib.Core.Path.{subst}
use libks.Queue.{Node, Cells, update}

abbrev pub AllBelow : List ℕ → ℕ → Type 0
AllBelow [] n = Unit {0}
AllBelow (a ∷ ns) n = (a < n) × AllBelow ns n

-- The nodes at `ns`, linked both ways from `cur` on, behind `p`, hold `xs`.
abbrev pub Seg : Cells → Option ℕ → Option ℕ → List ℕ → List ℕ → Type 0
Seg c p cur [] [] = cur ≡ none
Seg c p cur [] (x ∷ xs) = ⊥
Seg c p cur (a ∷ ns) [] = ⊥
Seg c p cur (a ∷ ns) (x ∷ xs) =
    (cur ≡ some a) × ((c a).ptr ≡ x) × ((c a).prev ≡ p) × Seg c (some a) (c a).next ns xs

-- The nodes at `ns`, linked from `cur` on.
abbrev pub Free : Cells → Option ℕ → List ℕ → Type 0
Free c cur [] = cur ≡ none
Free c cur (a ∷ ns) = (cur ≡ some a) × Free c (c a).next ns

abbrev pub last_of : ℕ → List ℕ → ℕ
last_of a [] = a
last_of a (b ∷ ns) = last_of b ns

pub update_self : (c : Cells) (a : ℕ) (n : Node) → update c a n a ≡ n
update_self c a n = ground arith

pub update_other : (c : Cells) (a : ℕ) (n : Node) (b : ℕ) → b ≢ a → update c a n b ≡ c b
update_other c a n b h = ground arith

pub Seg-update :
    (c : Cells) (n : ℕ) (v : Node) (p cur : Option ℕ) (ns xs : List ℕ)
    → Lacks ns n
    → Seg c p cur ns xs
    → Seg (update c n v) p cur ns xs
Seg-update c n v p cur [] [] l s = s
Seg-update c n v p cur [] (x ∷ xs) l s = s
Seg-update c n v p cur (a ∷ ns) [] l s = s
Seg-update c n v p cur (a ∷ ns) (x ∷ xs) l s =
    rw (update_other c n v a l.0)
      (s.0, s.1, s.2, Seg-update c n v (some a) (c a).next ns xs l.1 s.3)

pub Free-update :
    (c : Cells) (n : ℕ) (v : Node) (cur : Option ℕ) (ns : List ℕ)
    → Lacks ns n
    → Free c cur ns
    → Free (update c n v) cur ns
Free-update c n v cur [] l s = s
Free-update c n v cur (a ∷ ns) l s =
    rw (update_other c n v a l.0) (s.0, Free-update c n v (c a).next ns l.1 s.1)

pub last_of-Lacks : (a : ℕ) (ns : List ℕ) (n : ℕ) → a ≢ n → Lacks ns n → last_of a ns ≢ n
last_of-Lacks a [] n h l = h
last_of-Lacks a (b ∷ ns) n h l = last_of-Lacks b ns n l.0 l.1

-- What `do_push` does to the cells of a queue that has a tail: `n` is linked behind `t`.
abbrev pub linked : Cells → ℕ → ℕ → ℕ → Cells
linked c t n x =
    update (update c t (record (c t) { next = some n })) n
      (record { ptr = x; next = none; prev = some t })

linked_other : (c : Cells) (t n x b : ℕ) → b ≢ t → b ≢ n → linked c t n x b ≡ c b
linked_other c t n x b h k = ground arith

linked_tail : (c : Cells) (t n x : ℕ) → t ≢ n → linked c t n x t ≡ record (c t) { next = some n }
linked_tail c t n x h = ground arith

linked_new :
    (c : Cells) (t n x : ℕ) → linked c t n x n ≡ record { ptr = x; next = none; prev = some t }
linked_new c t n x = ground arith

pub Seg-linked :
    (c : Cells) (n x : ℕ) (p cur : Option ℕ) (a : ℕ) (ns xs : List ℕ)
    → Lacks (a ∷ ns) n
    → Distinct (a ∷ ns)
    → Seg c p cur (a ∷ ns) xs
    → Seg (linked c (last_of a ns) n x) p cur ((a ∷ ns) ++ n ∷ []) (xs ++ x ∷ [])
Seg-linked c n x p cur a ns [] l d s = absurd s
Seg-linked c n x p cur a [] (y ∷ []) l d s =
    rw (linked_tail c a n x l.0, linked_new c a n x) (s.0, s.1, s.2, (refl, refl, refl, refl))
Seg-linked c n x p cur a [] (y ∷ z ∷ xs) l d s = absurd s.3
Seg-linked c n x p cur a (b ∷ ns) (y ∷ xs) l d s =
    subst
      (λ v.
        (cur ≡ some a)
        × (v.ptr ≡ y)
        × (v.prev ≡ p)
        × Seg (linked c (last_of b ns) n x) (some a) v.next (b ∷ ns ++ n ∷ []) (xs ++ x ∷ []))
      (sym
        (linked_other c (last_of b ns) n x a (λ e. last_of-Lacks b ns a d.0.0 d.0.1 (sym e)) l.0))
      (s.0, s.1, s.2, Seg-linked c n x (some a) (c a).next b ns xs l.1 d.1 s.3)
