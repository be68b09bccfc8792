-- ===== src/Rwl/Simple/Tests.antt =====
-- Threads on a reader-writer lock, and the theorems about them at concrete steps.
use libks.Base.{ℕ, ◌≡◌, ◌⊎◌, refl, some, none, [], arith}
use libks.Rwl.Posix.{granted}
use libks.Rwl.Simple.{Simple, simple}
use libks.Rwl.{success, Rwl, again, read_lock, acquire, write_lock, read_unlock}
use libks.Rwl.System.{
  Pc, idle, wants, got, set_pc, System, init, Steps, here, next, asks, acquires, owns,
}
use libks.Rwl.Invariant.{held_of}
use libks.Rwl.Safety.{writer_alone}
use libks.Rwl.Progress.{write_granted}
use libks.Rwl.Owner.{owner_reads}

abbrev fresh : Simple
fresh = record { writes = none; reading = [] }

abbrev taken : Simple
taken = record { writes = some 1; reading = [] }

abbrev lock : Simple → ℕ → Rwl Simple
lock l w = record { rwlock = l; write_locker = w; wlc = 0 }

abbrev at : Simple → ℕ → (ℕ → Pc) → System simple
unfolding simple
at l w pc = record { rwl = lock l w; pc = pc }

asking : Steps simple 2 (init simple) (at fresh 0 (set_pc (λ t. idle 0) 1 wants))
unfolding simple
asking = next 1 (omega arith) (omega arith) here (asks 0 refl refl refl)

abbrev writing_pc : ℕ → Pc
writing_pc = set_pc (set_pc (set_pc (λ t. idle 0) 1 wants) 1 got) 1 (idle 1)

-- Thread 1 of two writes.
writing : Steps simple 2 (init simple) (at taken 1 writing_pc)
unfolding simple acquire
writing =
    next 1 (omega arith) (omega arith)
      (next 1 (omega arith) (omega arith) asking (acquires (lock taken 0) refl refl)) (owns refl)

-- Thread 2 asks while thread 1 writes.
waiting : Steps simple 2 (init simple) (at taken 1 (set_pc writing_pc 2 wants))
unfolding simple
waiting = next 2 (omega arith) (omega arith) writing (asks 0 refl refl refl)

writer_alone_example :
    let s = at taken 1 (set_pc writing_pc 2 wants) in
    (s.rwl.write_locker ≡ 1)
    × (s.rwl.wlc ≡ 0)
    × (held_of simple s.rwl 2 ≡ 0)
    × ((s.pc 2 ≡ idle 0) ⊎ (s.pc 2 ≡ wants))
unfolding simple at
writer_alone_example =
    writer_alone simple 2 (at taken 1 (set_pc writing_pc 2 wants)) 1 2 2 0 waiting (omega arith)
      (omega arith) (omega arith) refl

write_granted_example :
    (r : System simple) × Steps simple 2 (at taken 1 (set_pc writing_pc 2 wants)) r
    × (r.pc 2 ≡ idle 1)
unfolding at
write_granted_example =
    write_granted simple 2 (at taken 1 (set_pc writing_pc 2 wants)) 2 waiting (omega arith)
      (omega arith) refl

abbrev owned : Rwl simple.Lock
unfolding simple
owned = lock taken 1

owner_reads_example :
    (read_lock simple 1 owned ≡ granted (success, owned))
    × (simple.writer ((read_unlock simple 1 owned).1).rwlock ≡ none)
    × (write_lock simple 1 (read_unlock simple 1 owned).1
        ≡ granted (success, again simple (read_unlock simple 1 owned).1))
unfolding simple owned
owner_reads_example = owner_reads simple owned 1 refl refl refl
