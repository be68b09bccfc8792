-- ===== src/Rwl/System.antt =====
-- Threads on one reader-writer lock, in any order: a write lock is taken and given back in several
-- steps, between which the others go on.
use libks.Base.{ℕ, suc, ◌^◌, ◌≡◌, ◌≤◌, ◌<◌, true, false, some, ◌==◌, if◌then◌else◌}
use libks.Rwl.Posix.{Pthread, granted}
use libks.Rwl.{
  Status, Rwl, create, read_lock, try_read_lock, is_me, again, acquire, try_acquire, own, give_up,
  read_unlock, is_inner, inner, disown,
}

-- Where a thread is: between its calls with so many write locks, in `ks_rwl_write_lock` before and
-- after it has the lock of POSIX, or in `ks_rwl_write_unlock` with the owner unset.
pub data Pc : Type 0 where
  idle : (depth : ℕ) → Pc
  wants : Pc
  got : Pc
  leaving : Pc

abbrev pub set_pc : (ℕ → Pc) → ℕ → Pc → ℕ → Pc
set_pc f t p u = if u == t then p else f u

module _ (P : Pthread) where
  pub record System : Type 0 where
    pub rwl : Rwl P.Lock
    pub pc : ℕ → Pc

  abbrev pub init : System
  init = record { rwl = create P; pc = λ t. idle 0 }

  -- A step of thread `t`. A thread gives back only what it has; it does not ask for a read lock while
  -- it writes, nor for a write lock while it reads, and has fewer than 2 ^ 32 write locks.
  pub data StepOf (t : ℕ) (s : System) : System → Type 0 where
    reads :
        (r : Status × Rwl P.Lock)
        → s.pc t ≡ idle 0
        → P.full s.rwl.rwlock ≡ false
        → read_lock P t s.rwl ≡ granted r
        → StepOf t s (record s { rwl = r.1 })
    tries_read :
        (d : ℕ) → s.pc t ≡ idle d → StepOf t s (record s { rwl = (try_read_lock P t s.rwl).1 })
    stops_reading :
        (d : ℕ)
        → s.pc t ≡ idle d
        → 0 < P.held s.rwl.rwlock t
        → StepOf t s (record s { rwl = (read_unlock P t s.rwl).1 })
    enters_again :
        (d : ℕ)
        → s.pc t ≡ idle d
        → d < 2 ^ 32
        → is_me P t s.rwl ≡ true
        → StepOf t s (record { rwl = again P s.rwl; pc = set_pc s.pc t (idle (suc d)) })
    asks :
        (d : ℕ)
        → s.pc t ≡ idle d
        → P.held s.rwl.rwlock t ≡ 0
        → is_me P t s.rwl ≡ false
        → StepOf t s (record s { pc = set_pc s.pc t wants })
    acquires :
        (r : Rwl P.Lock)
        → s.pc t ≡ wants
        → acquire P t s.rwl ≡ granted r
        → StepOf t s (record { rwl = r; pc = set_pc s.pc t got })
    tries_write :
        (d : ℕ) (r : Rwl P.Lock)
        → s.pc t ≡ idle d
        → is_me P t s.rwl ≡ false
        → try_acquire P t s.rwl ≡ some r
        → StepOf t s (record { rwl = r; pc = set_pc s.pc t got })
    owns : s.pc t ≡ got → StepOf t s (record { rwl = own P t s.rwl; pc = set_pc s.pc t (idle 1) })
    leaves_inner :
        (d : ℕ)
        → s.pc t ≡ idle (suc d)
        → is_inner P t s.rwl ≡ true
        → StepOf t s (record { rwl = inner P s.rwl; pc = set_pc s.pc t (idle d) })
    disowns :
        (d : ℕ)
        → s.pc t ≡ idle (suc d)
        → is_inner P t s.rwl ≡ false
        → StepOf t s (record { rwl = disown P s.rwl; pc = set_pc s.pc t leaving })
    gives_up :
        s.pc t ≡ leaving
        → StepOf t s (record { rwl = give_up P t s.rwl; pc = set_pc s.pc t (idle 0) })

  -- The steps of `n` threads, whose identifiers are 1 and up.
  pub data Steps (n : ℕ) (s : System) : System → Type 0 where
    here : Steps n s s
    next : (t : ℕ) {u v : System} → 0 < t → t ≤ n → Steps n s u → StepOf t u v → Steps n s v
