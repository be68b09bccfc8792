-- ===== src/Rwl.antt =====
-- The reader-writer lock of src/ks_mutex.c, as it is built for POSIX without KS_DEBUG_MUTEX.
pub mod Posix
mod System
mod Invariant
mod Calls
mod Safety
mod Release
mod Progress
mod Owner
mod Simple
use libks.Base.{
  ℕ, ◌+◌, ◌-◌, ◌%◌, ◌^◌, Bool, true, false, ◌&&◌, Option, none, some, ltb, ◌==◌, if◌then◌else◌,
}
use libks.Rwl.Posix.{Pthread, Answer, granted, refused, blocked}

pub data Status : Type 0 where
  success fail : Status

-- `struct ks_rwl`. No thread has the identifier 0.
pub record Rwl (L : Type 0) : Type 0 where
  pub rwlock : L
  pub write_locker : ℕ
  pub wlc : ℕ

module _ (P : Pthread) where
  -- `__ks_rwl_create`, where the pool has the memory, which is zeros, and the lock of POSIX is made.
  abbrev pub create : Rwl P.Lock
  create = record { rwlock = P.fresh; write_locker = 0; wlc = 0 }

  -- `__ks_rwl_read_lock` drops the answer of the lock of POSIX.
  unfoldable pub read_lock : ℕ → Rwl P.Lock → Answer (Status × Rwl P.Lock)
  read_lock t s = elim (P.rdlock t s.rwlock) [
    | granted l ↦ granted (Status.success, record s { rwlock = l })
    | refused ↦ granted (Status.success, s)
    | blocked ↦ blocked
  ]

  -- `__ks_rwl_try_read_lock`
  unfoldable pub try_read_lock : ℕ → Rwl P.Lock → Status × Rwl P.Lock
  try_read_lock t s = elim (P.tryrdlock t s.rwlock) [
    | some l ↦ (Status.success, record s { rwlock = l })
    | none ↦ (Status.fail, s)
  ]

  -- `me`
  abbrev pub is_me : ℕ → Rwl P.Lock → Bool
  is_me t s = s.write_locker == t

  abbrev pub again : Rwl P.Lock → Rwl P.Lock
  again s = record s { wlc = (s.wlc + 1) % 2 ^ 32 }

  -- The wait for the lock of POSIX, whose answer is dropped.
  unfoldable pub acquire : ℕ → Rwl P.Lock → Answer (Rwl P.Lock)
  acquire t s = elim (P.wrlock t s.rwlock) [
    | granted l ↦ granted (record s { rwlock = l })
    | refused ↦ granted s
    | blocked ↦ blocked
  ]

  unfoldable pub try_acquire : ℕ → Rwl P.Lock → Option (Rwl P.Lock)
  try_acquire t s = elim (P.trywrlock t s.rwlock) [
    | some l ↦ some (record s { rwlock = l })
    | none ↦ none
  ]

  abbrev pub own : ℕ → Rwl P.Lock → Rwl P.Lock
  own t s = record s { write_locker = t }

  -- `__ks_rwl_write_lock`, where no other thread comes between.
  unfoldable pub write_lock : ℕ → Rwl P.Lock → Answer (Status × Rwl P.Lock)
  unfolding acquire
  write_lock t s = elim (is_me t s) [
    | true ↦ granted (Status.success, again s)
    | false ↦ elim (acquire t s) [
      | granted r ↦ granted (Status.success, own t r)
      | refused ↦ refused
      | blocked ↦ blocked
    ]
  ]

  -- `__ks_rwl_try_write_lock`, where no other thread comes between.
  unfoldable pub try_write_lock : ℕ → Rwl P.Lock → Status × Rwl P.Lock
  unfolding try_acquire
  try_write_lock t s = elim (is_me t s) [
    | true ↦ (Status.success, again s)
    | false ↦ elim (try_acquire t s) [
      | some r ↦ (Status.success, own t r)
      | none ↦ (Status.fail, s)
    ]
  ]

  -- `pthread_rwlock_unlock`
  abbrev pub give_up : ℕ → Rwl P.Lock → Rwl P.Lock
  give_up t s = record s { rwlock = P.unlock t s.rwlock }

  -- `__ks_rwl_read_unlock`
  unfoldable pub read_unlock : ℕ → Rwl P.Lock → Status × Rwl P.Lock
  read_unlock t s = (Status.success, give_up t s)

  -- Whether one of several write locks is given back.
  abbrev pub is_inner : ℕ → Rwl P.Lock → Bool
  is_inner t s = is_me t s && ltb 0 s.wlc

  abbrev pub inner : Rwl P.Lock → Rwl P.Lock
  inner s = record s { wlc = s.wlc - 1 }

  abbrev pub disown : Rwl P.Lock → Rwl P.Lock
  disown s = record s { write_locker = 0 }

  -- `__ks_rwl_write_unlock`, where no other thread comes between.
  unfoldable pub write_unlock : ℕ → Rwl P.Lock → Status × Rwl P.Lock
  write_unlock t s =
      if is_inner t s then (Status.success, inner s) else (Status.success, give_up t (disown s))
