-- ===== src/Rwl/Owner.antt =====
-- A thread that asks for a read lock while it writes, in src/ks_mutex.c.
use libks.Base.{ℕ, ◌≡◌, refl, true, some, none, arith, ◌==◌}
use libks.Rwl.Posix.{Pthread, granted, refused}
use libks.Rwl.{success, Rwl, again, read_lock, write_lock, read_unlock}

module _ (P : Pthread) where
  -- Where the lock of POSIX refuses a read lock to the thread that writes, `ks_rwl_read_lock` is a
  -- success all the same, and nothing changes. The `ks_rwl_read_unlock` that belongs to it then gives up
  -- the lock of POSIX, so that another thread may write; but the thread still counts as the owner, and
  -- `ks_rwl_write_lock` lets it in at once.
  pub owner_reads :
      (s : Rwl P.Lock) (t : ℕ)
      → s.write_locker ≡ t
      → P.writer s.rwlock ≡ some t
      → P.rdlock t s.rwlock ≡ refused
      → (read_lock P t s ≡ granted (success, s))
        × (P.writer ((read_unlock P t s).1).rwlock ≡ none)
        × (write_lock P t (read_unlock P t s).1 ≡ granted (success, again P (read_unlock P t s).1))
  unfolding read_lock write_lock read_unlock
  owner_reads s t mine writes refuses =
      let me : (s.write_locker == t) ≡ true = ground (arith, mine) in
      (
        rw (read_lock, refuses) refl,
        (P.unlock_writer t (s.rwlock) writes).0,
        rw (write_lock, me) refl,
      )
