-- ===== src/Sb.antt =====
-- src/ks_sb.c, the string builder, over blocks of memory that a pool gives.
pub mod Memory
mod Outcome
mod Append
mod Build
mod Print
mod Tests
use libks.Base.{
  ℕ, ◌+◌, ◌-◌, ◌*◌, ◌^◌, ◌%◌, Option, none, some, List, [], ◌∷◌, ◌++◌, length, ltb, ◌==◌,
  if◌then◌else◌, Run, done, abort, fault, ◌>>=◌, load, store, add_size, sub_size,
}
use libks.Sb.Memory.{Blocks, Printer}

pub data Status : Type 0 where
  success fail : Status

-- `struct ks_sb_s`, less its pool.
pub record Sb : Type 0 where
  pub data_of : Option (List ℕ)
  pub size : ℕ
  pub used : ℕ

-- `KS_PRINT_BUF_SIZE`
abbrev pub print_buf_size : ℕ
print_buf_size = 350

abbrev pub or_abort {ℓ} : {A : Type ℓ} → Option A → Run A
or_abort none = abort
or_abort (some a) = done a

-- `ks_sb_length`
abbrev pub sb_length : Sb → ℕ
sb_length s = sub_size s.used 1

abbrev pub at_least : ℕ → ℕ → ℕ
at_least n least = if ltb n least then least else n

module _ (c : Blocks) where
  -- `ks_sb_create`
  unfoldable pub create : ℕ → Run Sb
  create preallocated =
      let n = if preallocated == 0 then print_buf_size * 2 else preallocated in
      do d ← or_abort (c.alloc n); done (record { data_of = some d; size = n; used = 1 })

  -- The size that `ks_sb_accommodate` grows to.
  unfoldable pub grown_size : Sb → ℕ → ℕ
  grown_size s len =
      add_size s.size (at_least (sub_size (add_size s.used len) s.size) print_buf_size)

  -- `ks_sb_accommodate`. A block that does not grow ends the program, so it never fails.
  unfoldable pub accommodate : Sb → ℕ → Run (Status × Sb)
  unfolding grown_size
  accommodate s len =
      if len == 0
      then done (Status.success, s)
      else if ltb s.size (add_size s.used len)
      then (do
        d ← or_abort (elim s.data_of [
          | none ↦ c.alloc (grown_size s len)
          | some d ↦ c.resize d (grown_size s len)
        ])
        done (Status.success, record s { data_of = some d; size = grown_size s len }))
      else done (Status.success, s)

  -- The `memcpy` of `ks_sb_append_ex`, which takes the byte behind the `len` ones too.
  unfoldable pub copy : Sb → List ℕ → ℕ → Run Sb
  copy s str len = elim (s.data_of) [
    | none ↦ fault
    | some d ↦ do
      bytes ← load str 0 (add_size len 1)
      d' ← store d (sub_size s.used 1) bytes
      done (record s { data_of = some d'; used = add_size s.used len })
  ]

  unfoldable pub copy_then : Status × Sb → List ℕ → ℕ → Run (Status × Sb)
  unfolding copy
  copy_then (fail, s) str len = done (Status.fail, s)
  copy_then (success, s) str len = do t ← copy s str len; done (Status.success, t)

  -- `ks_sb_append_ex`, where `str` is the memory at the pointer, which is not NULL.
  unfoldable pub append_ex : Sb → List ℕ → ℕ → Run (Status × Sb)
  unfolding accommodate copy_then
  append_ex s str len =
      if len == 0 then done (Status.success, s) else (do p ← accommodate s len; copy_then p str len)

  -- `ks_sb_append` of a string, behind which the NUL stands.
  unfoldable pub sb_append : Sb → Option (List ℕ) → Run (Status × Sb)
  unfolding append_ex
  sb_append s none = done (Status.success, s)
  sb_append s (some str) = append_ex s (str ++ 0 ∷ []) (length str)

  -- What `ks_vsnprintfv` wrote behind the text: the string and its NUL.
  unfoldable pub write_printed : Sb → List ℕ → Run Sb
  write_printed s str = elim (s.data_of) [
    | none ↦ fault
    | some d ↦ do
      d' ← store d (sub_size s.used 1) (str ++ 0 ∷ [])
      done (record s { data_of = some d'; used = add_size s.used (length str) })
  ]

  unfoldable pub print_then : ℕ → Printer → Status × Sb → Run (Status × Sb)
  unfolding write_printed
  print_then used p (fail, s) = done (Status.fail, s)
  print_then used p (success, s) = do
    t ← write_printed s (p.vsnprintfv (sub_size s.size used % 2 ^ 32))
    done (Status.success, t)

  -- `ks_sb_printf`. The room is cast to `int`.
  unfoldable pub printf : Sb → Printer → Run (Status × Sb)
  unfolding accommodate print_then
  printf s p = do r ← accommodate s print_buf_size; print_then (sub_size s.used 1) p r
