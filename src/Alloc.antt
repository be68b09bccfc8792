-- ===== src/Alloc.antt =====
-- The C library's allocator, which src/ks_buffer.c calls: each call may fail, and what it gives
-- otherwise is as the C standard says. No block is larger than 2 ^ 63 bytes.
use libks.Base.{ℕ, ◌≤◌, ◌<◌, ◌^◌, ◌≡◌, List, Option, some, length, take}

pub record Alloc : Type 0 where
  pub malloc : ℕ → Option (List ℕ)
  pub realloc : List ℕ → ℕ → Option (List ℕ)
  pub malloc_size : (n : ℕ) (d : List ℕ) → malloc n ≡ some d → length d ≡ n
  pub malloc_small : (n : ℕ) (d : List ℕ) → malloc n ≡ some d → n < 2 ^ 63
  pub realloc_size : (o : List ℕ) (n : ℕ) (d : List ℕ) → realloc o n ≡ some d → length d ≡ n
  pub realloc_small : (o : List ℕ) (n : ℕ) (d : List ℕ) → realloc o n ≡ some d → n < 2 ^ 63
  pub realloc_keeps :
      (o : List ℕ) (n : ℕ) (d : List ℕ)
      → realloc o n ≡ some d
      → length o ≤ n
      → take (length o) d ≡ o
