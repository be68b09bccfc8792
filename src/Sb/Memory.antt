-- ===== src/Sb/Memory.antt =====
-- What the string builder of src/ks_sb.c takes from a pool and from the printing calls.
use libks.Base.{ℕ, ◌≤◌, ◌<◌, ◌^◌, ◌≡◌, List, Option, some, length, take, replicate}

-- `ks_pool_alloc` and `ks_pool_resize` of one block of bytes; none is a failed assertion. No block is
-- larger than 2 ^ 63 bytes.
pub record Blocks : Type 0 where
  pub alloc : ℕ → Option (List ℕ)
  pub resize : List ℕ → ℕ → Option (List ℕ)
  pub alloc_zeros : (n : ℕ) (d : List ℕ) → alloc n ≡ some d → d ≡ replicate n 0
  pub alloc_small : (n : ℕ) (d : List ℕ) → alloc n ≡ some d → (0 < n) × (n < 2 ^ 63)
  pub resize_size : (o : List ℕ) (n : ℕ) (d : List ℕ) → resize o n ≡ some d → length d ≡ n
  pub resize_small : (o : List ℕ) (n : ℕ) (d : List ℕ) → resize o n ≡ some d → n < 2 ^ 63
  pub resize_keeps :
      (o : List ℕ) (n : ℕ) (d : List ℕ) → resize o n ≡ some d → length o ≤ n → take (length o) d ≡ o

-- `ks_vsnprintfv` of one format and its arguments, into a buffer of some size.
pub record Printer : Type 0 where
  pub vsnprintfv : ℕ → List ℕ
  pub vsnprintfv_fits : (n : ℕ) → 0 < n → n < 2 ^ 31 → length (vsnprintfv n) < n
