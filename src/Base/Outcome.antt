-- ===== src/Base/Outcome.antt =====
-- Results of C code that may end the process or touch memory outside of a block, and
-- machine words. Accesses go through `load` and `store`, which check the range.
use Prim.Native.Nat.{ℕ, zero, suc, ◌+◌, ◌-◌, ◌%◌, ◌^◌, ◌≤◌}
use mathlib.Core.Path.{◌≡◌}
use mathlib.Core.List.{List}
use native.Mathlib.Omega.{arith}
use libks.Base.Tests.{leb, if◌then◌else◌}
use libks.Base.Lists.{length}
use libks.Base.Slices.{slice, overwrite}

-- `abort` is where the process ends, in a failed `ks_assert` or by a signal; `fault` is an access
-- outside of a block.
pub data Run {ℓ} (A : Type ℓ) : Type ℓ where
  done : A → Run A
  abort : Run A
  fault : Run A

infixl 5 ◌>>=◌
abbrev pub ◌>>=◌ {ℓ κ} : {A : Type ℓ} {B : Type κ} → Run A → (A → Run B) → Run B
done a >>= f = f a
abort >>= f = abort
fault >>= f = fault

-- `memcpy` out of a block and into a block.
unfoldable pub load : List ℕ → ℕ → ℕ → Run (List ℕ)
load d i n = if leb (i + n) (length d) then done (slice d i n) else fault

unfoldable pub store : List ℕ → ℕ → List ℕ → Run (List ℕ)
store d i ys = if leb (i + length ys) (length d) then done (overwrite d i ys) else fault

pub load_inside : (d : List ℕ) (i n : ℕ) → i + n ≤ length d → load d i n ≡ done (slice d i n)
unfolding load
load_inside d i n h = ground arith

pub store_inside :
    (d : List ℕ) (i : ℕ) (ys : List ℕ)
    → i + length ys ≤ length d
    → store d i ys ≡ done (overwrite d i ys)
unfolding store
store_inside d i ys h = ground arith

pub store_outside :
    (d : List ℕ) (i : ℕ) (ys : List ℕ) → suc (length d) ≤ i + length ys → store d i ys ≡ fault
unfolding store
store_outside d i ys h = ground arith

-- `size_t` arithmetic wraps at 2 ^ 64.
abbrev pub add_size : ℕ → ℕ → ℕ
add_size a b = (a + b) % 2 ^ 64

abbrev pub sub_size : ℕ → ℕ → ℕ
sub_size a b = (2 ^ 64 + a - b) % 2 ^ 64

-- A C `int`; `negsuc n` is -(n + 1).
pub data ℤ : Type 0 where
  pos : ℕ → ℤ
  negsuc : ℕ → ℤ

abbrev pub pred_int : ℤ → ℤ
pred_int (pos zero) = negsuc 0
pred_int (pos (suc n)) = pos n
pred_int (negsuc n) = negsuc (suc n)
