-- ===== src/Base/Xor.antt =====
-- Exclusive or of two bytes, twice with the same byte.
use Prim.Native.Nat.{ℕ, ◌<◌, bit_xor}
use mathlib.Core.Path.{◌≡◌, refl}
use mathlib.Core.Bool.{Bool, true}
use libks.Base.Tests.{◌==◌, ==_iff}
use libks.Base.Ranges.{passes_under, passes_under_at}

masks_back : ℕ → ℕ → Bool
masks_back k x = bit_xor (bit_xor x k) k == x

masks_all_back : ℕ → Bool
unfolding masks_back passes_under
masks_all_back k = passes_under (masks_back k) 256

all_masks : passes_under masks_all_back 256 ≡ true
unfolding passes_under masks_all_back
all_masks = refl

pub bit_xor_twice : (x k : ℕ) → x < 256 → k < 256 → bit_xor (bit_xor x k) k ≡ x
unfolding masks_all_back masks_back
bit_xor_twice x k hx hk =
    (==_iff _ x).0
      (passes_under_at (masks_back k) 256 x hx (passes_under_at masks_all_back 256 k hk all_masks))
