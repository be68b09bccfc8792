-- ===== src/Buffer/Valid.antt =====
-- The representation invariant of `struct ks_buffer`, and the calls that read.
use libks.Base.{
  ℕ, ◌+◌, ◌-◌, ◌^◌, ◌≤◌, ◌<◌, ◌≡◌, refl, sym, min, some, List, arith, length, take, drop, slice,
  length-slice, drop-take, drop-slice, take-slice, done, load_inside,
}
use libks.Buffer.{Buffer, contents, amount, read, toss, seek}

-- `d` is the block of `b`, and its sizes are in order.
pub record IsValid (d : List ℕ) (b : Buffer) : Type 0 where
  pub holds : b.block ≡ some d
  pub sized : length d ≡ b.datalen
  pub inside : b.head + b.used ≤ b.actually_used
  pub bounded : b.actually_used ≤ b.datalen
  pub small : b.datalen < 2 ^ 63

contents-holds : {d : List ℕ} {b : Buffer} → IsValid d b → contents b ≡ slice d b.head b.used
contents-holds v = rw v.holds

pub length-contents : {d : List ℕ} {b : Buffer} → IsValid d b → length (contents b) ≡ b.used
length-contents {d} {b} v = rw v.holds (length-slice d b.head b.used (omega arith))

amount-min : (b : Buffer) (n : ℕ) → amount b n ≡ min n b.used
unfolding amount
amount-min b n = ground arith

-- The buffer with its first `r` unread bytes gone.
abbrev advance : Buffer → ℕ → Buffer
advance b r = record b { used = b.used - r; head = b.head + r }

advance-IsValid :
    {d : List ℕ} {b : Buffer} (r : ℕ) → r ≤ b.used → IsValid d b → IsValid d (advance b r)
advance-IsValid r h v = ground arith

contents-advance :
    {d : List ℕ} {b : Buffer} (n : ℕ)
    → IsValid d b
    → contents (advance b (min n b.used)) ≡ drop n (contents b)
contents-advance {d} {b} n v = rw v.holds (sym (drop-slice d b.head b.used n))

read-eq-advance :
    {d : List ℕ} {b : Buffer} (n : ℕ)
    → IsValid d b
    → read b n ≡ done (min n b.used, slice d b.head (min n b.used), advance b (min n b.used))
unfolding read
read-eq-advance {d} {b} n v = ground (arith, amount-min b n, load_inside d b.head (min n b.used))

-- `ks_buffer_read` never faults on a valid buffer: it returns the number of bytes there are, up to
-- `n`, hands over that prefix of the contents, keeps the rest, and leaves the buffer valid.
pub read_lem :
    {d : List ℕ} {b : Buffer} (n : ℕ)
    → IsValid d b
    → (b' : Buffer) × (read b n ≡ done (min n b.used, take n (contents b), b'))
      × (contents b' ≡ drop n (contents b))
      × IsValid d b'
read_lem {d} {b} n v = (
  advance b (min n b.used),
  rw (contents-holds v, take-slice) (read-eq-advance n v),
  contents-advance n v,
  advance-IsValid (min n b.used) (omega arith) v,
)

toss-eq-advance :
    (b : Buffer) (n : ℕ) → toss b n ≡ (b.used - min n b.used, advance b (min n b.used))
unfolding toss
toss-eq-advance b n = ground arith

-- `ks_buffer_toss` drops the bytes that `ks_buffer_read` would return, and returns how many are
-- left.
pub toss_lem :
    {d : List ℕ} {b : Buffer} (n : ℕ)
    → IsValid d b
    → let (c, b') = toss b n in
      (c ≡ length (contents b')) × (contents b' ≡ drop n (contents b)) × IsValid d b'
toss_lem {d} {b} n v =
    let v' = advance-IsValid (min n b.used) (omega arith) v in
    rw (toss-eq-advance b n) (sym (length-contents v'), contents-advance n v, v')

abbrev seek_to : Buffer → ℕ → Buffer
seek_to b n = record b { used = b.actually_used - n; head = n }

seek_to-IsValid :
    {d : List ℕ} {b : Buffer} (n : ℕ) → IsValid d b → n ≤ b.used → IsValid d (seek_to b n)
seek_to-IsValid n v k = ground arith

seek-eq :
    {d : List ℕ} {b : Buffer} {n : ℕ}
    → IsValid d b
    → 0 < b.used
    → n ≤ b.used
    → seek b n ≡ (n, seek_to b n)
unfolding seek
seek-eq v h k = ground arith

-- `ks_buffer_seek` to a position that is in use leaves the bytes of the block from that position up
-- to the last one written, and leaves the buffer valid.
pub seek_lem :
    {d : List ℕ} {b : Buffer} (n : ℕ)
    → IsValid d b
    → 0 < b.used
    → n ≤ b.used
    → let (c, b') = seek b n in
      (c ≡ n) × (contents b' ≡ drop n (take b.actually_used d)) × IsValid d b'
seek_lem {d} {b} n v h k = rw (seek-eq v h k) (
  refl,
  rw v.holds (sym (drop-take d n b.actually_used (b.actually_used - n) refl)),
  seek_to-IsValid n v k,
)
