-- ===== src/Buffer.antt =====
-- The byte buffer of src/ks_buffer.c: a block that grows, with the unread bytes at `head`.
pub mod Valid
mod Tests
pub mod Write
pub mod Limit
pub mod Refine
pub mod Packet
use libks.Base.{
  ℕ, zero, ◌+◌, ◌-◌, Bool, true, false, ◌&&◌, ◌||◌, Option, none, some, List, [], length, replicate,
  slice, ltb, leb, ◌==◌, if◌then◌else◌, Run, done, abort, ◌>>=◌, load, store, add_size, sub_size, ℤ,
  pos, pred_int, ◌++◌,
}
use libks.Alloc.{Alloc}

-- `struct ks_buffer`: `block` is what `data` points to (`none` for NULL), `head` is an index in it.
pub record Buffer : Type 0 where
  pub block : Option (List ℕ)
  pub head : ℕ
  pub used : ℕ
  pub actually_used : ℕ
  pub datalen : ℕ
  pub max_len : ℕ
  pub blocksize : ℕ
  pub id : ℕ
  pub loops : ℤ

-- The unread bytes.
abbrev pub contents : Buffer → List ℕ
contents b = elim b.block [ none ↦ [] | some d ↦ slice d b.head b.used ]

pub len : Buffer → ℕ
len b = b.datalen

pub freespace : Buffer → ℕ
freespace b = if b.max_len == 0 then 1000000 else sub_size b.max_len b.used

pub inuse : Buffer → ℕ
inuse b = b.used

-- `reading` of seek, toss and read, where something is in use.
pub amount : Buffer → ℕ → ℕ
amount b n = if leb n b.used then n else b.used

pub seek : Buffer → ℕ → ℕ × Buffer
unfolding amount
seek b n =
    if ltb b.used 1
    then (0, record b { used = 0 })
    else (amount b n, record b { used = sub_size b.actually_used (amount b n); head = amount b n })

pub toss : Buffer → ℕ → ℕ × Buffer
unfolding amount
toss b n =
    if ltb b.used 1
    then (0, record b { used = 0 })
    else (b.used - amount b n, record b { used = b.used - amount b n; head = b.head + amount b n })

pub set_loops : Buffer → ℤ → Buffer
set_loops b n = record b { loops = n }

pub read_from : List ℕ → Buffer → ℕ → Run (ℕ × List ℕ × Buffer)
read_from d b r = do
  bytes ← load d b.head r
  done (r, bytes, record b { used = b.used - r; head = b.head + r })

-- The count returned, the bytes put at the caller's `data`, and the buffer.
pub read : Buffer → ℕ → Run (ℕ × List ℕ × Buffer)
unfolding read_from amount load
read b n = elim b.block [
  | none ↦ abort
  | some d ↦
      if ltb b.used 1 then done (0, [], record b { used = 0 }) else read_from d b (amount b n)
]

-- The second round of `read_loop`: from the start again, behind the bytes that are there.
pub read_again : Buffer → List ℕ → ℕ → Run (ℕ × List ℕ × Buffer)
read_again b bytes m = do
  (got, more, b') ← read (record b { head = 0; used = b.actually_used }) m
  done (got, bytes ++ more, record b' { loops = pred_int b'.loops })

pub read_loop : Buffer → ℕ → Run (ℕ × List ℕ × Buffer)
unfolding read_again
read_loop b n = do
  (got, bytes, b') ← read b n
  if ltb got n
      then elim b'.loops [ pos zero ↦ done (got, bytes, b') | _ ↦ read_again b' bytes (n - got) ]
      else done (got, bytes, b')

-- `memmove` of the unread bytes to the start of the block, where the new ones do not fit behind
-- them and the limit allows.
pub wants_compact : Buffer → ℕ → Bool
wants_compact b n =
    ltb (sub_size b.datalen b.actually_used) n
    && (b.max_len == 0 || leb (add_size b.used n) b.max_len)

pub compact : List ℕ → Buffer → ℕ → Run (List ℕ × Buffer)
unfolding wants_compact load store
compact d b n = if wants_compact b n then move else done (d, b)
  where
    move : Run (List ℕ × Buffer)
    move = do
      bytes ← load d b.head b.used
      moved ← store d 0 bytes
      done (moved, record b { head = 0; actually_used = b.used })

pub new_size : Buffer → ℕ → ℕ
new_size b n =
    let size = add_size b.datalen n in
    let block_size = add_size b.datalen b.blocksize in
    if ltb size block_size then block_size else size

pub zero_out : Buffer → Run Buffer
zero_out b = elim b.block [
  | none ↦ abort
  | some d ↦ done (record b { used = 0; actually_used = 0; head = 0 })
]

-- The `memcpy` of the new bytes behind those in use.
pub append : List ℕ → Buffer → List ℕ → Run (ℕ × Buffer)
unfolding store
append d b src =
    if ltb (sub_size b.datalen b.used) (length src)
    then done (0, record b { block = some d })
    else (do d' ← store d (b.head + b.used) src; done (add_size b.used (length src), appended d'))
  where
    appended : List ℕ → Buffer
    appended d' = record b {
      block = some d';
      used = add_size b.used (length src);
      actually_used = add_size b.actually_used (length src);
    }

module _ (c : Alloc) where
  -- The block and buffer after `realloc`; `none` where that failed, with `head` reset all the same.
  pub grow : List ℕ → Buffer → ℕ → Option (List ℕ) × Buffer
  unfolding new_size
  grow d b n =
      if ltb (sub_size b.datalen b.used) n
      then elim (c.realloc d (new_size b n)) [
        | none ↦ (none, record b { head = 0 })
        | some d' ↦ (some d', record b { head = 0; datalen = new_size b n })
      ]
      else (some d, b)

  pub grow_append : List ℕ → Buffer → List ℕ → Run (ℕ × Buffer)
  grow_append d b src =
      let (grown, b') = grow d b (length src) in
      elim grown [ none ↦ done (0, record b' { block = some d }) | some d' ↦ append d' b' src ]

  pub write_to : List ℕ → Buffer → List ℕ → Run (ℕ × Buffer)
  write_to d b src = do (d', b') ← compact d b (length src); grow_append d' b' src

  -- The result of `ks_buffer_write`, and the buffer.
  pub write : Buffer → List ℕ → Run (ℕ × Buffer)
  unfolding write_to
  write b src = elim b.block [
    | none ↦ abort
    | some d ↦ if length src == 0 then done (b.used, b) else write_to d b src
  ]

  pub zwrite : Buffer → List ℕ → Run (ℕ × Buffer)
  unfolding write zero_out
  zwrite b src = do
    (w, b1) ← write b src
    if w == 0 then zero_out b1 >>= (λ b2. write b2 src) else done (w, b1)

  -- `ks_buffer_create`: the block is cleared; `none` where an allocation fails. The counter that
  -- numbers the buffers is passed in, and `got` says whether the struct could be allocated.
  pub create : Bool → ℕ → ℕ → ℕ → ℕ → Option Buffer
  create false id blocksize start_len max_len = none
  create true id blocksize start_len max_len =
      if start_len == 0 then some (fresh none) else elim (c.malloc start_len) [
        | none ↦ none
        | some d ↦ some (fresh (some (replicate start_len 0)))
      ]
    where
      fresh : Option (List ℕ) → Buffer
      fresh block = record {
        block = block;
        head = 0;
        used = 0;
        actually_used = 0;
        datalen = start_len;
        max_len = max_len;
        blocksize = blocksize;
        id = id;
        loops = pos 0;
      }
