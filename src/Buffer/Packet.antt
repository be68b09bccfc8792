-- ===== src/Buffer/Packet.antt =====
-- `ks_buffer_packet_count` and `ks_buffer_read_packet`: the unread bytes as packets that end with
-- an empty line, after `\n\n` or `\n\r\n`. Positions are indices in the block.
pub mod Bounds
use libks.Base.{
  ℕ, zero, suc, ◌+◌, ◌-◌, ◌≤◌, ◌<◌, ◌≡◌, refl, ◌∙◌, ◌⊎◌, inl, inr, Bool, true, false, Bool-cases,
  Option, none, some, List, [], ◌∷◌, arith, length, min, take, get_elem?, ltb, leb, ◌==◌,
  if◌then◌else◌, Run, done, abort, fault, ◌>>=◌,
}
use libks.Buffer.{Buffer, contents, read}

abbrev pub newline : ℕ
newline = 10

abbrev pub carriage_return : ℕ
carriage_return = 13

-- The byte at an index; outside of the block the access faults.
pub peek : List ℕ → ℕ → Run ℕ
peek d i = elim (get_elem? d i) [ none ↦ fault | some x ↦ done x ]

-- The index that `pe` has after the optional `\r`, from a `\n` at `p`.
pub skip_return : List ℕ → ℕ → Run ℕ
skip_return d p = do x ← peek d (p + 1); done (if x == carriage_return then p + 2 else p + 1)

-- `pe <= e && *pe == '\n'`
pub ends_packet : List ℕ → ℕ → ℕ → Run Bool
ends_packet d e pe = if leb pe e then (do x ← peek d pe; done (x == newline)) else done false

-- At a newline: `next` of the index one past the packet's end, or `rest`.
pub at_newline {ℓ} : {A : Type ℓ} → List ℕ → ℕ → ℕ → (ℕ → Run A) → Run A → Run A
at_newline d e p next rest = do
  pe ← skip_return d p
  found ← ends_packet d e pe
  if found then next (pe + 1) else rest

-- The loop of `ks_buffer_read_packet` from `p` on, with fuel for the bytes left: where the packet
-- ends, one past its last byte.
pub find_packet : ℕ → List ℕ → ℕ → ℕ → Run (Option ℕ)
find_packet zero d e p = done none
find_packet (suc f) d e p =
    let rest = find_packet f d e (p + 1) in
    if ltb p e
    then (do
      x ← peek d p
      if x == 0
          then done none
          else (if x == newline then at_newline d e p (λ k. done (some k)) rest else rest))
    else done none

-- The loop of `ks_buffer_packet_count`, which goes on behind a packet that it has counted.
pub count_from : ℕ → List ℕ → ℕ → ℕ → ℕ → Run ℕ
count_from zero d e p x = done x
count_from (suc f) d e p n =
    let rest = count_from f d e (p + 1) n in
    let after = λ (k : ℕ). count_from f d e k (n + 1) in
    if ltb p e
    then (do
      x ← peek d p
      if x == 0 then done n else (if x == newline then at_newline d e p after rest else rest))
    else done n

pub packet_count : Buffer → Run ℕ
packet_count b = elim b.block [
  | none ↦ done 0
  | some d ↦ count_from (b.used + 1) d (b.head + b.used) b.head 0
]

-- The length that is read: 0 where no packet ends, and never above `maxlen`.
pub packet_len : Option ℕ → ℕ → ℕ → ℕ
packet_len none head maxlen = 0
packet_len (some pe) head maxlen = if ltb maxlen (pe - head) then maxlen else pe - head

pub read_packet : Buffer → ℕ → Run (ℕ × List ℕ × Buffer)
read_packet b maxlen = elim b.block [
  | none ↦ abort
  | some d ↦
      find_packet (b.used + 1) d (b.head + b.used) b.head
      >>= (λ found. read b (packet_len found b.head maxlen))
]
