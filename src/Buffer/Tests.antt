-- ===== src/Buffer/Tests.antt =====
-- Runs of the buffer, an allocator that meets `Alloc`, and the theorems at concrete buffers.
use libks.Base.{
  ℕ, ◌-◌, ◌^◌, ◌≤◌, ◌<◌, ◌≡◌, refl, ◌⊎◌, inl, Option, none, some, List, [], ◌∷◌, ◌++◌, arith,
  length, length-take, length-append, length-replicate, take, drop, replicate, min, ltb,
  if◌then◌else◌, take-take, take-append, done, fault, pos, codes, load, store,
}
use libks.Alloc.{Alloc}
use libks.Buffer.{
  Buffer, contents, read, write, write_to, compact, grow, append, grow_append, new_size,
}
use libks.Buffer.Valid.{IsValid, read_lem}
use libks.Buffer.Write.{Appended, Refused, write_lem}
use libks.Buffer.Limit.{write_overrun, write_shift}
use libks.Buffer.Refine.{Op, put, get, skip, clear, Reply, Trace, run, run_refines}
use libks.Buffer.Packet.{read_packet}
use libks.Buffer.Packet.Bounds.{Ends, read_packet_lem}

-- Always succeeds below 2 ^ 63 bytes.
abbrev get_block : ℕ → Option (List ℕ)
get_block n = if ltb n (2 ^ 63) then some (replicate n 0) else none

abbrev resize : List ℕ → ℕ → Option (List ℕ)
resize o n = if ltb n (2 ^ 63) then some (take n (o ++ replicate n 0)) else none

get_block-size : (n : ℕ) (d : List ℕ) → get_block n ≡ some d → length d ≡ n
get_block-size n d h = ground (arith, length-replicate {A = ℕ} n 0)

get_block-small : (n : ℕ) (d : List ℕ) → get_block n ≡ some d → n < 2 ^ 63
get_block-small n d h = ground arith

resize-size : (o : List ℕ) (n : ℕ) (d : List ℕ) → resize o n ≡ some d → length d ≡ n
resize-size o n d h = ground (
  arith,
  length-take n (o ++ replicate n 0),
  length-append o (replicate n 0),
  length-replicate {A = ℕ} n 0,
)

resize-small : (o : List ℕ) (n : ℕ) (d : List ℕ) → resize o n ≡ some d → n < 2 ^ 63
resize-small o n d h = ground arith

resize-keeps :
    (o : List ℕ) (n : ℕ) (d : List ℕ) → resize o n ≡ some d → length o ≤ n → take (length o) d ≡ o
resize-keeps o n d h le = ground (
  arith,
  take-take (o ++ replicate n 0) (length o) n le,
  take-append o (replicate n 0) (length o) refl,
)

abbrev alloc : Alloc
alloc = record {
  malloc = get_block;
  realloc = resize;
  malloc_size = get_block-size;
  malloc_small = get_block-small;
  realloc_size = resize-size;
  realloc_small = resize-small;
  realloc_keeps = resize-keeps;
}

-- Three bytes in use behind two that were read.
abbrev block : List ℕ
block = 1 ∷ 2 ∷ 3 ∷ 4 ∷ 5 ∷ 0 ∷ []

abbrev three : Buffer
three = record {
  block = some block;
  head = 2;
  used = 3;
  actually_used = 5;
  datalen = 6;
  max_len = 0;
  blocksize = 4;
  id = 0;
  loops = pos 0;
}

abbrev limited : Buffer
limited = record three { max_len = 4 }

three-IsValid : IsValid block three
three-IsValid = record {
  holds = refl;
  sized = refl;
  inside = omega arith;
  bounded = omega arith;
  small = omega arith;
}

limited-IsValid : IsValid block limited
limited-IsValid = record {
  holds = refl;
  sized = refl;
  inside = omega arith;
  bounded = omega arith;
  small = omega arith;
}

write_moves :
    write alloc three (6 ∷ 7 ∷ 8 ∷ [])
    ≡ done (
      6,
      record three {
        block = some (3 ∷ 4 ∷ 5 ∷ 6 ∷ 7 ∷ 8 ∷ []);
        head = 0;
        used = 6;
        actually_used = 6;
      },
    )
unfolding write write_to compact grow append grow_append load store
write_moves = refl

abbrev packet : Buffer
packet = record three {
  block = some (codes "a" ++ 10 ∷ 10 ∷ codes "b" ++ 0 ∷ 0 ∷ []);
  head = 0;
  used = 4;
  actually_used = 4;
}

packet-IsValid : IsValid (codes "a" ++ 10 ∷ 10 ∷ codes "b" ++ 0 ∷ 0 ∷ []) packet
packet-IsValid = record {
  holds = refl;
  sized = refl;
  inside = omega arith;
  bounded = omega arith;
  small = omega arith;
}

-- The limit is 4 and three bytes are unread: two more bytes fit after a move only.
write_overrun_example : write alloc limited (6 ∷ 7 ∷ []) ≡ fault
write_overrun_example =
    write_overrun alloc 6 (7 ∷ []) limited-IsValid (omega arith) (omega arith) (omega arith)
      (omega arith)

-- Four more bytes make the block grow, and the two that were read come back.
write_shift_example :
    (b' : Buffer) × (write alloc limited (6 ∷ 7 ∷ 8 ∷ 9 ∷ []) ≡ done (7, b'))
    × (contents b' ≡ 1 ∷ 2 ∷ 3 ∷ 6 ∷ 7 ∷ 8 ∷ 9 ∷ [])
unfolding new_size
write_shift_example =
    write_shift alloc 6 (7 ∷ 8 ∷ 9 ∷ []) limited-IsValid (omega arith) (omega arith) (omega arith)
      refl

read_lem_example :
    (b' : Buffer) × (read three 2 ≡ done (2, 3 ∷ 4 ∷ [], b'))
    × (contents b' ≡ 5 ∷ [])
    × IsValid block b'
read_lem_example = read_lem 2 three-IsValid

write_lem_example :
    (d' : List ℕ) × (r : ℕ × Buffer) × (write alloc three (6 ∷ 7 ∷ []) ≡ done r)
    × IsValid d' r.1
    × (Appended alloc three (6 ∷ 7 ∷ []) r ⊎ Refused alloc three (6 ∷ 7 ∷ []) r)
write_lem_example = write_lem alloc (6 ∷ 7 ∷ []) three-IsValid (inl refl) (omega arith)

abbrev calls : List Op
calls = put (6 ∷ 7 ∷ []) ∷ get 4 ∷ skip 1 ∷ clear ∷ []

run_refines_example :
    (d' : List ℕ) × (rs : List Reply) × (b' : Buffer) × (run alloc three calls ≡ done (rs, b'))
    × IsValid d' b'
    × Trace alloc three calls rs b'
run_refines_example = run_refines alloc calls three-IsValid refl (omega arith, (tt))

read_packet_lem_example :
    (n : ℕ) × (b' : Buffer) × (read_packet packet 10 ≡ done (n, take n (contents packet), b'))
    × (contents b' ≡ drop n (contents packet))
    × IsValid (codes "a" ++ 10 ∷ 10 ∷ codes "b" ++ 0 ∷ 0 ∷ []) b'
    × ((n ≡ 0)
        ⊎ ((k : ℕ) × Ends (codes "a" ++ 10 ∷ 10 ∷ codes "b" ++ 0 ∷ 0 ∷ []) 4 0 k
            × (n ≡ min (min 10 (k - 0)) 4)))
read_packet_lem_example = read_packet_lem 10 packet-IsValid (omega arith)
