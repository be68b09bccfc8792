-- ===== src/Buffer/Packet/Bounds.antt =====
-- Where `ks_buffer_read_packet` looks, and what it reads.
use libks.Base.{
  ℕ, zero, suc, ◌+◌, ◌-◌, ◌≤◌, ◌<◌, ◌≡◌, refl, ap, ◌∙◌, ◌⊎◌, inl, inr, Bool, true, false,
  Bool-cases, Option, none, some, List, [], ◌∷◌, arith, length, min, take, drop, take_within,
  drop_within, get_elem?, ltb, leb, ◌==◌, if◌then◌else◌, Run, done,
}
use libks.Buffer.{Buffer, contents, read}
use libks.Buffer.Valid.{IsValid, read_lem, length-contents}
use libks.Buffer.Packet.{
  newline, carriage_return, peek, skip_return, ends_packet, find_packet, at_newline, packet_len,
  read_packet,
}

-- `k` is one past a newline that stands behind `p`, at `e` at the latest.
abbrev pub Ends : List ℕ → ℕ → ℕ → ℕ → Type 0
Ends d e p k = (z : ℕ) × (k ≡ z + 1) × (p < z) × (z ≤ e) × (get_elem? d z ≡ some newline)

peek_lem :
    (d : List ℕ) (i : ℕ) → i < length d → (x : ℕ) × (peek d i ≡ done x) × (get_elem? d i ≡ some x)
unfolding peek
peek_lem [] i h = absurd (omega arith)
peek_lem (x ∷ d) zero h = (x, refl, refl)
peek_lem (x ∷ d) (suc i) h = peek_lem d i (omega arith)

skip_return_lem :
    (d : List ℕ) (p : ℕ) → p + 1 < length d → (pe : ℕ) × (skip_return d p ≡ done pe) × (p + 1 ≤ pe)
unfolding skip_return
skip_return_lem d p h =
    let (x, e, got) = peek_lem d (p + 1) h in
    ((if x == carriage_return then p + 2 else p + 1), rw e, ground arith)

ends_packet_lem :
    (d : List ℕ) (e pe : ℕ)
    → e < length d
    → (found : Bool) × (ends_packet d e pe ≡ done found)
      × (found ≡ true → (pe ≤ e) × (get_elem? d pe ≡ some newline))
unfolding ends_packet
ends_packet_lem d e pe h = elim (Bool-cases (leb pe e)) [
  | inl w ↦
      let (x, q, got) = peek_lem d pe (ground arith) in
      (x == newline, rw (w, q), λ t. (ground arith, ground arith))
  | inr w ↦ (false, rw w, λ t. cc)
]

abbrev Result : List ℕ → ℕ → ℕ → Run (Option ℕ) → Type 0
Result d e p m =
    (o : Option ℕ) × (m ≡ done o) × ((o ≡ none) ⊎ ((k : ℕ) × (o ≡ some k) × Ends d e p k))

at_newline-Result :
    (d : List ℕ) (e p : ℕ) (rest : Run (Option ℕ))
    → e < length d
    → p < e
    → Result d e p rest
    → Result d e p (at_newline d e p (λ k. done (some k)) rest)
unfolding at_newline
at_newline-Result d e p rest h lt r =
    let (pe, q1, behind) = skip_return_lem d p (omega arith) in
    let (found, q2, good) = ends_packet_lem d e pe h in
    elim (Bool-cases found) [
      | inl t ↦
          let g = good t in
          (some (pe + 1), rw (q1, q2, t), inr (pe + 1, refl, (pe, refl, omega arith, g.0, g.1)))
      | inr t ↦ (r.0, rw (q1, q2, t) r.1, r.2)
    ]

Result-weaken : (d : List ℕ) (e p : ℕ) (m : Run (Option ℕ)) → Result d e (p + 1) m → Result d e p m
Result-weaken d e p m (o, q, inl n) = (o, q, inl n)
Result-weaken d e p m (o, q, inr (k, t, (z, a, b, c, g))) =
    (o, q, inr (k, t, (z, a, omega arith, c, g)))

-- With fuel for the bytes up to `e`, inside the block, the search ends without a fault.
find_packet-Result :
    (f : ℕ) (d : List ℕ) (e p : ℕ) → e < length d → Result d e p (find_packet f d e p)
unfolding find_packet
find_packet-Result zero d e p h = (none, refl, inl refl)
find_packet-Result (suc f) d e p h =
    let r = Result-weaken d e p (find_packet f d e (p + 1)) (find_packet-Result f d e (p + 1) h) in
    elim (Bool-cases (ltb p e)) [
      | inr w ↦ (none, rw w, inl refl)
      | inl w ↦
          let (x, q, got) = peek_lem d p (ground arith) in
          elim (Bool-cases (x == 0)) [
            | inl t ↦ (none, rw (w, q, t), inl refl)
            | inr t ↦ elim (Bool-cases (x == newline)) [
              | inl u ↦
                  let s = at_newline-Result d e p (find_packet f d e (p + 1)) h (ground arith) r in
                  (s.0, rw (w, q, t, u) s.1, s.2)
              | inr u ↦ (r.0, rw (w, q, t, u) r.1, r.2)
            ]
          ]
    ]

search : Buffer → List ℕ → Run (Option ℕ)
search b d = find_packet (b.used + 1) d (b.head + b.used) b.head

read_packet_found :
    {d : List ℕ} (b : Buffer) (m : ℕ) {o : Option ℕ}
    → b.block ≡ some d
    → search b d ≡ done o
    → read_packet b m ≡ read b (packet_len o b.head m)
unfolding read_packet search
read_packet_found b m e q = ground arith

packet_len-some : (k h m : ℕ) → packet_len (some k) h m ≡ min m (k - h)
unfolding packet_len
packet_len-some k h m = ground arith

-- Where the block has a byte behind the unread ones, `ks_buffer_read_packet` does not fault. It
-- reads nothing, or the bytes up to one past a newline that stands behind the first unread byte and
-- at most one past the last, but no more than `m` and no more than there are; it hands over that
-- prefix of the contents, keeps the rest and leaves the buffer valid.
pub read_packet_lem :
    {d : List ℕ} {b : Buffer} (m : ℕ)
    → IsValid d b
    → b.head + b.used < b.datalen
    → (n : ℕ) × (b' : Buffer) × (read_packet b m ≡ done (n, take n (contents b), b'))
      × (contents b' ≡ drop n (contents b))
      × IsValid d b'
      × ((n ≡ 0)
          ⊎ ((k : ℕ) × Ends d (b.head + b.used) b.head k × (n ≡ min (min m (k - b.head)) b.used)))
unfolding packet_len search
read_packet_lem {d} {b} m v h =
    let (o, q, found) = find_packet-Result (b.used + 1) d (b.head + b.used) b.head (omega arith) in
    let n0 = packet_len o b.head m in
    let (b', e, kept, v') = read_lem n0 v in
    (
      min (packet_len o b.head m) b.used,
      b',
      read_packet_found b m v.holds q
          ∙ e
          ∙ ap (λ t. done (min n0 b.used, t, b'))
              (take_within (contents b) n0 b.used (length-contents v)),
      kept ∙ drop_within (contents b) n0 b.used (min n0 b.used) (length-contents v) refl,
      v',
      elim found [
        | inl t ↦ inl (rw t (omega arith))
        | inr (k, t, g) ↦ inr (k, g, rw (t, packet_len-some) refl)
      ],
    )
