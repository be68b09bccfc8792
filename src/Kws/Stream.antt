-- ===== src/Kws/Stream.antt =====
-- Reads of a connection of src/kws.c whose socket has the bytes of a stream, in whatever pieces they
-- come: `recv`, `kws_raw_read`, `kws_string_read` and the blocking read.
use mathlib.Core.Path.{subst}
use libks.Base.{
  ℕ, zero, suc, ◌+◌, ◌-◌, ◌^◌, ◌≡◌, ◌≤◌, ◌<◌, refl, sym, ap, ◌∙◌, inl, inr, Bool, true, false,
  Bool-cases, List, [], ◌∷◌, ◌++◌, arith, length, take, drop, ltb, leb, Run, done, store_inside,
  overwrite, length-overwrite, length-append, length-take, length-drop, take-overwrite,
  take-overwrite_end, take-append, take-append_within, drop-append, drop-append_within, ℤ, pos,
}
use libks.Kws.{
  Kws, Recv, got, would_block, failed, Read, Dest, in_buffer, in_bbuffer, write_at, shift_dest,
  recv_loop, asked, settle, terminator, store_read, read_socket, raw_read, string_read,
}

-- The answers of `recv` are the bytes of a stream in pieces that are not empty.
abbrev pub Feeds : List Recv → List ℕ → Type 0
Feeds [] s = s ≡ []
Feeds (got (y ∷ ys) ∷ es) s = (t : List ℕ) × (s ≡ y ∷ ys ++ t) × Feeds es t
Feeds (got [] ∷ es) s = ⊥
Feeds (would_block ∷ es) s = ⊥
Feeds (failed ∷ es) s = ⊥

-- What one call of `recv` for `n` bytes at most takes off a stream.
pub record Taken (es : List Recv) (s : List ℕ) (n : ℕ) (block : Bool) (x : ℕ) : Type 0 where
  pub count : ℕ
  pub more : 0 < count
  pub within : count ≤ n
  pub there : count ≤ length s
  pub left : List Recv
  pub result :
      recv_loop es n block x ≡ record { r = pos count; bytes = take count s; recvs = left; x = x }
  pub feeds : Feeds left (drop count s)

Feeds-front :
    (es : List Recv) (xs t s : List ℕ)
    → 0 < length xs
    → s ≡ xs ++ t
    → Feeds es t
    → Feeds (got xs ∷ es) s
Feeds-front es [] t s h e f = absurd (omega arith)
Feeds-front es (x ∷ xs) t s h e f = (t, e, f)

recv_loop-Taken :
    (es : List Recv) (s : List ℕ) (n : ℕ) (block : Bool) (x : ℕ)
    → Feeds es s
    → 0 < n
    → 0 < length s
    → Taken es s n block x
unfolding recv_loop
recv_loop-Taken [] s n block x f pos_n some_s = absurd (omega (arith, ap length f))
recv_loop-Taken (got (y ∷ ys) ∷ es) s n block x (t, e, f) pos_n some_s =
    let xs = y ∷ ys in
    let l = ap length e ∙ length-append xs t in
    elim (Bool-cases (leb (length xs) n)) [
      | inl p ↦ record {
        count = length xs;
        more = omega arith;
        within = ground arith;
        there = omega (arith, l);
        left = es;
        result = rw (p, e, take-append xs t (length xs) refl) refl;
        feeds =
            subst (Feeds es)
              (sym (ap (λ u. drop (length xs) u) e ∙ drop-append xs t (length xs) refl)) f;
      }
      | inr p ↦
          let short : n < length xs = ground arith in
          record {
            count = n;
            more = pos_n;
            within = omega arith;
            there = omega (arith, l);
            left = got (drop n xs) ∷ es;
            result = rw (p, e, take-append_within xs t n (omega arith)) refl;
            feeds =
                Feeds-front es (drop n xs) t (drop n s) (omega (arith, length-drop n xs))
                  (ap (λ u. drop n u) e ∙ drop-append_within xs t n (omega arith)) f;
          }
    ]
recv_loop-Taken (got [] ∷ es) s n block x f pos_n some_s = absurd f
recv_loop-Taken (would_block ∷ es) s n block x f pos_n some_s = absurd f
recv_loop-Taken (failed ∷ es) s n block x f pos_n some_s = absurd f

abbrev pub buf : Kws → Dest → List ℕ
buf w (in_buffer i) = w.buffer
buf w (in_bbuffer i) = w.bbuffer

abbrev pub index : Dest → ℕ
index (in_buffer i) = i
index (in_bbuffer i) = i

abbrev pub with_buf : Kws → Dest → List ℕ → Kws
with_buf w (in_buffer i) d = record w { buffer = d }
with_buf w (in_bbuffer i) d = record w { bbuffer = d }

-- The connection after a read, with another buffer and fewer bytes to come.
abbrev pub after : Kws → Dest → List ℕ → List Recv → Kws
after w dest d es = with_buf (record w { recvs = es; x = 0 }) dest d

-- The bytes of a stream are to come, and nothing else was left over.
pub record Waits (w : Kws) (s : List ℕ) : Type 0 where
  pub feeds : Feeds w.recvs s
  pub at_rest : w.x ≡ 0
  pub nothing_over : w.unprocessed_buffer_len ≡ 0

-- A read of `n` bytes at most gave some bytes of the stream, and they stand in the buffer behind
-- what stood there.
pub record Fetched (w : Kws) (dest : Dest) (s : List ℕ) (n : ℕ) (run : Run (ℤ × Kws)) : Type 0 where
  pub count : ℕ
  pub more : 0 < count
  pub within : count ≤ n
  pub small : count < 2 ^ 31
  pub there : count ≤ length s
  pub d : List ℕ
  pub left : List Recv
  pub result : run ≡ done (pos count, after w dest d left)
  pub feeds : Feeds left (drop count s)
  pub same_size : length d ≡ length (buf w dest)
  pub front : take (index dest + count) d ≡ take (index dest) (buf w dest) ++ take count s

write_at_inside :
    (w : Kws) (dest : Dest) (ys : List ℕ)
    → index dest + length ys ≤ length (buf w dest)
    → write_at w dest ys ≡ done (with_buf w dest (overwrite (buf w dest) (index dest) ys))
unfolding write_at
write_at_inside w (in_buffer i) ys h = rw (store_inside w.buffer i ys h) refl
write_at_inside w (in_bbuffer i) ys h = rw (store_inside w.bbuffer i ys h) refl

settled :
    (n k : ℕ) (block : Bool) (ys : List ℕ) (es : List Recv)
    → settle n block (record { r = pos k; bytes = ys; recvs = es; x = 1 })
      ≡ record { r = pos k; bytes = ys; recvs = es; x = 0 }
unfolding settle
settled n k true ys es = refl
settled n k false ys es = refl

length-terminator : (k n : ℕ) → k ≤ n → k + length (terminator (pos k) n) ≤ n
length-terminator zero n h = omega arith
length-terminator (suc k) n h = elim (Bool-cases (ltb (suc k) n)) [
  | inl p ↦ ground arith
  | inr p ↦ rw p (omega arith)
]

with_buf_again :
    (w : Kws) (dest : Dest) (d : List ℕ) (es : List Recv)
    → record (with_buf w dest d) { recvs = es; x = 0 } ≡ after w dest d es
with_buf_again w (in_buffer i) d es = refl
with_buf_again w (in_bbuffer i) d es = refl

store_read_done :
    (w : Kws) (dest : Dest) (n : ℕ) (a : Read) (w' : Kws)
    → write_at w dest (a.bytes ++ terminator a.r n) ≡ done w'
    → store_read w dest n a ≡ done (a.r, record w' { recvs = a.recvs; x = a.x })
unfolding store_read
store_read_done w dest n a w' r = rw r refl

read_socket_steps :
    (w : Kws) (dest : Dest) (n : ℕ) (block : Bool) (a : Read) (w' : Kws)
    → settle n block (recv_loop w.recvs (asked n) block (w.x + 1)) ≡ a
    → write_at w dest (a.bytes ++ terminator a.r n) ≡ done w'
    → read_socket w dest n block ≡ done (a.r, record w' { recvs = a.recvs; x = a.x })
unfolding read_socket
read_socket_steps w dest n block a w' p r =
    ap (store_read w dest n) p ∙ store_read_done w dest n a w' r

raw_read_socket :
    (w : Kws) (dest : Dest) (n : ℕ) (block : Bool)
    → ltb 0 w.unprocessed_buffer_len ≡ false
    → raw_read w dest n block ≡ read_socket w dest n block
unfolding raw_read
raw_read_socket w dest n block p = rw p refl

-- Fewer than 2 ^ 32 bytes are asked for as some, and no more than they are.
pub asked-le : (n : ℕ) → asked n ≤ n
unfolding asked
asked-le n = ground arith

asked_small : (n : ℕ) → asked n < 2 ^ 31
unfolding asked
asked_small n = ground arith

asked_some : (n : ℕ) → 0 < n → n < 2 ^ 32 → 0 < asked n
unfolding asked
asked_some n pos_n h = ground arith

pub raw_read-Fetched :
    (w : Kws) (dest : Dest) (s : List ℕ) (n : ℕ) (block : Bool)
    → Waits w s
    → 0 < n
    → n < 2 ^ 32
    → 0 < length s
    → index dest + n ≤ length (buf w dest)
    → Fetched w dest s n (raw_read w dest n block)
raw_read-Fetched w dest s n block q pos_n int_n some_s room =
    let t =
      recv_loop-Taken w.recvs s (asked n) block 1 (q.feeds) (asked_some n pos_n int_n) some_s in
    let few : t.count ≤ n = omega (arith, t.within, asked-le n) in
    let ys = take t.count s in
    let zs = terminator (pos t.count) n in
    let l : length ys ≡ t.count = omega (arith, length-take t.count s, t.there) in
    let size = length-append ys zs in
    let fits : index dest + length (ys ++ zs) ≤ length (buf w dest) =
      omega (arith, size, l, length-terminator t.count n few) in
    record {
      count = t.count;
      more = t.more;
      within = few;
      small = omega (arith, t.within, asked_small n);
      there = t.there;
      d = overwrite (buf w dest) (index dest) (ys ++ zs);
      left = t.left;
      result =
          raw_read_socket w dest n block (rw q.nothing_over refl)
          ∙ read_socket_steps w dest n block
              (record { r = pos t.count; bytes = ys; recvs = t.left; x = 0 })
              (with_buf w dest (overwrite (buf w dest) (index dest) (ys ++ zs)))
              (ap (λ v. settle n block (recv_loop w.recvs (asked n) block (v + 1))) (q.at_rest)
                ∙ ap (settle n block) t.result
                ∙ settled n t.count block ys t.left)
              (write_at_inside w dest (ys ++ zs) fits)
          ∙ ap (λ u. done (pos t.count, u))
              (with_buf_again w dest (overwrite (buf w dest) (index dest) (ys ++ zs)) t.left);
      feeds = t.feeds;
      same_size = length-overwrite (buf w dest) (index dest) (ys ++ zs);
      front =
          take-overwrite_end (buf w dest) (index dest) ys zs (index dest + t.count) fits
            (omega (arith, l));
    }

-- The NUL that is put at the end first is not in front of what is read.
pub shift_index : (dest : Dest) (n : ℕ) → index (shift_dest dest n) ≡ index dest + n
shift_index (in_buffer i) n = refl
shift_index (in_bbuffer i) n = refl

pub buf_shift : (w : Kws) (dest : Dest) (n : ℕ) → buf w (shift_dest dest n) ≡ buf w dest
buf_shift w (in_buffer i) n = refl
buf_shift w (in_bbuffer i) n = refl

with_buf_shift :
    (w : Kws) (dest : Dest) (n : ℕ) (d : List ℕ)
    → with_buf w (shift_dest dest n) d ≡ with_buf w dest d
with_buf_shift w (in_buffer i) n d = refl
with_buf_shift w (in_bbuffer i) n d = refl

pub buf_with : (w : Kws) (dest : Dest) (d : List ℕ) → buf (with_buf w dest d) dest ≡ d
buf_with w (in_buffer i) d = refl
buf_with w (in_bbuffer i) d = refl

pub with_buf-Waits :
    (w : Kws) (dest : Dest) (d s : List ℕ) → Waits w s → Waits (with_buf w dest d) s
with_buf-Waits w (in_buffer i) d s q = record {
  feeds = q.feeds;
  at_rest = q.at_rest;
  nothing_over = q.nothing_over;
}
with_buf-Waits w (in_bbuffer i) d s q = record {
  feeds = q.feeds;
  at_rest = q.at_rest;
  nothing_over = q.nothing_over;
}

pub after-with_buf :
    (w : Kws) (dest : Dest) (d d' : List ℕ) (es : List Recv)
    → after (with_buf w dest d) dest d' es ≡ after w dest d' es
after-with_buf w (in_buffer i) d d' es = refl
after-with_buf w (in_bbuffer i) d d' es = refl

-- The NUL of `kws_string_read` and its blocking twin, where `n` bytes at most are read.
module _ (w : Kws) (dest : Dest) (s : List ℕ) (n : ℕ) (q : Waits w s)
    (room : index dest + n < length (buf w dest)) where
  pub marked : List ℕ
  marked = overwrite (buf w dest) (index dest + n) (0 ∷ [])

  pub write_mark : write_at w (shift_dest dest n) (0 ∷ []) ≡ done (with_buf w dest marked)
  unfolding marked
  write_mark =
      write_at_inside w (shift_dest dest n) (0 ∷ [])
        (omega (arith, shift_index dest n, ap length (buf_shift w dest n)))
      ∙ ap done (
          with_buf_shift w dest n
            (overwrite (buf w (shift_dest dest n)) (index (shift_dest dest n)) (0 ∷ [])))
      ∙ rw (shift_index dest n, buf_shift w dest n) refl

  pub length-marked : length marked ≡ length (buf w dest)
  unfolding marked
  length-marked = length-overwrite (buf w dest) (index dest + n) (0 ∷ [])

  pub take-marked : take (index dest) marked ≡ take (index dest) (buf w dest)
  unfolding marked
  take-marked = take-overwrite (buf w dest) (index dest + n) (0 ∷ []) (index dest) (omega arith)

  string_read_steps :
      (block : Bool)
      → 0 < n
      → string_read w dest (suc n) block ≡ raw_read (with_buf w dest marked) dest n block
  unfolding string_read
  string_read_steps block pos_n =
      let e : ltb (suc n) 1 ≡ false = ground arith in
      let e' : ltb (suc n) 2 ≡ false = ground arith in
      let e0 : suc n - 1 ≡ n = omega arith in rw (e, e0, write_mark, e') refl

  pub string_read-Fetched :
      (block : Bool)
      → 0 < n
      → n < 2 ^ 32
      → 0 < length s
      → Fetched w dest s n (string_read w dest (suc n) block)
  string_read-Fetched block pos_n int_n some_s =
      let w' = with_buf w dest marked in
      let b = buf_with w dest marked in
      let t =
        raw_read-Fetched w' dest s n block (with_buf-Waits w dest marked s q) pos_n int_n some_s
          (omega (arith, ap length b, length-marked)) in
      record {
        count = t.count;
        more = t.more;
        within = t.within;
        small = t.small;
        there = t.there;
        d = t.d;
        left = t.left;
        result =
            string_read_steps block pos_n
            ∙ t.result
            ∙ ap (λ u. done (pos t.count, u)) (after-with_buf w dest marked t.d t.left);
        feeds = t.feeds;
        same_size = t.same_size ∙ ap length b ∙ length-marked;
        front =
            t.front ∙ ap (λ u. u ++ take t.count s) (ap (λ u. take (index dest) u) b ∙ take-marked);
      }
