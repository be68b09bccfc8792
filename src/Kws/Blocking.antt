-- ===== src/Kws/Blocking.antt =====
-- `kws_raw_read_blocking` and `kws_string_read_blocking` of src/kws.c, which read a number of bytes
-- in as many calls as it takes.
use mathlib.Core.Path.{subst}
use libks.Base.{
  ℕ, zero, suc, ◌+◌, ◌-◌, ◌%◌, ◌^◌, ◌≡◌, ◌≤◌, ◌<◌, refl, sym, ap, ap₂, ◌∙◌, true, false, List, ◌++◌,
  arith, length, take, drop, ltb, lt→ltb, Run, done, ◌>>=◌, length-drop, drop-drop, append_assoc,
  append-nil, take-join, ℤ, pos, negsuc,
}
use libks.Kws.{
  Kws, Recv, Dest, in_buffer, in_bbuffer, shift_dest, int_of, as_int, raw_read, raw_read_loop,
  rounds, string_read_blocking,
}
use libks.Kws.Stream.{
  Feeds, Waits, buf, index, with_buf, after, raw_read-Fetched, shift_index, buf_shift, buf_with,
  with_buf-Waits, after-with_buf, write_mark, marked, length-marked, take-marked,
}

after-same : (w : Kws) (dest : Dest) → w.x ≡ 0 → w ≡ after w dest (buf w dest) w.recvs
after-same w (in_buffer i) e = ap (λ v. record w { x = v }) e
after-same w (in_bbuffer i) e = ap (λ v. record w { x = v }) e

after-Waits :
    (w : Kws) (dest : Dest) (d : List ℕ) (es : List Recv) (s t : List ℕ)
    → Waits w s
    → Feeds es t
    → Waits (after w dest d es) t
after-Waits w (in_buffer i) d es s t q f = record {
  feeds = f;
  at_rest = refl;
  nothing_over = q.nothing_over;
}
after-Waits w (in_bbuffer i) d es s t q f = record {
  feeds = f;
  at_rest = refl;
  nothing_over = q.nothing_over;
}

buf-after : (w : Kws) (dest : Dest) (d : List ℕ) (es : List Recv) → buf (after w dest d es) dest ≡ d
buf-after w (in_buffer i) d es = refl
buf-after w (in_bbuffer i) d es = refl

after-after :
    (w : Kws) (dest : Dest) (d d' : List ℕ) (es es' : List Recv)
    → after (after w dest d es) dest d' es' ≡ after w dest d' es'
after-after w (in_buffer i) d d' es es' = refl
after-after w (in_bbuffer i) d d' es es' = refl

after-shift :
    (w : Kws) (dest : Dest) (n : ℕ) (d : List ℕ) (es : List Recv)
    → after w (shift_dest dest n) d es ≡ after w dest d es
after-shift w (in_buffer i) n d es = refl
after-shift w (in_bbuffer i) n d es = refl

-- The loop with `total` bytes read, of `total + n` that it is to read.
record Looped (w : Kws) (dest : Dest) (s : List ℕ) (total n : ℕ) (run : Run (ℕ × Kws))
    : Type 0 where
  d : List ℕ
  left : List Recv
  result : run ≡ done (total + n, after w dest d left)
  feeds : Feeds left (drop n s)
  same_size : length d ≡ length (buf w dest)
  front : take (index dest + (total + n)) d ≡ take (index dest + total) (buf w dest) ++ take n s

raw_read_loop-end :
    (f : ℕ) (w : Kws) (dest : Dest) (total tries : ℕ)
    → raw_read_loop (suc f) w dest total total 0 tries ≡ done (total, w)
unfolding raw_read_loop
raw_read_loop-end f w dest total tries = let e : ltb total total ≡ false = ground arith in rw e refl

int_small : (k : ℕ) → k < 2 ^ 31 → int_of k ≡ pos k
unfolding int_of
int_small k h =
    let e : k % 2 ^ 32 ≡ k = omega arith in
    let t : ltb (k % 2 ^ 32) (2 ^ 31) ≡ true = ground (arith, e) in rw t (ap pos e)

as_int_small : (k : ℕ) → k < 2 ^ 31 → as_int (pos k) ≡ pos k
unfolding as_int
as_int_small k h = int_small k h

raw_read_loop-more :
    (f : ℕ) (w : Kws) (dest : Dest) (total max_bytes tries k : ℕ) (w' : Kws)
    → total < max_bytes
    → 0 < tries
    → 0 < k
    → k < 2 ^ 31
    → raw_read w (shift_dest dest total) (max_bytes - total) true ≡ done (pos k, w')
    → raw_read_loop (suc f) w dest total max_bytes 0 tries
      ≡ raw_read_loop f w' dest (total + k) max_bytes 0 tries
unfolding raw_read_loop
raw_read_loop-more f w dest total max_bytes tries zero w' h t p few r = absurd (omega arith)
raw_read_loop-more f w dest total max_bytes tries (suc k) w' h t p few r =
    rw (lt→ltb total max_bytes h, lt→ltb 0 tries t, r)
      (ap
        (λ v. elim v [
          | negsuc _ ↦ done (total, w')
          | pos n ↦ elim n [
            | zero ↦ raw_read_loop f w' dest total max_bytes (0 + 1) tries
            | suc j ↦ raw_read_loop f w' dest (total + suc j) max_bytes 0 tries
          ]
        ])
        (as_int_small (suc k) few))

-- Where the bytes of a read stand, counted from the start of all that is read.
front_shifted :
    (w : Kws) (dest : Dest) (s : List ℕ) (total k : ℕ) (d : List ℕ)
    → index (shift_dest dest total) ≡ index dest + total
    → buf w (shift_dest dest total) ≡ buf w dest
    → take (index (shift_dest dest total) + k) d
      ≡ take (index (shift_dest dest total)) (buf w (shift_dest dest total)) ++ take k s
    → take (index dest + (total + k)) d ≡ take (index dest + total) (buf w dest) ++ take k s
front_shifted w dest s total k d i b h =
    ap (λ n. take n d) (omega (arith, i)) ∙ h ∙ ap₂ (λ n u. take n u ++ take k s) i b

raw_read_loop-Looped :
    (f : ℕ) (w : Kws) (dest : Dest) (s : List ℕ) (total n tries : ℕ)
    → Waits w s
    → n ≤ length s
    → n < 2 ^ 32
    → n < f
    → 0 < tries
    → index dest + (total + n) ≤ length (buf w dest)
    → Looped w dest s total n (raw_read_loop f w dest total (total + n) 0 tries)
raw_read_loop-Looped zero w dest s total n tries q there int_n enough t room = absurd (omega arith)
raw_read_loop-Looped (suc f) w dest s total zero tries q there int_n enough t room =
    let e : total + 0 ≡ total = omega arith in
    record {
      d = buf w dest;
      left = w.recvs;
      result =
          ap (λ n. raw_read_loop (suc f) w dest total n 0 tries) e
          ∙ raw_read_loop-end f w dest total tries
          ∙ ap₂ (λ n u. done (n, u)) (sym e) (after-same w dest (q.at_rest));
      feeds = q.feeds;
      same_size = refl;
      front =
          ap (λ n. take (index dest + n) (buf w dest)) e
          ∙ sym (append-nil (take (index dest + total) (buf w dest)));
    }
raw_read_loop-Looped (suc f) w dest s total (suc m) tries q there int_n enough t room =
    let to = shift_dest dest total in
    let i = shift_index dest total in
    let b = buf_shift w dest total in
    let r =
      raw_read-Fetched w to s (total + suc m - total) true q (omega arith) (omega (arith, int_n))
        (omega arith) (omega (arith, i, ap length b, room)) in
    let k = r.count in
    let n1 : k ≤ suc m = omega (arith, r.within) in
    let w1 = after w to r.d r.left in
    let rest = suc m - k in
    let e : total + suc m ≡ total + k + rest = omega (arith, n1) in
    let b1 : buf w1 dest ≡ r.d =
      ap (λ u. buf u dest) (after-shift w dest total r.d r.left) ∙ buf-after w dest r.d r.left in
    let c =
      raw_read_loop-Looped f w1 dest (drop k s) (total + k) rest tries
        (after-Waits w to r.d r.left s (drop k s) q (r.feeds)) (omega (arith, length-drop k s))
        (omega (arith, int_n)) (omega (arith, r.more)) t
        (omega (arith, ap length b1, r.same_size, ap length b, room)) in
    let at_once : w1 ≡ after w dest r.d r.left = after-shift w dest total r.d r.left in
    record {
      d = c.d;
      left = c.left;
      result =
          raw_read_loop-more f w dest total (total + suc m) tries k w1 (omega arith) t (r.more)
            (r.small) (r.result)
          ∙ ap (λ n. raw_read_loop f w1 dest (total + k) n 0 tries) e
          ∙ c.result
          ∙ ap₂ (λ n u. done (n, u)) (sym e)
              (ap (λ u. after u dest c.d c.left) at_once
                ∙ after-after w dest r.d c.d r.left c.left);
      feeds = subst (Feeds c.left) (drop-drop s k rest (suc m) (omega (arith, n1))) (c.feeds);
      same_size = c.same_size ∙ ap length b1 ∙ r.same_size ∙ ap length b;
      front =
          ap (λ n. take (index dest + n) c.d) e
          ∙ c.front
          ∙ ap (λ u. u ++ take rest (drop k s))
              (ap (take (index dest + (total + k))) b1
                ∙ front_shifted w dest s total k (r.d) i b (r.front))
          ∙ append_assoc (take (index dest + total) (buf w dest)) (take k s) (take rest (drop k s))
          ∙ ap (λ u. take (index dest + total) (buf w dest) ++ u)
              (take-join s k rest (suc m) (omega (arith, n1)));
    }

-- The `n` bytes asked for were all read, and stand in the buffer behind what stood there.
pub record Loaded (w : Kws) (dest : Dest) (s : List ℕ) (n : ℕ) (run : Run (ℤ × Kws)) : Type 0 where
  pub d : List ℕ
  pub left : List Recv
  pub result : run ≡ done (pos n, after w dest d left)
  pub feeds : Feeds left (drop n s)
  pub same_size : length d ≡ length (buf w dest)
  pub front : take (index dest + n) d ≡ take (index dest) (buf w dest) ++ take n s

rounds_enough : (n tries : ℕ) → n < rounds n tries
rounds_enough n tries = omega arith

abbrev as_read : Run (ℕ × Kws) → Run (ℤ × Kws)
as_read run = do (k, w') ← run; done (pos k, w')

module _ (w : Kws) (dest : Dest) (s : List ℕ) (n : ℕ) (q : Waits w s)
    (room : index dest + n < length (buf w dest)) where
  blocking_steps :
      (tries : ℕ)
      → 0 < n
      → string_read_blocking w dest (suc n) tries
        ≡ as_read (
            raw_read_loop
              (rounds n tries)
              (with_buf w dest (marked w dest s n q room))
              dest
              0
              n
              0
              tries)
  unfolding string_read_blocking
  blocking_steps tries pos_n =
      let e : ltb (suc n) 1 ≡ false = ground arith in
      let e' : ltb (suc n) 2 ≡ false = ground arith in
      let e0 : suc n - 1 ≡ n = omega arith in rw (e, e0, write_mark w dest s n q room, e') refl

  -- `kws_string_read_blocking` of `n` bytes, fewer than 2 ^ 32 and not none, with a retry at least, from a socket that will have at least as many in pieces of
  -- any sizes, reads these bytes and no more: they stand in the buffer behind what stood there, the
  -- buffer keeps its size, and what is to come is the rest of the stream.
  pub string_read_blocking_lem :
      (tries : ℕ)
      → 0 < n
      → n ≤ length s
      → n < 2 ^ 32
      → 0 < tries
      → Loaded w dest s n (string_read_blocking w dest (suc n) tries)
  string_read_blocking_lem tries pos_n there int_n t =
      let m = marked w dest s n q room in
      let w' = with_buf w dest m in
      let b = buf_with w dest m in
      let e : n ≡ 0 + n = omega arith in
      let e2 : index dest + 0 ≡ index dest = omega arith in
      let size = length-marked w dest s n q room in
      let c =
        raw_read_loop-Looped (rounds n tries) w' dest s 0 n tries (with_buf-Waits w dest m s q)
          there int_n (rounds_enough n tries) t (omega (arith, ap length b, size, room)) in
      record {
        d = c.d;
        left = c.left;
        result =
            blocking_steps tries pos_n
            ∙ ap (λ v. as_read (raw_read_loop (rounds n tries) w' dest 0 v 0 tries)) e
            ∙ ap as_read c.result
            ∙ ap₂ (λ v u. done (pos v, u)) (sym e) (after-with_buf w dest m c.d c.left);
        feeds = c.feeds;
        same_size = c.same_size ∙ ap length b ∙ size;
        front =
            ap (λ v. take (index dest + v) c.d) e
            ∙ c.front
            ∙ ap₂ (λ v u. take v u ++ take n s) e2 b
            ∙ ap (λ u. u ++ take n s) (take-marked w dest s n q room);
      }
