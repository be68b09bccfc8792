-- ===== src/Kws/Header.antt =====
-- The first bytes of a frame in `kws_read_frame` of src/kws.c, as they come from a socket: how many are
-- in the buffer, and what they say.
use mathlib.Core.Path.{subst}
use libks.Base.{
  ℕ, zero, suc, ◌+◌, ◌-◌, ◌^◌, ◌≡◌, ◌≤◌, ◌<◌, refl, sym, ap, ◌∙◌, inl, inr, true, false, Bool-cases,
  Option, some, List, [], ◌∷◌, ◌++◌, arith, length, take, drop, slice, get_or, drop-take, take-take,
  ltb, lt→ltb, ◌==◌, if◌then◌else◌, Run, done, load, load_inside, length-take, length-drop,
  drop-drop, take-join, ℤ, pos,
}
use libks.Kws.{Kws, Recv, in_buffer, string_read_blocking}
use libks.Kws.Stream.{Feeds, Waits}
use libks.Kws.Blocking.{string_read_blocking_lem}
use libks.Kws.Send.{big_endian, length_code}
use libks.Kws.Frame.{ensure, byte_at, length_size, from_big_endian}

-- The first `d` bytes of a stream are in the buffer, and the others are to come.
pub record Held (w : Kws) (t : List ℕ) (d : ℕ) : Type 0 where
  pub buffered : take d w.buffer ≡ take d t
  pub within : d ≤ length t
  pub waits : Waits w (drop d t)
  pub room : 20 ≤ length w.buffer

abbrev pub moved : Kws → List ℕ → List Recv → ℤ → Kws
moved w b es datalen = record w { buffer = b; recvs = es; x = 0; datalen = datalen }

-- As many bytes are in the buffer as are needed, and not more than there were or are needed.
pub record Ensured (w : Kws) (t : List ℕ) (d need : ℕ) (run : Run (Option ℕ × Kws)) : Type 0 where
  pub at : ℕ
  pub b : List ℕ
  pub left : List Recv
  pub datalen : ℤ
  pub result : run ≡ done (some at, moved w b left datalen)
  pub held : Held (moved w b left datalen) t at
  pub enough : need ≤ at
  pub more : d ≤ at
  pub bounded : (k : ℕ) → d ≤ k → need ≤ k → at ≤ k

ensure_there : (w : Kws) (d need : ℕ) → ltb d need ≡ false → ensure w d need ≡ done (some d, w)
unfolding ensure
ensure_there w d need h = rw h refl

ensure_read :
    (w : Kws) (d n need : ℕ) (b : List ℕ) (es : List Recv)
    → 0 < n
    → d + n ≡ need
    → string_read_blocking w (in_buffer d) (suc n) 10
      ≡ done (pos n, record w { buffer = b; recvs = es; x = 0 })
    → ensure w d need ≡ done (some need, moved w b es (pos need))
unfolding ensure
ensure_read w d n need b es h e r =
    let p : ltb d need ≡ true = lt→ltb d need (omega (arith, e)) in
    let s : need - d + 1 ≡ suc n = omega (arith, e) in
    let u : ltb need need ≡ false = ground arith in rw (p, s, r, e, u) refl

pub ensure-Ensured :
    (w : Kws) (t : List ℕ) (d need : ℕ)
    → Held w t d
    → need ≤ length t
    → need < 20
    → Ensured w t d need (ensure w d need)
ensure-Ensured w t d need h there small = elim (Bool-cases (ltb d need)) [
  | inr p ↦ record {
    at = d;
    b = w.buffer;
    left = w.recvs;
    datalen = w.datalen;
    result =
        ensure_there w d need p ∙ ap (λ v. done (some d, record w { x = v })) (h.waits.at_rest);
    held = record {
      buffered = h.buffered;
      within = h.within;
      waits = record { feeds = h.waits.feeds; at_rest = refl; nothing_over = h.waits.nothing_over };
      room = h.room;
    };
    enough = ground arith;
    more = omega arith;
    bounded = λ k x y. x;
  }
  | inl p ↦
      let less : d < need = ground arith in
      let n = need - d in
      let s = drop d t in
      let l = length-drop d t in
      let r =
        string_read_blocking_lem w (in_buffer d) s n (h.waits) (omega (arith, less, h.room)) 10
          (omega (arith, less)) (omega (arith, l, less)) (omega (arith, small)) (omega arith) in
      let e : d + n ≡ need = omega (arith, less) in
      record {
        at = need;
        b = r.d;
        left = r.left;
        datalen = pos need;
        result = ensure_read w d n need r.d r.left (omega (arith, less)) e (r.result);
        held = record {
          buffered =
              ap (λ v. take v r.d) (sym e)
              ∙ r.front
              ∙ ap (λ u. u ++ take n s) (h.buffered)
              ∙ take-join t d n need (sym e);
          within = there;
          waits = record {
            feeds = subst (Feeds r.left) (drop-drop t d n need (sym e)) (r.feeds);
            at_rest = refl;
            nothing_over = h.waits.nothing_over;
          };
          room = omega (arith, r.same_size, h.room);
        };
        enough = omega arith;
        more = omega (arith, less);
        bounded = λ k x y. y;
      }
]

get_or-take :
    (xs ys : List ℕ) (d i : ℕ) → take d xs ≡ take d ys → i < d → get_or xs i 0 ≡ get_or ys i 0
get_or-take xs ys zero i e h = absurd (omega arith)
get_or-take [] [] (suc d) i e h = refl
get_or-take [] (y ∷ ys) (suc d) i e h = absurd (omega (arith, ap length e))
get_or-take (x ∷ xs) [] (suc d) i e h = absurd (omega (arith, ap length e))
get_or-take (x ∷ xs) (y ∷ ys) (suc d) zero e h = ap (λ u. get_or u 0 0) e
get_or-take (x ∷ xs) (y ∷ ys) (suc d) (suc i) e h =
    get_or-take xs ys d i (ap (λ u. drop 1 u) e) (omega arith)

slice-take : (xs : List ℕ) (i n d : ℕ) → i + n ≤ d → slice (take d xs) i n ≡ slice xs i n
slice-take xs i n d h =
    ap (take n) (drop-take xs i d (d - i) refl) ∙ take-take (drop i xs) n (d - i) (omega arith)

module _ (w : Kws) (t : List ℕ) (d : ℕ) (h : Held w t d) where
  pub buffer_size : d ≤ length w.buffer
  buffer_size =
      omega (arith, h.within, length-take d w.buffer, length-take d t, ap length (h.buffered))

  pub byte_at-Held : (i : ℕ) → i < d → byte_at w.buffer i ≡ done (get_or t i 0)
  unfolding byte_at
  byte_at-Held i less =
      rw (lt→ltb i (length w.buffer) (omega (arith, buffer_size)))
        (ap done (get_or-take w.buffer t d i (h.buffered) less))

  pub load-Held : (i n : ℕ) → i + n ≤ d → load w.buffer i n ≡ done (slice t i n)
  load-Held i n less =
      load_inside w.buffer i n (omega (arith, buffer_size))
      ∙ ap done (
          sym (slice-take w.buffer i n d less)
          ∙ ap (λ u. slice u i n) (h.buffered)
          ∙ slice-take t i n d less)

two : (n : ℕ) → n < 0x10000 → from_big_endian 0 (big_endian 2 n) ≡ n
unfolding from_big_endian big_endian
two n h = omega arith

eight : (n : ℕ) → n < 2 ^ 63 → from_big_endian 0 (big_endian 8 n) ≡ n
unfolding from_big_endian big_endian
eight n h = omega arith

-- The length that `kws_write_frame` puts into a header is the one that is read from it.
pub record Coded (n : ℕ) : Type 0 where
  pub l : ℕ
  pub more : List ℕ
  pub code : length_code n ≡ (l, more)
  pub small : l < 128
  pub size : length more ≡ length_size l
  pub few : length_size l ≤ 8
  pub value : (if length_size l == 0 then l else from_big_endian 0 more) ≡ n

length-big_endian : (k n : ℕ) → length (big_endian k n) ≡ k
unfolding big_endian
length-big_endian zero n = refl
length-big_endian (suc k) n = ap suc (length-big_endian k n)

pub length_code-Coded : (n : ℕ) → n < 2 ^ 63 → Coded n
unfolding length_code
length_code-Coded n h = elim (Bool-cases (ltb n 126)) [
  | inl p ↦
      let less : n < 126 = ground arith in
      let a : (n == 127) ≡ false = ground arith in
      let b : (n == 126) ≡ false = ground arith in
      record {
        l = n;
        more = [];
        code = rw p refl;
        small = omega arith;
        size = rw (a, b) refl;
        few = rw (a, b) (omega arith);
        value = rw (a, b) refl;
      }
  | inr p ↦ elim (Bool-cases (ltb n 0x10000)) [
    | inl q ↦ record {
      l = 126;
      more = big_endian 2 n;
      code = rw (p, q) refl;
      small = omega arith;
      size = length-big_endian 2 n;
      few = omega arith;
      value = two n (ground arith);
    }
    | inr q ↦ record {
      l = 127;
      more = big_endian 8 n;
      code = rw (p, q) refl;
      small = omega arith;
      size = length-big_endian 8 n;
      few = omega arith;
      value = eight n h;
    }
  ]
]
