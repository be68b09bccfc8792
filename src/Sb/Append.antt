-- ===== src/Sb/Append.antt =====
-- What a string builder of src/ks_sb.c holds once strings were appended.
use libks.Base.{
  ℕ, ◌+◌, ◌-◌, ◌^◌, ◌≡◌, ◌≤◌, ◌<◌, refl, sym, ap, ◌∙◌, inl, inr, Bool, true, false, Bool-cases,
  Option-cases, some, List, [], ◌∷◌, ◌++◌, append_assoc, append-nil, arith, length, take, overwrite,
  length-append, length-overwrite, slice-overwrite, take-take, take-append, take_all, ltb, ◌==◌,
  if◌then◌else◌, done, ◌>>=◌, load_inside, store_inside, add_size, sub_size,
}
use mathlib.Core.Path.{subst}
use libks.Sb.Memory.{Blocks}
use libks.Sb.{
  Status, success, fail, Sb, print_buf_size, at_least, grown_size, accommodate, copy, copy_then,
  append_ex, sb_append,
}
use libks.Sb.Outcome.{Holds, OrAborts, aborts, returns, OrAborts-bind, Roomy, Grown, most_for}

if_false {ℓ} : {A : Type ℓ} (b : Bool) (x y : A) → b ≡ false → (if b then x else y) ≡ y
if_false true x y e = absurd (ground (arith, e))
if_false false x y e = refl

at_least-le : (n m : ℕ) → (n ≤ at_least n m) × (at_least n m ≤ n + m)
at_least-le n m = (ground arith, ground arith)

module _ (c : Blocks) where
  grown_size-le :
      (s : Sb) (len : ℕ)
      → s.size < 2 ^ 63
      → s.used ≤ s.size
      → len < 2 ^ 62
      → s.size < s.used + len
      → (s.used + len ≤ grown_size c s len)
        × (s.size ≤ grown_size c s len)
        × (grown_size c s len ≤ most_for s.size len)
  unfolding grown_size
  grown_size-le s len small within few more =
      let needed : sub_size (add_size s.used len) s.size ≡ s.used + len - s.size = omega arith in
      let b = at_least-le (sub_size (add_size s.used len) s.size) print_buf_size in
      (
        omega (arith, needed, b.0, b.1),
        omega (arith, needed, b.0, b.1),
        omega (arith, needed, b.0, b.1),
      )

  resized-Roomy :
      (s : Sb) (text : List ℕ) (len : ℕ) (h : Holds s text) (d : List ℕ)
      → len < 2 ^ 62
      → s.size < s.used + len
      → c.resize h.block (grown_size c s len) ≡ some d
      → Roomy text len
          (most_for s.size len)
          (success, record s { data_of = some d; size = grown_size c s len })
  resized-Roomy s text len h d few more e =
      let g = grown_size-le s len (h.small) (h.within) few more in
      let sized = c.resize_size (h.block) (grown_size c s len) d e in
      let front = c.resize_keeps (h.block) (grown_size c s len) d e (omega (arith, g.1, h.sized)) in
      (
        refl,
        record {
          block = d;
          has_data = refl;
          sized = sized;
          small = c.resize_small (h.block) (grown_size c s len) d e;
          counted = h.counted;
          within = omega (arith, g.1, h.within);
          kept =
              sym (take-take d (s.used) (length h.block) (omega (arith, h.within, h.sized)))
              ∙ ap (take s.used) front
              ∙ h.kept;
        },
        g.0,
        g.2,
      )

  pub accommodate_lem :
      (s : Sb) (text : List ℕ) (len : ℕ)
      → Holds s text
      → len < 2 ^ 62
      → OrAborts c
          (most_for s.size len)
          (Roomy text len (most_for s.size len))
          (accommodate c s len)
  unfolding accommodate
  accommodate_lem s text len h few = elim (Bool-cases (len == 0)) [
    | inl none_more ↦
        rw (none_more, accommodate)
          (returns (success, s) (refl, h, ground (arith, none_more, h.within), omega arith))
    | inr e ↦
        let wide : add_size s.used len ≡ s.used + len = omega (arith, h.within, h.small, few) in
        elim (Bool-cases (ltb s.size (add_size s.used len))) [
          | inl more ↦ elim (Option-cases (c.resize h.block (grown_size c s len))) [
            | inl lacks ↦
                let g = grown_size-le s len (h.small) (h.within) few (ground (arith, more, wide)) in
                rw (e, accommodate, more, h.has_data, lacks)
                  (aborts (record {
                    wanted = grown_size c s len;
                    positive = omega (arith, g.0, h.counted);
                    limited = g.2;
                    refused = inr (h.block, omega (arith, g.1, h.sized), lacks);
                  }))
            | inr (d, given) ↦
                rw (e, accommodate, more, h.has_data, given)
                  (returns (success, record s { data_of = some d; size = grown_size c s len })
                    (resized-Roomy s text len h d few (ground (arith, more, wide)) given))
          ]
          | inr fits ↦
              rw (e, accommodate, fits)
                (returns (success, s) (refl, h, ground (arith, fits, wide), omega arith))
        ]
  ]

  front_text : (s : Sb) (text : List ℕ) (h : Holds s text) → take (length text) h.block ≡ text
  front_text s text h =
      sym (take-take (h.block) (length text) (s.used) (omega (arith, h.counted)))
      ∙ ap (take (length text)) (h.kept)
      ∙ take-append text (0 ∷ []) (length text) refl

  -- A string and its NUL are written over the NUL behind the text.
  pub write-Holds :
      (s : Sb) (text str : List ℕ) (h : Holds s text)
      → s.used + length str ≤ s.size
      → Holds
          (record s {
            data_of = some (overwrite h.block (length text) (str ++ 0 ∷ []));
            used = add_size s.used (length str);
          })
          (text ++ str)
  write-Holds s text str h room =
      let wide : add_size s.used (length str) ≡ s.used + length str =
        omega (arith, h.small, room) in
      record {
        block = overwrite h.block (length text) (str ++ 0 ∷ []);
        has_data = refl;
        sized = length-overwrite (h.block) (length text) (str ++ 0 ∷ []) ∙ h.sized;
        small = h.small;
        counted = omega (arith, wide, h.counted, length-append text str);
        within = omega (arith, wide, room);
        kept =
            ap (λ m. take m (overwrite h.block (length text) (str ++ 0 ∷ []))) wide
            ∙ slice-overwrite (h.block) 0 (length text) (length text) (str ++ 0 ∷ [])
                (s.used + length str)
                (omega (arith, length-append str (0 ∷ []), h.counted, h.sized, room)) (omega arith)
                (omega (arith, length-append str (0 ∷ []), h.counted))
            ∙ ap (λ t. t ++ (str ++ 0 ∷ [])) (front_text s text h)
            ∙ sym (append_assoc text str (0 ∷ []));
      }

  copy_lem :
      (s : Sb) (text str : List ℕ) (h : Holds s text)
      → s.used + length str ≤ s.size
      → copy c s (str ++ 0 ∷ []) (length str)
        ≡ done (record s {
          data_of = some (overwrite h.block (length text) (str ++ 0 ∷ []));
          used = add_size s.used (length str);
        })
  unfolding copy
  copy_lem s text str h room =
      let n = length-append str (0 ∷ []) in
      let wide : add_size (length str) 1 ≡ length str + 1 = omega (arith, h.small, room) in
      let at : sub_size s.used 1 ≡ length text = omega (arith, h.counted, h.within, h.small) in
      let all = take_all (str ++ 0 ∷ []) (length str + 1) (omega (arith, n)) in
      rw
        (
          copy,
          h.has_data,
          wide,
          load_inside (str ++ 0 ∷ []) 0 (length str + 1) (omega (arith, n)),
          all,
          at,
          store_inside (h.block) (length text) (str ++ 0 ∷ [])
              (omega (arith, n, h.counted, h.sized, room)),
        )
        refl

  copied :
      (text str : List ℕ) (most : ℕ) (p : Status × Sb)
      → Roomy text (length str) most p
      → OrAborts c most (Grown (text ++ str) most) (copy_then c p (str ++ 0 ∷ []) (length str))
  unfolding copy_then
  copied text str most (success, r) (e, h, room, below) =
      rw (copy_then, copy_lem r text str h room)
        (returns (success, _) (refl, write-Holds r text str h room, below))
  copied text str most (fail, r) (e, h, room, below) = absurd (ground (arith, e))

  append_some :
      (s : Sb) (text str : List ℕ)
      → Holds s text
      → (length str == 0) ≡ false
      → length str < 2 ^ 62
      → OrAborts c
          (most_for s.size (length str))
          (Grown (text ++ str) (most_for s.size (length str)))
          (sb_append c s (some str))
  unfolding sb_append append_ex
  append_some s text str h e few =
      let most = most_for s.size (length str) in
      subst (OrAborts c most (Grown (text ++ str) most))
        (sym (
          if_false (length str == 0) (done (success, s))
            (do p ← accommodate c s (length str); copy_then c p (str ++ 0 ∷ []) (length str)) e))
        (OrAborts-bind c most most (Roomy text (length str) most) (Grown (text ++ str) most)
          (accommodate c s (length str)) (λ p. copy_then c p (str ++ 0 ∷ []) (length str))
          (omega arith) (accommodate_lem s text (length str) h few) (copied text str most))

  pub append_lem :
      (s : Sb) (text str : List ℕ)
      → Holds s text
      → length str < 2 ^ 62
      → OrAborts c
          (most_for s.size (length str))
          (Grown (text ++ str) (most_for s.size (length str)))
          (sb_append c s (some str))
  unfolding sb_append append_ex
  append_lem s text [] h few =
      returns (success, s) (refl, subst (Holds s) (sym (append-nil text)) h, omega arith)
  append_lem s text (x ∷ str) h few = append_some s text (x ∷ str) h (ground arith) few
