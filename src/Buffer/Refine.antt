-- ===== src/Buffer/Refine.antt =====
-- A buffer without a limit against a queue of bytes: what a client may see of
-- `ks_buffer_write`, `ks_buffer_read`, `ks_buffer_toss` and `ks_buffer_zero` calls in a row.
use libks.Base.{
  ℕ, ◌+◌, ◌^◌, ◌<◌, ◌≡◌, refl, ◌∙◌, inl, inr, List, [], ◌∷◌, ◌++◌, arith, length, take, drop, min,
  Run, done, ◌>>=◌,
}
use libks.Alloc.{Alloc}
use libks.Buffer.{
  Buffer, contents, compact, grow, append, grow_append, write_to, write, read, toss, zero_out,
}
use libks.Buffer.Valid.{IsValid, length-contents, read_lem, toss_lem}
use libks.Buffer.Write.{Refused, write_lem}

pub data Op : Type 0 where
  put : List ℕ → Op
  get : ℕ → Op
  skip : ℕ → Op
  clear : Op

-- The number that a call returns, and the bytes that it hands over.
abbrev pub Reply : Type 0
Reply = ℕ × List ℕ

-- What the queue of the unread bytes allows a call to do, which turns the buffer `b` into `b'`. Only
-- `put` may be refused, when `realloc` refused it.
pub data Served (c : Alloc) (b : Buffer) : Op → Reply → Buffer → Type 0 where
  stored :
      {src : List ℕ} {w : ℕ} {b' : Buffer}
      → w ≡ length (contents b) + length src
      → contents b' ≡ contents b ++ src
      → Served c b (put src) (w, []) b'
  refused :
      {src : List ℕ} {w : ℕ} {b' : Buffer}
      → Refused c b src (w, b')
      → Served c b (put src) (w, []) b'
  fetched :
      {n : ℕ} {r : Reply} {b' : Buffer}
      → r ≡ (min n (length (contents b)), take n (contents b))
      → contents b' ≡ drop n (contents b)
      → Served c b (get n) r b'
  skipped :
      {n w : ℕ} {b' : Buffer}
      → w ≡ length (contents b')
      → contents b' ≡ drop n (contents b)
      → Served c b (skip n) (w, []) b'
  cleared : {b' : Buffer} → contents b' ≡ [] → Served c b clear (0, []) b'

module _ (c : Alloc) where
  pub step : Buffer → Op → Run (ℕ × List ℕ × Buffer)
  step b (put src) = do (w, b') ← write c b src; done (w, [], b')
  step b (get n) = read b n
  step b (skip n) = let (w, b') = toss b n in done (w, [], b')
  step b clear = do b' ← zero_out b; done (0, [], b')

  write-max_len :
      (b : Buffer) (src : List ℕ) {w : ℕ} {b' : Buffer}
      → write c b src ≡ done (w, b')
      → b'.max_len ≡ b.max_len
  unfolding write write_to compact grow grow_append append
  write-max_len b src h = ground arith

  pub run : Buffer → List Op → Run (List Reply × Buffer)
  run b [] = done ([], b)
  run b (o ∷ os) = do
    (w, bytes, b1) ← step b o
    (replies, b2) ← run b1 os
    done ((w, bytes) ∷ replies, b2)

read-max_len :
    (b : Buffer) (n : ℕ) {w : ℕ} {bytes : List ℕ} {b' : Buffer}
    → read b n ≡ done (w, bytes, b')
    → b'.max_len ≡ b.max_len
unfolding read
read-max_len b n h = ground arith

toss-max_len : (b : Buffer) (n : ℕ) → (toss b n).1.max_len ≡ b.max_len
unfolding toss
toss-max_len b n = ground arith

-- The calls in order, each served as the queue allows.
pub data Trace (c : Alloc) : Buffer → List Op → List Reply → Buffer → Type 0 where
  stop : {b : Buffer} → Trace c b [] [] b
  next :
      {b : Buffer} {o : Op} {r : Reply} {b1 : Buffer} {os : List Op} {rs : List Reply} {b2 : Buffer}
      → Served c b o r b1
      → Trace c b1 os rs b2
      → Trace c b (o ∷ os) (r ∷ rs) b2

-- The caller's bytes are an object in memory.
abbrev pub AllSmall : List Op → Type 0
AllSmall [] = Unit {0}
AllSmall (put src ∷ os) = (length src < 2 ^ 63) × AllSmall os
AllSmall (_ ∷ os) = AllSmall os

AllSmall-split : (o : Op) (os : List Op) → AllSmall (o ∷ os) → AllSmall (o ∷ []) × AllSmall os
AllSmall-split (put src) os h = ((h.0, tt), h.1)
AllSmall-split (get n) os h = (tt, h)
AllSmall-split (skip n) os h = (tt, h)
AllSmall-split clear os h = (tt, h)

module _ (c : Alloc) where
  -- A step that is done, leaves a valid buffer without a limit, and is one of the queue's.
  abbrev Stepped : Buffer → Op → Type 0
  Stepped b o =
      (d' : List ℕ) × (r : Reply) × (b' : Buffer) × (step c b o ≡ done (r.0, r.1, b'))
      × IsValid d' b'
      × (b'.max_len ≡ 0)
      × Served c b o r b'

  write-step :
      (b : Buffer) (src : List ℕ) {w : ℕ} {b' : Buffer}
      → write c b src ≡ done (w, b')
      → step c b (put src) ≡ done (w, [], b')
  unfolding step
  write-step b src e = ground arith

  put-Stepped :
      {d : List ℕ} {b : Buffer} (src : List ℕ)
      → IsValid d b
      → b.max_len ≡ 0
      → length src < 2 ^ 63
      → Stepped b (put src)
  put-Stepped {d} {b} src v free h =
      let (d', r, e, v', out) = write_lem c src v (inl free) h in
      (
        d',
        (r.0, []),
        r.1,
        write-step b src e,
        v',
        write-max_len c b src e ∙ free,
        elim out [ inl a ↦ stored (rw (length-contents v) a.0) a.1 | inr f ↦ refused f ],
      )

  read-step : (b : Buffer) (n : ℕ) → step c b (get n) ≡ read b n
  unfolding step
  read-step b n = refl

  get-Stepped : {d : List ℕ} {b : Buffer} (n : ℕ) → IsValid d b → b.max_len ≡ 0 → Stepped b (get n)
  get-Stepped {d} {b} n v free =
      let (b', e, kept, v') = read_lem n v in
      (
        d,
        (min n b.used, take n (contents b)),
        b',
        read-step b n ∙ e,
        v',
        read-max_len b n e ∙ free,
        fetched (rw (length-contents v) refl) kept,
      )

  skip-Stepped :
      {d : List ℕ} {b : Buffer} (n : ℕ) → IsValid d b → b.max_len ≡ 0 → Stepped b (skip n)
  unfolding step
  skip-Stepped {d} {b} n v free =
      let (count, kept, v') = toss_lem n v in
      (d, ((toss b n).0, []), (toss b n).1, refl, v', toss-max_len b n ∙ free, skipped count kept)

  clear-Stepped : {d : List ℕ} {b : Buffer} → IsValid d b → b.max_len ≡ 0 → Stepped b clear
  unfolding step zero_out
  clear-Stepped {d} {b} v free = (
    d,
    (0, []),
    record b { used = 0; actually_used = 0; head = 0 },
    ground arith,
    ground arith,
    free,
    cleared (rw v.holds),
  )

  step-Stepped :
      {d : List ℕ} {b : Buffer} (o : Op)
      → IsValid d b
      → b.max_len ≡ 0
      → AllSmall (o ∷ [])
      → Stepped b o
  step-Stepped (put src) v free h = put-Stepped src v free h.0
  step-Stepped (get n) v free h = get-Stepped n v free
  step-Stepped (skip n) v free h = skip-Stepped n v free
  step-Stepped clear v free h = clear-Stepped v free

  run_next :
      (b : Buffer) (o : Op) (os : List Op) {b1 b2 : Buffer} {r : Reply} {rs : List Reply}
      → step c b o ≡ done (r.0, r.1, b1)
      → run c b1 os ≡ done (rs, b2)
      → run c b (o ∷ os) ≡ done (r ∷ rs, b2)
  unfolding run
  run_next b o os e f = rw (e, f)

  -- Any `ks_buffer_write` (of fewer than 2 ^ 63 bytes), `ks_buffer_read`, `ks_buffer_toss` and
  -- `ks_buffer_zero` calls in a row on a valid buffer without a limit are done without a fault,
  -- leave a valid buffer, and each returns what the queue of the unread bytes allows and leaves the
  -- queue that it should: a write is refused only where the bytes do not fit the block and `realloc`
  -- gave none for it.
  pub run_refines :
      (os : List Op) {d : List ℕ} {b : Buffer}
      → IsValid d b
      → b.max_len ≡ 0
      → AllSmall os
      → (d' : List ℕ) × (rs : List Reply) × (b' : Buffer) × (run c b os ≡ done (rs, b'))
        × IsValid d' b'
        × Trace c b os rs b'
  unfolding run
  run_refines [] {d} {b} v free h = (d, [], b, refl, v, stop)
  run_refines (o ∷ os) {d} {b} v free h =
      let (here, later) = AllSmall-split o os h in
      let (d1, r, b1, e, v1, free1, served) = step-Stepped o v free here in
      let (d2, rs, b2, f, v2, trace) = run_refines os v1 free1 later in
      (d2, r ∷ rs, b2, run_next b o os e f, v2, next served trace)
