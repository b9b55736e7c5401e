-- ===== src/Pipe/End/Write.antt =====
-- `Pipe::write`: which bytes it sends, when it has sent them all, and when it hangs.
use freeos.Prelude.{
  ℕ, zero, suc, ◌+◌, ◌≤◌, ◌<◌, ◌≡◌, refl, sym, ap, ◌≢◌, ◌⊎◌, inl, inr, ◌∙◌, true, false, List, [],
  ◌∷◌, ◌++◌, some, arith, length, length-append, ◌==◌, Bool-cases, append-nil, append_assoc, All,
}
use freeos.Pipe.Ring.{PipeRingBuffer, write_byte, available_write}
use freeos.Pipe.Ring.Invariant.{
  IsValid, write_byte-IsValid, available_read-write_byte, available_read-add-available_write,
}
use freeos.Pipe.Ring.Queue.{contents, contents-write_byte}
use freeos.Pipe.End.{
  Shared, Schedule, closed, Chunk, complete, partial, write_bytes, WriteRound, writes, again,
  after_chunk, write_round, write_loop,
}

-- From `rest` the bytes `sent` went into the ring, in order, and were counted.
pub record Sends (r : PipeRingBuffer) (rest : List ℕ) (before : ℕ) (left : List ℕ) (after : ℕ)
    (r' : PipeRingBuffer) : Type 0 where
  pub sent : List ℕ
  pub split : rest ≡ sent ++ left
  pub count : after ≡ before + length sent
  pub queued : contents r' ≡ contents r ++ sent
  pub valid : IsValid r'

abbrev pub Wrote : PipeRingBuffer → List ℕ → ℕ → ℕ → Chunk → Type 0
Wrote r rest before n (complete after r') = Sends r rest before [] after r'
Wrote r rest before n (partial left after r') =
    (s : Sends r rest before left after r') × (length s.sent ≡ n)

cons-Wrote :
    (r : PipeRingBuffer) (b : ℕ) (rest : List ℕ) (before n : ℕ)
    → contents (write_byte r b) ≡ contents r ++ (b ∷ [])
    → (c : Chunk) → Wrote (write_byte r b) rest (before + 1) n c
    → Wrote r (b ∷ rest) before (suc n) c
cons-Wrote r b rest before n e (complete after r') s = record {
  sent = b ∷ s.sent;
  split = ap (◌∷◌ b) s.split;
  count = omega (arith, s.count);
  queued = s.queued ∙ ap (λ l. l ++ s.sent) e ∙ append_assoc (contents r) (b ∷ []) s.sent;
  valid = s.valid;
}
cons-Wrote r b rest before n e (partial left after r') (s, h) = (
  record {
    sent = b ∷ s.sent;
    split = ap (◌∷◌ b) s.split;
    count = omega (arith, s.count);
    queued = s.queued ∙ ap (λ l. l ++ s.sent) e ∙ append_assoc (contents r) (b ∷ []) s.sent;
    valid = s.valid;
  },
  ap suc h,
)

space-write_byte :
    {r : PipeRingBuffer} (b n : ℕ)
    → IsValid r
    → suc n ≤ available_write r
    → n ≤ available_write (write_byte r b)
space-write_byte {r} b n v h = omega (
  arith,
  available_read-write_byte b v (omega arith),
  available_read-add-available_write v,
  available_read-add-available_write (write_byte-IsValid b v),
)

pub write_bytes-Wrote :
    (n : ℕ) (rest : List ℕ) (before : ℕ) {r : PipeRingBuffer}
    → IsValid r
    → n ≤ available_write r
    → Wrote r rest before n (write_bytes n rest before r)
unfolding write_bytes
write_bytes-Wrote zero rest before {r} v h = (
  record {
    sent = [];
    split = refl;
    count = omega arith;
    queued = sym (append-nil (contents r));
    valid = v;
  },
  refl,
)
write_bytes-Wrote (suc n) [] before {r} v h = record {
  sent = [];
  split = refl;
  count = omega arith;
  queued = sym (append-nil (contents r));
  valid = v;
}
write_bytes-Wrote (suc n) (b ∷ rest) before {r} v h =
    cons-Wrote r b rest before n (contents-write_byte b v (omega arith))
      (write_bytes n rest (before + 1) (write_byte r b))
      (write_bytes-Wrote n rest (before + 1) (write_byte-IsValid b v) (space-write_byte b n v h))

-- What a round did: it returns with everything sent, or at once if nobody can read; or it goes on,
-- and has filled the ring.
abbrev pub Writes : Shared → List ℕ → ℕ → WriteRound → Type 0
Writes s rest before (writes after s') =
    (s'.strong_count ≡ s.strong_count)
    × (left : List ℕ) × Sends s.ring rest before left after s'.ring
    × ((left ≡ []) ⊎ (closed s ≡ true))
Writes s rest before (again left after s') =
    (s'.strong_count ≡ s.strong_count)
    × (d : Sends s.ring rest before left after s'.ring) × (length d.sent ≡ available_write s.ring)

after_chunk-Writes :
    (s : Shared) (rest : List ℕ) (before : ℕ) (c : Chunk)
    → Wrote s.ring rest before (available_write s.ring) c
    → Writes s rest before (after_chunk s c)
after_chunk-Writes s rest before (complete after r') d = (refl, [], d, inl refl)
after_chunk-Writes s rest before (partial left after r') (d, h) = (refl, d, h)

nothing_sent :
    (s : Shared) (rest : List ℕ) (before : ℕ)
    → IsValid s.ring
    → Sends s.ring rest before rest before s.ring
nothing_sent s rest before v = record {
  sent = [];
  split = refl;
  count = omega arith;
  queued = sym (append-nil (contents s.ring));
  valid = v;
}

-- One round of `write` on a valid ring appends the bytes that it sends to the queue, in their
-- order, counts them, and keeps the ring valid: a round that goes on leaves the rest of the bytes,
-- and one that returns has sent all of them, or the other end is closed.
pub write_round-Writes :
    (s : Shared) (rest : List ℕ) (before : ℕ)
    → IsValid s.ring
    → Writes s rest before (write_round s rest before)
unfolding write_round
write_round-Writes s rest before v = elim (Bool-cases (available_write s.ring == 0)) [
  | inl e ↦ elim (Bool-cases (closed s)) [
    | inl c ↦ rw (e, c) (refl, rest, nothing_sent s rest before v, inr c)
    | inr c ↦ rw (e, c) (refl, nothing_sent s rest before v, ground arith)
  ]
  | inr e ↦ rw e (
      after_chunk-Writes s rest before _
        (write_bytes-Wrote (available_write s.ring) rest before v (omega arith)))
]

-- The other tasks leave a valid ring with space in it.
abbrev pub Drains : (Shared → Shared) → Type 0
Drains others =
    (s : Shared) → IsValid s.ring → IsValid (others s).ring × (available_write (others s).ring ≢ 0)

-- With space in the ring a round returns with everything sent, or has sent at least one byte.
abbrev Progresses : Shared → List ℕ → ℕ → WriteRound → Type 0
Progresses s rest before out =
    ((s' : Shared) × (out ≡ writes (before + length rest) s'))
    ⊎ ((left : List ℕ) × (after : ℕ) × (s' : Shared) × (out ≡ again left after s')
        × (after + length left ≡ before + length rest)
        × (length left < length rest)
        × IsValid s'.ring)

after_chunk-Progresses :
    (s : Shared) (rest : List ℕ) (before : ℕ) (c : Chunk)
    → available_write s.ring ≢ 0
    → Wrote s.ring rest before (available_write s.ring) c
    → Progresses s rest before (after_chunk s c)
after_chunk-Progresses s rest before (complete after r') h d = inl (
  record s { ring = r' },
  ap (λ k. writes k (record s { ring = r' }))
      (omega
        (arith, ap length d.split, length-append d.sent (let nil : List ℕ = [] in nil), d.count)),
)
after_chunk-Progresses s rest before (partial left after r') h (d, n) = inr (
  left,
  after,
  record s { ring = r' },
  refl,
  omega (arith, ap length d.split, length-append d.sent left, d.count),
  omega (arith, ap length d.split, length-append d.sent left),
  d.valid,
)

write_round-Progresses :
    (s : Shared) (rest : List ℕ) (before : ℕ)
    → IsValid s.ring
    → available_write s.ring ≢ 0
    → Progresses s rest before (write_round s rest before)
unfolding write_round
write_round-Progresses s rest before v h =
    let e : (available_write s.ring == 0) ≡ false = ground arith in
    rw e (
      after_chunk-Progresses s rest before _ h
        (write_bytes-Wrote (available_write s.ring) rest before v (omega arith)))

-- If there is space now, and each time the others have run, then `write` returns after at most as
-- many waits as there are bytes, and has sent all of them.
pub write_loop_finishes :
    (later : Schedule) (s : Shared) (rest : List ℕ) (before : ℕ)
    → IsValid s.ring
    → available_write s.ring ≢ 0
    → All Drains later
    → length rest ≤ length later
    → (s' : Shared) × (write_loop later s rest before ≡ some (before + length rest, s'))
unfolding write_loop
write_loop_finishes [] s rest before v h d l = elim (write_round-Progresses s rest before v h) [
  | inl (s', e) ↦ (s', rw (e, write_loop))
  | inr (left, after, s', e, sum, less, valid) ↦ absurd (omega arith)
]
write_loop_finishes (others ∷ later) s rest before v h d l =
    elim (write_round-Progresses s rest before v h) [
      | inl (s', e) ↦ (s', rw (e, write_loop))
      | inr (left, after, s', e, sum, less, valid) ↦
          let (s'', r) =
            write_loop_finishes later (others s') left after (d.0 s' valid).0 (d.0 s' valid).1 d.1
              (omega arith) in
          (s'', rw (e, write_loop, ← sum) r)
    ]
