-- ===== src/Io/Transfer/Loop.antt =====
-- The loop that the transfers share ends, and counts no more than it was asked for.
use freeos.Prelude.{
  ℕ, zero, suc, ◌+◌, ◌≤◌, ◌<◌, ◌≡◌, refl, ap, List, [], ◌∷◌, Option, none, some, arith, ◌==◌, ltb,
  length, subst, min, Bool-cases, inl, inr,
}
use freeos.Prelude.Errors.{LinuxResult, ok, err}
use freeos.Io.Transfer.{
  Round, again, done, stuck, Ending, ends, blocks, unfinished, try_store, always,
  default_buffer_size, after_fetch, after_store, round, transfer_loop, transfer,
}

-- `Blocked` holds of a chunk whose store does not return.
module _ {S : Type 0} (Blocked : List ℕ → S → Type 0) where
  -- A round that goes on leaves less, and a result counts no more than there was to move.
  abbrev Shrinks : ℕ → ℕ → Round S → Type 0
  Shrinks remaining total (again remaining' total' s) =
      (remaining' < remaining) × (remaining' + total' ≡ remaining + total)
  Shrinks remaining total (done (ok n) s) = n ≤ remaining + total
  Shrinks remaining total (done (err e) s) = Unit {0}
  Shrinks remaining total (stuck bytes s) = Blocked bytes s

  after_store-Shrinks :
      (remaining total read n : ℕ) (s : S)
      → n ≤ read
      → 0 < read
      → read ≤ remaining
      → Shrinks remaining total (after_store remaining total read (ok n, s))
  after_store-Shrinks remaining total read n s bound p q = elim (Bool-cases (ltb n read)) [
    | inl short ↦ rw short (omega arith)
    | inr full ↦ rw full (ground arith, ground arith)
  ]

  -- A call returns an error or counts no more than `n`, or it blocks.
  abbrev pub AtMostOr : ℕ → Ending S → Type 0
  AtMostOr n (ends (ok k) s) = k ≤ n
  AtMostOr n (ends (err e) s) = Unit {0}
  AtMostOr n (blocks bytes s) = Blocked bytes s
  AtMostOr n unfinished = ⊥

  try_store-Shrinks :
      (remaining total : ℕ) (bytes : List ℕ) (s : S) (r : Option (LinuxResult ℕ × S))
      → (r ≡ none → Blocked bytes s)
      → ((n : ℕ) (s' : S) → r ≡ some (ok n, s') → n ≤ length bytes)
      → 0 < length bytes
      → length bytes ≤ remaining
      → Shrinks remaining total (try_store remaining total bytes s r)
  try_store-Shrinks remaining total bytes s none waits bound p q = waits refl
  try_store-Shrinks remaining total bytes s (some (err e, s')) waits bound p q = tt
  try_store-Shrinks remaining total bytes s (some (ok n, s')) waits bound p q =
      after_store-Shrinks remaining total (length bytes) n s' (bound n s' refl) p q

-- A call returns an error or counts no more than `n`.
abbrev pub AtMost : {S : Type 0} → ℕ → Ending S → Type 0
AtMost n e = AtMostOr (λ bytes s. ⊥) n e

-- What is fetched and stored is no more than was asked for and given.
module _ {S : Type 0} (fetch : ℕ → S → LinuxResult (List ℕ) × S)
    (store : List ℕ → S → Option (LinuxResult ℕ × S)) (Blocked : List ℕ → S → Type 0) where
  pub record Bounds : Type 0 where
    pub fetch_le : (n : ℕ) (s : S) (bytes : List ℕ) → (fetch n s).0 ≡ ok bytes → length bytes ≤ n
    pub store_le :
        (bytes : List ℕ) (s s' : S) (n : ℕ) → store bytes s ≡ some (ok n, s') → n ≤ length bytes
    pub store_blocks :
        (x : ℕ) (bytes : List ℕ) (s : S) → store (x ∷ bytes) s ≡ none → Blocked (x ∷ bytes) s

  module _ (b : Bounds) where
    after_fetch-Shrinks :
        (remaining total : ℕ) (r : LinuxResult (List ℕ) × S)
        → ((bytes : List ℕ) → r.0 ≡ ok bytes → length bytes ≤ remaining)
        → Shrinks Blocked remaining total (after_fetch store remaining total r)
    after_fetch-Shrinks remaining total (err e, s) bound = tt
    after_fetch-Shrinks remaining total (ok [], s) bound = omega arith
    after_fetch-Shrinks remaining total (ok (x ∷ bytes), s) bound =
        try_store-Shrinks Blocked remaining total (x ∷ bytes) s (store (x ∷ bytes) s)
          (b.store_blocks x bytes s) (λ n s'. b.store_le (x ∷ bytes) s s' n) (omega arith)
          (bound (x ∷ bytes) refl)

    round-Shrinks :
        (remaining total : ℕ) (s : S)
        → Shrinks Blocked remaining total (round fetch store remaining total s)
    unfolding round
    round-Shrinks remaining total s = elim (Bool-cases (remaining == 0)) [
      | inl over ↦ rw over (omega arith)
      | inr more ↦ rw more (
          after_fetch-Shrinks remaining total (fetch (min default_buffer_size remaining) s)
            (λ bytes e. ground (arith, b.fetch_le (min default_buffer_size remaining) s bytes e)))
    ]

    goes_on :
        (fuel remaining total : ℕ) (r : Round S)
        → Shrinks Blocked remaining total r
        → ((remaining' total' : ℕ) (s' : S)
            → remaining' < remaining
            → AtMostOr Blocked
                (remaining' + total')
                (transfer_loop fetch store fuel remaining' total' s'))
        → AtMostOr Blocked (remaining + total) (elim r [
          | again remaining' total' s' ↦ transfer_loop fetch store fuel remaining' total' s'
          | done res s' ↦ ends res s'
          | stuck bytes s' ↦ blocks bytes s'
        ])
    goes_on fuel remaining total (again remaining' total' s') h next =
        subst (λ n. AtMostOr Blocked n (transfer_loop fetch store fuel remaining' total' s')) h.1
          (next remaining' total' s' h.0)
    goes_on fuel remaining total (done (ok n) s') h next = h
    goes_on fuel remaining total (done (err e) s') h next = tt
    goes_on fuel remaining total (stuck bytes s') h next = h

    transfer_loop-AtMost :
        (fuel remaining total : ℕ) (s : S)
        → remaining < fuel
        → AtMostOr Blocked (remaining + total) (transfer_loop fetch store fuel remaining total s)
    unfolding transfer_loop
    transfer_loop-AtMost zero remaining total s h = absurd (omega arith)
    transfer_loop-AtMost (suc fuel) remaining total s h =
        goes_on fuel remaining total (round fetch store remaining total s)
          (round-Shrinks remaining total s)
          (λ r t s' less. transfer_loop-AtMost fuel r t s' (omega arith))

    pub transfer-AtMost : (len : ℕ) (s : S) → AtMostOr Blocked len (transfer fetch store len s)
    unfolding transfer
    transfer-AtMost len s =
        let p : len + 0 ≡ len = omega arith in
        subst (λ n. AtMostOr Blocked n (transfer_loop fetch store (suc len) len 0 s)) p
          (transfer_loop-AtMost (suc len) len 0 s (omega arith))

-- Stores that return at once.
pub always-Bounds :
    {S : Type 0} (fetch : ℕ → S → LinuxResult (List ℕ) × S) (store : List ℕ → S → LinuxResult ℕ × S)
    → ((n : ℕ) (s : S) (bytes : List ℕ) → (fetch n s).0 ≡ ok bytes → length bytes ≤ n)
    → ((bytes : List ℕ) (s : S) (n : ℕ) → (store bytes s).0 ≡ ok n → n ≤ length bytes)
    → Bounds fetch (always store) (λ bytes s. ⊥)
always-Bounds fetch store fetch_le store_le = record {
  fetch_le = fetch_le;
  store_le =
      λ bytes s s' n e. store_le bytes s n (ap (λ o. elim o [ none ↦ ok 0 | some r ↦ r.0 ]) e);
  store_blocks = λ x bytes s e. cc;
}
