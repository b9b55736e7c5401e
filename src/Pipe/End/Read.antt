-- ===== src/Pipe/End/Read.antt =====
-- `Pipe::read`: which bytes it returns, and when it returns at all.
use freeos.Prelude.{
  ℕ, zero, suc, ◌≤◌, ◌<◌, min, ◌≡◌, refl, ap, ◌≢◌, ◌⊎◌, ◌↔◌, inl, inr, true, false, List, [], ◌∷◌,
  ◌++◌, none, arith, length, ◌==◌, Bool-cases,
}
use freeos.Pipe.Ring.{PipeRingBuffer, read_byte, available_read}
use freeos.Pipe.Ring.Invariant.{IsValid, read_byte-IsValid, available_read-read_byte}
use freeos.Pipe.Ring.Queue.{contents, contents-read_byte}
use freeos.Pipe.End.{
  Shared, Schedule, closed, read_bytes, ReadRound, reads, waits, delivered, read_round, read_loop,
}

-- The bytes that leave the ring are the first of its queue, in order.
pub record TakesFirst (r : PipeRingBuffer) (n : ℕ) (out : List ℕ × PipeRingBuffer) : Type 0 where
  pub valid : IsValid out.1
  pub count : length out.0 ≡ n
  pub first : contents r ≡ out.0 ++ contents out.1

read_bytes-TakesFirst :
    (n : ℕ) {r : PipeRingBuffer}
    → IsValid r
    → n ≤ available_read r
    → TakesFirst r n (read_bytes n r)
unfolding read_bytes
read_bytes-TakesFirst zero v h = record { valid = v; count = refl; first = refl }
read_bytes-TakesFirst (suc n) {r} v h =
    let rest : TakesFirst (read_byte r).1 n (read_bytes n (read_byte r).1) =
      read_bytes-TakesFirst n (read_byte-IsValid v)
        (omega (arith, available_read-read_byte v (omega arith))) in
    record {
      valid = rest.valid;
      count = ap suc rest.count;
      first = cc (contents-read_byte v (omega arith), rest.first);
    }

-- The bytes of a round that returns, and the state that it leaves.
abbrev pub Reads : Shared → ℕ → ReadRound → Type 0
Reads s len (reads bytes s') =
    IsValid s'.ring
    × (s'.strong_count ≡ s.strong_count)
    × (contents s.ring ≡ bytes ++ contents s'.ring)
    × (length bytes ≡ min (available_read s.ring) len)
    × ((bytes ≡ []) → 0 < len → closed s ≡ true)
Reads s len waits = (min (available_read s.ring) len ≡ 0) × (closed s ≡ false)

delivered-Reads :
    (s : Shared) (len : ℕ) (out : List ℕ × PipeRingBuffer)
    → min (available_read s.ring) len ≢ 0
    → TakesFirst s.ring (min (available_read s.ring) len) out
    → Reads s len (delivered s out)
delivered-Reads s len ([], r) h t =
    (t.valid, refl, t.first, t.count, λ _ _. absurd (h (omega (arith, t.count))))
delivered-Reads s len (b ∷ bs, r) h t = (t.valid, refl, t.first, t.count, λ e _. cc)

-- One round of `read` on a valid ring that returns has taken the first bytes of the queue, as many
-- as are there and fit the buffer, and leaves the others and a valid ring; it returns none into a
-- nonempty buffer only when the other end is closed. It waits only when there is nothing to take
-- and the other end is open.
pub read_round-Reads : (s : Shared) (len : ℕ) → IsValid s.ring → Reads s len (read_round s len)
unfolding read_round
read_round-Reads s len v = elim (Bool-cases (min (available_read s.ring) len == 0)) [
  | inl e ↦ elim (Bool-cases (closed s)) [
    | inl c ↦ rw (e, c) (v, refl, refl, ground arith, λ _ _. c)
    | inr c ↦ rw (e, c) (ground arith, c)
  ]
  | inr e ↦ rw e (delivered-Reads s len _ (ground arith) (read_bytes-TakesFirst _ v (omega arith)))
]

-- The state at which a reader returns: there is a byte, or nobody holds the other end.
abbrev IsReady : Shared → Type 0
IsReady s = (0 < available_read s.ring) ⊎ (closed s ≡ true)

-- The schedule makes the state ready, now or after some of its entries.
abbrev pub Wakes : Schedule → Shared → Type 0
Wakes [] s = IsReady s
Wakes (others ∷ later) s = IsReady s ⊎ Wakes later (others s)

not-IsReady :
    (s : Shared) (len : ℕ)
    → 0 < len
    → (min (available_read s.ring) len == 0) ≡ true
    → closed s ≡ false
    → ¬ IsReady s
not-IsReady s len h e c (inl p) = ground arith
not-IsReady s len h e c (inr p) = cc

read_round_cases :
    (s : Shared) (len : ℕ)
    → 0 < len
    → (IsReady s × (bytes : List ℕ) × (s' : Shared) × (read_round s len ≡ reads bytes s'))
      ⊎ ((¬ IsReady s) × (read_round s len ≡ waits))
unfolding read_round
read_round_cases s len h = elim (Bool-cases (min (available_read s.ring) len == 0)) [
  | inl e ↦ elim (Bool-cases (closed s)) [
    | inl c ↦ inl (inr c, [], s, rw (e, c))
    | inr c ↦ inr (not-IsReady s len h e c, rw (e, c))
  ]
  | inr e ↦
      let out : List ℕ × PipeRingBuffer = read_bytes (min (available_read s.ring) len) s.ring in
      inl (inl (ground arith), out.0, record s { ring = out.1 }, rw e)
]

-- A blocking read into a nonempty buffer returns exactly when the other tasks make the pipe ready:
-- they put a byte into it, or drop the other end.
pub read_loop_returns :
    (later : Schedule) (s : Shared) (len : ℕ)
    → 0 < len
    → (read_loop later s len ≢ none) ↔ Wakes later s
unfolding read_loop
read_loop_returns [] s len h = elim (read_round_cases s len h) [
  | inl (ready, bytes, s', e) ↦ ((λ _. ready), λ _. rw (e, read_loop) (λ x. cc))
  | inr (idle, e) ↦ ((λ x. absurd (x (rw (e, read_loop)))), λ w. absurd (idle w))
]
read_loop_returns (others ∷ later) s len h = elim (read_round_cases s len h) [
  | inl (ready, bytes, s', e) ↦ ((λ _. inl ready), λ _. rw (e, read_loop) (λ x. cc))
  | inr (idle, e) ↦
      let rest = read_loop_returns later (others s) len h in
      ((λ x. inr (rest.0 (rw (e, read_loop) at x))), λ w. rw (e, read_loop) (rest.1 (wakes idle w)))
]
  where
    wakes : ¬ IsReady s → Wakes (others ∷ later) s → Wakes later (others s)
    wakes idle (inl w) = absurd (idle w)
    wakes idle (inr w) = w
