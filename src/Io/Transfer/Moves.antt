-- ===== src/Io/Transfer/Moves.antt =====
-- What the loops of `sys_copy_file_range` and `sys_splice` move from one stream to the other.
use freeos.Prelude.{
  ℕ, zero, suc, ◌+◌, ◌≤◌, ◌≡◌, refl, sym, ap, ◌∙◌, List, [], ◌∷◌, ◌++◌, arith, ◌==◌, ltb, length,
  length-append, length-take, take-append-drop, take_all, take, drop, min, Bool-cases, inl, inr,
  append-nil, append_assoc,
}
use freeos.Prelude.Errors.{LinuxResult, ok, err}
use freeos.Io.Transfer.{
  Round, again, done, stuck, Ending, ends, blocks, unfinished, always, default_buffer_size,
  after_fetch, after_store, round, transfer_loop, transfer,
}

-- Two streams: what is still to come from the one, and what the other has taken.
module _ {S : Type 0} (source sink : S → List ℕ) where
  -- What a fetch and a store do to the streams.
  abbrev pub Fetched : S → LinuxResult (List ℕ) × S → Type 0
  Fetched s (ok bytes, s') = (source s ≡ bytes ++ source s') × (sink s' ≡ sink s)
  Fetched s (err e, s') = (source s' ≡ source s) × (sink s' ≡ sink s)

  abbrev pub Stored : List ℕ → S → LinuxResult ℕ × S → Type 0
  Stored bytes s (ok n, s') =
      (n ≤ length bytes) × (sink s' ≡ sink s ++ take n bytes) × (source s' ≡ source s)
  Stored bytes s (err e, s') = (sink s' ≡ sink s) × (source s' ≡ source s)

  abbrev Counted : ℕ → LinuxResult ℕ → List ℕ → Type 0
  Counted total (ok n) moved = n ≡ total + length moved
  Counted total (err e) moved = Unit {0}

  -- From `s` to `s'` the bytes `moved` went over, and `lost` were fetched and not stored.
  pub record Moved (total : ℕ) (s s' : S) (r : LinuxResult ℕ) : Type 0 where
    pub moved : List ℕ
    pub lost : List ℕ
    pub fetched : source s ≡ moved ++ (lost ++ source s')
    pub stored : sink s' ≡ sink s ++ moved
    pub counted : Counted total r moved

  -- A round that goes on has moved `moved`, and lost nothing.
  abbrev RoundMoved : ℕ → S → Round S → Type 0
  RoundMoved total s (again remaining' total' s') =
      (moved : List ℕ) × (source s ≡ moved ++ source s')
      × (sink s' ≡ sink s ++ moved)
      × (total' ≡ total + length moved)
  RoundMoved total s (done r s') = Moved total s s' r
  RoundMoved total s (stuck bytes s') = Unit {0}

  stop_lem :
      (total : ℕ) (s s' : S) (r : LinuxResult ℕ)
      → source s' ≡ source s
      → sink s' ≡ sink s
      → Counted total r []
      → Moved total s s' r
  stop_lem total s s' r p q c = record {
    moved = [];
    lost = [];
    fetched = sym p;
    stored = q ∙ sym (append-nil (sink s));
    counted = c;
  }

  after_store-Moved :
      (remaining total : ℕ) (bytes : List ℕ) (s s1 : S) (r : LinuxResult ℕ × S)
      → source s ≡ bytes ++ source s1
      → sink s1 ≡ sink s
      → Stored bytes s1 r
      → RoundMoved total s (after_store remaining total (length bytes) r)
  after_store-Moved remaining total bytes s s1 (err e, s2) came same st = record {
    moved = [];
    lost = bytes;
    fetched = came ∙ ap (λ t. bytes ++ t) (sym st.1);
    stored = st.0 ∙ same ∙ sym (append-nil (sink s));
    counted = tt;
  }
  after_store-Moved remaining total bytes s s1 (ok n, s2) came same st =
      elim (Bool-cases (ltb n (length bytes))) [
        | inl short ↦ rw short (record {
          moved = take n bytes;
          lost = drop n bytes;
          fetched =
              came
              ∙ ap (λ t. bytes ++ t) (sym st.2)
              ∙ ap (λ t. t ++ source s2) (sym (take-append-drop n bytes))
              ∙ append_assoc (take n bytes) (drop n bytes) (source s2);
          stored = st.1 ∙ ap (λ t. t ++ take n bytes) same;
          counted = ap (λ k. total + k) (sym (length-take n bytes st.0));
        })
        | inr full ↦ rw full (
          bytes,
          came ∙ ap (λ t. bytes ++ t) (sym st.2),
          st.1
              ∙ ap (λ t. t ++ take n bytes) same
              ∙ ap (λ t. sink s ++ t) (take_all n bytes (ground arith)),
          (let p : n ≤ length bytes = st.0 in ground arith),
        )
      ]

  -- What a loop that is over has moved.
  abbrev pub Moves : ℕ → S → Ending S → Type 0
  Moves total s (ends r s') = Moved total s s' r
  Moves total s (blocks bytes s') = Unit {0}
  Moves total s unfinished = Unit {0}

module _ {S : Type 0} (fetch : ℕ → S → LinuxResult (List ℕ) × S)
    (store : List ℕ → S → LinuxResult ℕ × S) (source sink : S → List ℕ) where
  pub record Streams : Type 0 where
    pub fetches : (n : ℕ) (s : S) → Fetched source sink s (fetch n s)
    pub stores : (bytes : List ℕ) (s : S) → Stored source sink bytes s (store bytes s)

  module _ (t : Streams) where
    after_fetch-Moved :
        (remaining total : ℕ) (s : S) (r : LinuxResult (List ℕ) × S)
        → Fetched source sink s r
        → RoundMoved source sink total s (after_fetch (always store) remaining total r)
    after_fetch-Moved remaining total s (err e, s1) h =
        stop_lem source sink total s s1 (err e) h.0 h.1 tt
    after_fetch-Moved remaining total s (ok [], s1) h =
        stop_lem source sink total s s1 (ok total) (sym h.0) h.1 (omega arith)
    after_fetch-Moved remaining total s (ok (b ∷ bytes), s1) h =
        after_store-Moved source sink remaining total (b ∷ bytes) s s1 (store (b ∷ bytes) s1) h.0
          h.1 (t.stores (b ∷ bytes) s1)

    round-Moved :
        (remaining total : ℕ) (s : S)
        → RoundMoved source sink total s (round fetch (always store) remaining total s)
    unfolding round
    round-Moved remaining total s = elim (Bool-cases (remaining == 0)) [
      | inl over ↦ rw over (stop_lem source sink total s s (ok total) refl refl (omega arith))
      | inr more ↦
          let n = min default_buffer_size remaining in
          rw more (after_fetch-Moved remaining total s (fetch n s) (t.fetches n s))
    ]

    counted_after :
        (total total' : ℕ) (r : LinuxResult ℕ) (a c : List ℕ)
        → total' ≡ total + length a
        → Counted source sink total' r c
        → Counted source sink total r (a ++ c)
    counted_after total total' (ok n) a c e h = omega (arith, length-append a c)
    counted_after total total' (err x) a c e h = tt

    then-Moved :
        (total total' : ℕ) (s s1 s2 : S) (r : LinuxResult ℕ) (a : List ℕ)
        → source s ≡ a ++ source s1
        → sink s1 ≡ sink s ++ a
        → total' ≡ total + length a
        → Moved source sink total' s1 s2 r
        → Moved source sink total s s2 r
    then-Moved total total' s s1 s2 r a p q c m = record {
      moved = a ++ m.moved;
      lost = m.lost;
      fetched = p ∙ ap (λ x. a ++ x) m.fetched ∙ sym (append_assoc a m.moved (m.lost ++ source s2));
      stored = m.stored ∙ ap (λ x. x ++ m.moved) q ∙ append_assoc (sink s) a m.moved;
      counted = counted_after total total' r a m.moved c m.counted;
    }

    goes_on_moved :
        (fuel total : ℕ) (s : S) (r : Round S)
        → RoundMoved source sink total s r
        → ((remaining' total' : ℕ) (s' : S)
            → Moves source sink total' s'
                (transfer_loop fetch (always store) fuel remaining' total' s'))
        → Moves source sink total s (elim r [
          | again remaining' total' s' ↦
              transfer_loop fetch (always store) fuel remaining' total' s'
          | done res s' ↦ ends res s'
          | stuck bytes s' ↦ blocks bytes s'
        ])
    goes_on_moved fuel total s (again remaining' total' s1) h next =
        joined (transfer_loop fetch (always store) fuel remaining' total' s1)
          (next remaining' total' s1)
      where
        joined : (o : Ending S) → Moves source sink total' s1 o → Moves source sink total s o
        joined (blocks bytes s2) m = tt
        joined unfinished m = tt
        joined (ends r s2) m = then-Moved total total' s s1 s2 r h.0 h.1 h.2 h.3 m
    goes_on_moved fuel total s (done r s') h next = h
    goes_on_moved fuel total s (stuck bytes s') h next = h

    transfer_loop-Moves :
        (fuel remaining total : ℕ) (s : S)
        → Moves source sink total s (transfer_loop fetch (always store) fuel remaining total s)
    unfolding transfer_loop
    transfer_loop-Moves zero remaining total s = tt
    transfer_loop-Moves (suc fuel) remaining total s =
        goes_on_moved fuel total s (round fetch (always store) remaining total s)
          (round-Moved remaining total s) (transfer_loop-Moves fuel)

    pub transfer-Moves :
        (len : ℕ) (s : S) → Moves source sink 0 s (transfer fetch (always store) len s)
    unfolding transfer
    transfer-Moves len s = transfer_loop-Moves (suc len) len 0 s
