-- ===== src/Io/Transfer/Spliced.antt =====
-- `splice_pipe_to_file` into a file that is written at offsets.
use freeos.Prelude.{
  ℕ, zero, suc, ◌+◌, ◌%◌, ◌^◌, ◌<◌, ◌≤◌, ◌≡◌, refl, ap, sym, ◌∙◌, List, [], ◌∷◌, ◌++◌, arith, ◌==◌,
  ==_self, ltb, length, length-append, length-take, take, drop, take-append-drop, take_all, min,
  Bool-cases, inl, inr, append_assoc,
}
use freeos.Prelude.Errors.{LinuxResult, ok, err}
use freeos.Prelude.Words.{usize_mod}
use freeos.Io.{Files, IsBounded}
use freeos.Io.Transfer.{
  Memory, Round, again, done, stuck, Ending, ends, blocks, unfinished, always, try_store,
  after_store, after_fetch, round, transfer_loop, transfer, default_buffer_size, pipe_fetch,
  splice_pipe_to_file, write_cell, moved_write, kept,
}
use freeos.Io.Transfer.Loop.{AtMost}
use freeos.Io.Transfer.Ends.{splice_pipe_to_file-AtMost}
use freeos.Io.Transfer.Streams.{IsSource}
use freeos.Io.Transfer.Moves.{Fetched}
use freeos.Io.Transfer.Placed.{place, length-place, place-nil, place-place}

-- `source` is what is to come from the pipe, and `content` what the file holds.
module _ (f : Files) (source content : f.State → List ℕ) where
  open f use {State, File, read, write_at, available_data}

  -- The bytes that a write took are in the file at the offset, the rest of the file is as it was, and
  -- the file is no larger than an `i64` can say.
  abbrev WrittenAt : ℕ → List ℕ → State → LinuxResult ℕ × State → Type 0
  WrittenAt o bytes s (ok n, s') =
      (n ≤ length bytes)
      × (content s' ≡ place o (take n bytes) (content s))
      × (source s' ≡ source s)
      × (length (content s') < 2 ^ 63)
  WrittenAt o bytes s (err e, s') = (content s' ≡ content s) × (source s' ≡ source s)

  -- A regular file: a write at an offset in it, or at its end.
  pub record IsRegular (h : File) : Type 0 where
    pub writes_at :
        (o : ℕ) (bytes : List ℕ) (s : State)
        → o ≤ length (content s)
        → WrittenAt o bytes s (write_at h o bytes s)

  -- From the offset `o` on, the file holds the bytes moved, and the offset behind `p` is that of their end.
  pub record At (p o : ℕ) (m0 m : Memory f) (moved : List ℕ) : Type 0 where
    pub content_at : content m.files ≡ place o moved (content m0.files)
    pub cell_at : m.cell p ≡ ok (o + length moved)

  abbrev Counts : LinuxResult ℕ → List ℕ → Type 0
  Counts (ok n) moved = n ≡ length moved
  Counts (err e) moved = Unit {0}

  -- `moved` came out of the pipe and is in the file; `lost` came out of the pipe and is not.
  pub record Spliced (p o : ℕ) (m0 m : Memory f) (r : LinuxResult ℕ) : Type 0 where
    pub moved : List ℕ
    pub lost : List ℕ
    pub fetched : source m0.files ≡ moved ++ (lost ++ source m.files)
    pub placed : At p o m0 m moved
    pub counted : Counts r moved

  -- How a call that ends has spliced.
  abbrev pub Splices : ℕ → ℕ → Memory f → Ending (Memory f) → Type 0
  Splices p o m0 (ends r m) = Spliced p o m0 m r
  Splices p o m0 (blocks bytes m) = ⊥
  Splices p o m0 unfinished = Unit {0}

  module _ (i h : File) (is_source : IsSource f source content i) (regular : IsRegular h) (p o : ℕ)
      (m0 : Memory f) (inside : o ≤ length (content m0.files)) where
    -- All that was taken from the pipe is in the file.
    record Progress (total : ℕ) (m : Memory f) : Type 0 where
      moved : List ℕ
      came : source m0.files ≡ moved ++ source m.files
      placed : At p o m0 m moved
      total_is : total ≡ length moved

    abbrev RoundSpliced : Round (Memory f) → Type 0
    RoundSpliced (again remaining total m) = Progress total m
    RoundSpliced (done r m) = Spliced p o m0 m r
    RoundSpliced (stuck bytes m) = ⊥

    -- A chunk was taken from the pipe, and nothing else happened.
    abbrev Taken : Memory f → LinuxResult (List ℕ) × Memory f → Type 0
    Taken m (ok bytes, m') =
        (source m.files ≡ bytes ++ source m'.files)
        × (content m'.files ≡ content m.files)
        × (m'.cell p ≡ m.cell p)
    Taken m (err e, m') =
        (source m'.files ≡ source m.files)
        × (content m'.files ≡ content m.files)
        × (m'.cell p ≡ m.cell p)

    kept-Taken :
        (m : Memory f) (r : LinuxResult (List ℕ) × State)
        → Fetched source content m.files r
        → Taken m (kept f m r)
    kept-Taken m (ok bytes, s) t = (t.0, t.1, refl)
    kept-Taken m (err e, s) t = (t.0, t.1, refl)

    pipe_fetch-Taken : (n : ℕ) (m : Memory f) → Taken m (pipe_fetch f i n m)
    unfolding pipe_fetch
    pipe_fetch-Taken n m = elim (Bool-cases (available_data i m.files == 0)) [
      | inl empty ↦ rw empty (refl, refl, refl)
      | inr some_data ↦
          let k = min n (available_data i m.files) in
          rw some_data (kept-Taken m (read i k m.files) (is_source.reads k m.files))
    ]

    -- Nothing more was stored.
    stop_lem :
        (total : ℕ) (m m' : Memory f) (lost : List ℕ) (r : LinuxResult ℕ) (pr : Progress total m)
        → source m.files ≡ lost ++ source m'.files
        → content m'.files ≡ content m.files
        → m'.cell p ≡ m.cell p
        → Counts r pr.moved
        → Spliced p o m0 m' r
    stop_lem total m m' lost r pr s c d count = record {
      moved = pr.moved;
      lost = lost;
      fetched = pr.came ∙ ap (λ t. pr.moved ++ t) s;
      placed = record { content_at = c ∙ pr.placed.content_at; cell_at = d ∙ pr.placed.cell_at };
      counted = count;
    }

    -- The next chunk goes behind the bytes moved.
    next_at :
        (moved chunk : List ℕ) (m m' : Memory f)
        → content m.files ≡ place o moved (content m0.files)
        → content m'.files ≡ place (o + length moved) chunk (content m.files)
        → m'.cell p ≡ ok ((o + length moved + length chunk) % usize_mod)
        → length (content m'.files) < 2 ^ 63
        → At p o m0 m' (moved ++ chunk)
    next_at moved chunk m m' before now cell small =
        let both : content m'.files ≡ place o (moved ++ chunk) (content m0.files) =
          now
          ∙ ap (place (o + length moved) chunk) before
          ∙ place-place o moved chunk (content m0.files) inside in
        let fits : o + length (moved ++ chunk) < 2 ^ 63 = omega (
          arith,
          length-place o (moved ++ chunk) (content m0.files) inside,
          ap length both,
          small,
        ) in
        record {
          content_at = both;
          cell_at = cell ∙ ap ok (omega (arith, length-append moved chunk));
        }

    module _ (remaining total : ℕ) (bytes : List ℕ) (m m1 : Memory f) (pr : Progress total m)
        (came : source m.files ≡ bytes ++ source m1.files)
        (same : content m1.files ≡ content m.files) (cell : m1.cell p ≡ m.cell p) where
      abbrev offset : ℕ
      offset = o + length pr.moved

      wrote :
          (r : LinuxResult ℕ × State)
          → WrittenAt offset bytes m1.files r
          → RoundSpliced (after_store remaining total (length bytes) (moved_write f p offset m1 r))
      wrote (err e, s) w =
          stop_lem total m (record m1 { files = s }) bytes (err e) pr
            (came ∙ ap (λ t. bytes ++ t) (sym w.1)) (w.0 ∙ same) cell tt
      wrote (ok n, s) w =
          let m2 = (moved_write f p offset m1 (ok n, s)).1 in
          let given : source m.files ≡ bytes ++ source s = came ∙ ap (λ t. bytes ++ t) (sym w.2) in
          let taken : length (take n bytes) ≡ n = length-take n bytes w.0 in
          let next : At p o m0 m2 (pr.moved ++ take n bytes) =
            next_at pr.moved (take n bytes) m m2 pr.placed.content_at
              (w.1 ∙ ap (place offset (take n bytes)) same)
              (rw (==_self p) (ap (λ k. ok ((offset + k) % usize_mod)) (sym taken))) w.3 in
          let count : total + n ≡ length (pr.moved ++ take n bytes) =
            omega (arith, pr.total_is, length-append pr.moved (take n bytes), taken) in
          elim (Bool-cases (ltb n (length bytes))) [
            | inl short ↦ rw short (record {
              moved = pr.moved ++ take n bytes;
              lost = drop n bytes;
              fetched =
                  pr.came
                  ∙ ap (λ t. pr.moved ++ t)
                      (given
                        ∙ ap (λ t. t ++ source s) (sym (take-append-drop n bytes))
                        ∙ append_assoc (take n bytes) (drop n bytes) (source s))
                  ∙ sym (append_assoc pr.moved (take n bytes) (drop n bytes ++ source s));
              placed = next;
              counted = count;
            })
            | inr full ↦ rw full (record {
              moved = pr.moved ++ take n bytes;
              came =
                  pr.came
                  ∙ ap (λ t. pr.moved ++ t)
                      (given ∙ ap (λ t. t ++ source s) (sym (take_all n bytes (ground arith))))
                  ∙ sym (append_assoc pr.moved (take n bytes) (source s));
              placed = next;
              total_is = count;
            })
          ]

      store_lem :
          RoundSpliced (try_store remaining total bytes m1 (always (write_cell f h p) bytes m1))
      unfolding write_cell
      store_lem =
          let here : m1.cell p ≡ ok offset = cell ∙ pr.placed.cell_at in
          rw here (
            wrote (write_at h offset bytes m1.files) (
              regular.writes_at offset bytes m1.files (
                omega (
                  arith,
                  length-place o pr.moved (content m0.files) inside,
                  ap length (same ∙ pr.placed.content_at),
                ))))

    fetched_lem :
        (remaining total : ℕ) (m : Memory f) (r : LinuxResult (List ℕ) × Memory f)
        → Progress total m
        → Taken m r
        → RoundSpliced (after_fetch (always (write_cell f h p)) remaining total r)
    fetched_lem remaining total m (err e, m1) pr t =
        stop_lem total m m1 [] (err e) pr (sym t.0) t.1 t.2 tt
    fetched_lem remaining total m (ok [], m1) pr t =
        stop_lem total m m1 [] (ok total) pr t.0 t.1 t.2 pr.total_is
    fetched_lem remaining total m (ok (b ∷ bytes), m1) pr t =
        store_lem remaining total (b ∷ bytes) m m1 pr t.0 t.1 t.2

    round_lem :
        (remaining total : ℕ) (m : Memory f)
        → Progress total m
        → RoundSpliced (round (pipe_fetch f i) (always (write_cell f h p)) remaining total m)
    unfolding round
    round_lem remaining total m pr = elim (Bool-cases (remaining == 0)) [
      | inl over ↦ rw over (stop_lem total m m [] (ok total) pr refl refl refl pr.total_is)
      | inr more ↦
          let n = min default_buffer_size remaining in
          rw more (fetched_lem remaining total m (pipe_fetch f i n m) pr (pipe_fetch-Taken n m))
    ]

    goes_on_lem :
        (fuel : ℕ) (r : Round (Memory f))
        → RoundSpliced r
        → ((remaining total : ℕ) (m : Memory f)
            → Progress total m
            → Splices p o m0
                (transfer_loop (pipe_fetch f i) (always (write_cell f h p)) fuel remaining total m))
        → Splices p o m0 (elim r [
          | again remaining' total' s' ↦
              transfer_loop (pipe_fetch f i) (always (write_cell f h p)) fuel remaining' total' s'
          | done res s' ↦ ends res s'
          | stuck bytes s' ↦ blocks bytes s'
        ])
    goes_on_lem fuel (again remaining total m) pr next = next remaining total m pr
    goes_on_lem fuel (done r m) spliced next = spliced
    goes_on_lem fuel (stuck bytes m) bad next = bad

    loop_lem :
        (fuel remaining total : ℕ) (m : Memory f)
        → Progress total m
        → Splices p o m0
            (transfer_loop (pipe_fetch f i) (always (write_cell f h p)) fuel remaining total m)
    unfolding transfer_loop
    loop_lem zero remaining total m pr = tt
    loop_lem (suc fuel) remaining total m pr =
        goes_on_lem fuel (round (pipe_fetch f i) (always (write_cell f h p)) remaining total m)
          (round_lem remaining total m pr) (loop_lem fuel)

    -- `splice_pipe_to_file` from a pipe that is read in order into a regular file, in which a write puts
    -- bytes at an offset, with an offset in the file or at its end, comes to an end and counts at most `len`
    -- bytes. The first bytes that were to come from the pipe are then in the file from that offset on, in
    -- order, and the rest of the file is as it was; the offset in user memory is behind them, and without
    -- an error their number is the result. The bytes behind them that were taken from the pipe, and that
    -- the file did not take, are lost.
    pub splice_pipe_to_file-Splices :
        (b : IsBounded f) (len : ℕ)
        → m0.cell p ≡ ok o
        → let result = splice_pipe_to_file f i h p len m0 in
          AtMost len result × Splices p o m0 result
    unfolding splice_pipe_to_file transfer
    splice_pipe_to_file-Splices b len at = (
      splice_pipe_to_file-AtMost f b i h p len m0,
      loop_lem (suc len) len 0 m0 (record {
        moved = [];
        came = refl;
        placed = record {
          content_at = sym (place-nil o (content m0.files));
          cell_at = at ∙ ap ok (omega arith);
        };
        total_is = refl;
      }),
    )
