-- ===== src/Io/Vector/Written.antt =====
-- What `sys_writev` writes.
use freeos.Prelude.{
  ℕ, ◌+◌, ◌≤◌, ◌≡◌, refl, ap, sym, ◌∙◌, List, [], ◌∷◌, ◌++◌, arith, ◌==◌, ltb, leb, length,
  length-append, take, take_all, take-append_left, take-append_right, append-nil, append_assoc,
  Bool-cases, inl, inr, true, All,
}
use freeos.Prelude.Errors.{LinuxResult, ok, err}
use freeos.Io.{Files, WriteBuf}
use freeos.Io.Vector.{Next, go_on, returns, after_write, write_buf, writev_loop, sys_writev}

-- The bytes of a buffer, and of all of them.
abbrev bytes_of : LinuxResult (List ℕ) → List ℕ
bytes_of (ok bytes) = bytes
bytes_of (err e) = []

abbrev pub contents : List WriteBuf → List ℕ
contents [] = []
contents (buf ∷ bufs) = bytes_of buf.access ++ contents bufs

-- Every buffer can be read, and has its length.
abbrev pub IsReadable : List WriteBuf → Type 0
IsReadable =
    All (λ buf. buf.access ≡ ok (bytes_of buf.access) × (length (bytes_of buf.access) ≡ buf.len))

module _ (f : Files) (sink : f.State → List ℕ) where
  open f use {State, File, get_file_like, write}

  -- A write takes the first bytes of what it is given; a write that fails takes none.
  abbrev pub Takes : List ℕ → State → LinuxResult ℕ × State → Type 0
  Takes bytes s (ok n, s') = (n ≤ length bytes) × (sink s' ≡ sink s ++ take n bytes)
  Takes bytes s (err e, s') = sink s' ≡ sink s

  abbrev Counts : ℕ → ℕ → LinuxResult ℕ → Type 0
  Counts ret n (ok k) = k ≡ ret + n
  Counts ret n (err e) = Unit {0}

  -- The file has taken the first bytes of `bytes`; a result counts them.
  abbrev pub Wrote : ℕ → List ℕ → State → LinuxResult ℕ × State → Type 0
  Wrote ret bytes s (r, s') =
      (n : ℕ) × (n ≤ length bytes) × (sink s' ≡ sink s ++ take n bytes) × Counts ret n r

  module _ (fd : ℕ) (h : File) (descriptor : (s : State) → get_file_like fd s ≡ ok h)
      (takes : (bytes : List ℕ) (s : State) → Takes bytes s (write h bytes s)) where
    abbrev StepWrote : ℕ → List ℕ → List ℕ → State → Next State → Type 0
    StepWrote ret bytes rest s (go_on ret' s') =
        (ret' ≡ ret + length bytes) × (sink s' ≡ sink s ++ bytes)
    StepWrote ret bytes rest s (returns r s') = Wrote ret (bytes ++ rest) s (r, s')

    after_write-StepWrote :
        (ret : ℕ) (bytes rest : List ℕ) (s : State) (r : LinuxResult ℕ × State)
        → Takes bytes s r
        → StepWrote ret bytes rest s (after_write ret (length bytes) r)
    after_write-StepWrote ret bytes rest s (err e, s') t =
        (0, omega arith, t ∙ sym (append-nil (sink s)), tt)
    after_write-StepWrote ret bytes rest s (ok n, s') t = elim (Bool-cases (ltb n (length bytes))) [
      | inl short ↦ rw short (
        n,
        omega (arith, t.0, length-append bytes rest),
        t.1 ∙ ap (λ x. sink s ++ x) (sym (take-append_left n bytes rest t.0)),
        refl,
      )
      | inr full ↦
          let p : n ≡ length bytes = ground (arith, t.0) in
          rw full
            (ap (λ k. ret + k) p, t.1 ∙ ap (λ x. sink s ++ x) (take_all n bytes (omega arith)))
    ]

    then-Wrote :
        (ret ret' : ℕ) (bytes rest : List ℕ) (s s' : State) (r : LinuxResult ℕ × State)
        → ret' ≡ ret + length bytes
        → sink s' ≡ sink s ++ bytes
        → Wrote ret' rest s' r
        → Wrote ret (bytes ++ rest) s r
    then-Wrote ret ret' bytes rest s s' (ok k, s2) e p w = (
      length bytes + w.0,
      omega (arith, w.1, length-append bytes rest),
      w.2
          ∙ ap (λ x. x ++ take w.0 rest) p
          ∙ append_assoc (sink s) bytes (take w.0 rest)
          ∙ ap (λ x. sink s ++ x) (sym (take-append_right w.0 bytes rest)),
      omega (arith, w.3),
    )
    then-Wrote ret ret' bytes rest s s' (err x, s2) e p w = (
      length bytes + w.0,
      omega (arith, w.1, length-append bytes rest),
      w.2
          ∙ ap (λ x. x ++ take w.0 rest) p
          ∙ append_assoc (sink s) bytes (take w.0 rest)
          ∙ ap (λ x. sink s ++ x) (sym (take-append_right w.0 bytes rest)),
      tt,
    )

    no_bytes : (bytes : List ℕ) → length bytes ≡ 0 → bytes ≡ []
    no_bytes [] e = refl
    no_bytes (x ∷ bytes) e = absurd (omega arith)

    write_buf-StepWrote :
        (buf : WriteBuf) (bytes rest : List ℕ) (ret : ℕ) (s : State)
        → buf.access ≡ ok bytes
        → length bytes ≡ buf.len
        → StepWrote ret bytes rest s (write_buf f fd buf ret s)
    write_buf-StepWrote buf bytes rest ret s a e = elim (Bool-cases (buf.len == 0)) [
      | inl empty ↦ rw empty (
        omega (arith, e, (let z : buf.len ≡ 0 = ground arith in z)),
        sym (append-nil (sink s))
            ∙ ap (λ x. sink s ++ x) (sym (no_bytes bytes (ground (arith, e)))),
      )
      | inr filled ↦
          rw (filled, a, descriptor s, ← e)
            (after_write-StepWrote ret bytes rest s (write h bytes s) (takes bytes s))
    ]

    goes_on :
        (bytes : List ℕ) (bufs : List WriteBuf) (ret : ℕ) (s : State) (n : Next State)
        → StepWrote ret bytes (contents bufs) s n
        → ((ret' : ℕ) (s' : State) → Wrote ret' (contents bufs) s' (writev_loop f fd bufs ret' s'))
        → Wrote ret
            (bytes ++ contents bufs)
            s
            (elim n [ go_on ret' s' ↦ writev_loop f fd bufs ret' s' | returns r s' ↦ (r, s') ])
    goes_on bytes bufs ret s (go_on ret' s') st next =
        then-Wrote ret ret' bytes (contents bufs) s s' (writev_loop f fd bufs ret' s') st.0 st.1
          (next ret' s')
    goes_on bytes bufs ret s (returns r s') st next = st

    writev_loop-Wrote :
        (bufs : List WriteBuf) (ret : ℕ) (s : State)
        → IsReadable bufs
        → Wrote ret (contents bufs) s (writev_loop f fd bufs ret s)
    unfolding writev_loop
    writev_loop-Wrote [] ret s v = (0, omega arith, sym (append-nil (sink s)), omega arith)
    writev_loop-Wrote (buf ∷ bufs) ret s v =
        let bytes = bytes_of buf.access in
        goes_on bytes bufs ret s (write_buf f fd buf ret s)
          (write_buf-StepWrote buf bytes (contents bufs) ret s v.0.0 v.0.1)
          (λ ret' s'. writev_loop-Wrote bufs ret' s' v.1)

    -- `sys_writev` on readable buffers, with a descriptor that stays open and at most 1024 buffers:
    -- the file has taken the first bytes of the buffers in their order, and a result is the number of
    -- the bytes taken. An error may follow bytes that were taken, and their number is lost.
    pub sys_writev-Wrote :
        (bufs : List WriteBuf) (iocnt : ℕ) (s : State)
        → IsReadable bufs
        → iocnt ≤ 1024
        → Wrote 0 (contents bufs) s (sys_writev f fd (ok bufs) iocnt s)
    unfolding sys_writev
    sys_writev-Wrote bufs iocnt s v few =
        let within : leb iocnt 1024 ≡ true = ground arith in
        rw within (writev_loop-Wrote bufs 0 s v)
