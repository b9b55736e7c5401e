-- ===== src/Mpx/Select/Scan.antt =====
-- The scan of the words finds what a walk over all descriptors finds.
use freeos.Prelude.{
  ℕ, zero, suc, ◌+◌, ◌-◌, ◌*◌, ◌≤◌, ◌<◌, ◌≡◌, refl, ap, sym, ◌∙◌, false, arith, ltb, Bool-cases,
  inl, inr, min,
}
use freeos.Mpx.{Answer}
use freeos.Mpx.Select.{
  FdSets, Found, fd_setsize, nothing_found, poll_bit, bits_loop, some_in, any_bit, poll_word,
  words_loop, scan,
}

module _ (s : FdSets) (answer : ℕ → Answer) where
  -- Every descriptor from `fd` on, `n` of them, one after the other.
  abbrev pub every : ℕ → ℕ → Found → Found
  every zero fd f = f
  every (suc n) fd f = every n (fd + 1) (poll_bit s answer fd f)

  every-add : (m n fd : ℕ) (f : Found) → every (m + n) fd f ≡ every n (fd + m) (every m fd f)
  every-add zero n fd f =
      let p : 0 + n ≡ n = omega arith in let q : fd + 0 ≡ fd = omega arith in rw (p, q) refl
  every-add (suc m) n fd f =
      let p : suc m + n ≡ suc (m + n) = omega arith in
      let q : fd + suc m ≡ fd + 1 + m = omega arith in
      rw (p, q) (every-add m n (fd + 1) (poll_bit s answer fd f))

  -- The inner loop stops at `nfds`.
  bits_loop-every :
      (left fd : ℕ) (f : Found) → bits_loop s answer left fd f ≡ every (min left (s.nfds - fd)) fd f
  unfolding bits_loop
  bits_loop-every zero fd f = let p : min 0 (s.nfds - fd) ≡ 0 = omega arith in rw p refl
  bits_loop-every (suc left) fd f = elim (Bool-cases (ltb fd s.nfds)) [
    | inl below ↦
        let p : min (suc left) (s.nfds - fd) ≡ suc (min left (s.nfds - (fd + 1))) =
          ground (arith, below) in
        rw (below, p) (bits_loop-every left (fd + 1) (poll_bit s answer fd f))
    | inr above ↦
        let p : min (suc left) (s.nfds - fd) ≡ 0 = ground (arith, above) in rw (above, p) refl
  ]

  -- A word without bits changes nothing.
  every-none :
      (left n fd : ℕ) (f : Found) → some_in s answer left fd ≡ false → n ≤ left → every n fd f ≡ f
  unfolding some_in poll_bit
  every-none left zero fd f none_set h = refl
  every-none zero (suc n) fd f none_set h = absurd (omega arith)
  every-none (suc left) (suc n) fd f none_set h = elim (Bool-cases (any_bit s answer fd)) [
    | inl one ↦ absurd (ground (arith, one, none_set))
    | inr no_bit ↦
        rw no_bit (every-none left n (fd + 1) f (ground (arith, no_bit, none_set)) (omega arith))
  ]

  poll_word-every : (i : ℕ) (f : Found) → poll_word s answer i f ≡ every (min 64 (s.nfds - i)) i f
  unfolding poll_word
  poll_word-every i f = elim (Bool-cases (some_in s answer 64 i)) [
    | inl one ↦ rw one (bits_loop-every 64 i f)
    | inr no_bit ↦ rw no_bit (sym (every-none 64 (min 64 (s.nfds - i)) i f no_bit (omega arith)))
  ]

  -- A word, and the descriptors behind it.
  every_join :
      (i : ℕ) (f : Found)
      → i < s.nfds
      → every (s.nfds - (i + 64)) (i + 64) (every (min 64 (s.nfds - i)) i f)
        ≡ every (s.nfds - i) i f
  every_join i f below = elim (Bool-cases (ltb (i + 64) s.nfds)) [
    | inl more ↦
        let p : min 64 (s.nfds - i) ≡ 64 = ground (arith, more) in
        let q : 64 + (s.nfds - (i + 64)) ≡ s.nfds - i = ground (arith, more) in
        rw p (sym (every-add 64 (s.nfds - (i + 64)) i f) ∙ ap (λ n. every n i f) q)
    | inr over ↦
        let p : min 64 (s.nfds - i) ≡ s.nfds - i = ground (arith, over) in
        let q : s.nfds - (i + 64) ≡ 0 = ground (arith, over) in rw (p, q) refl
  ]

  words_loop-every :
      (left i : ℕ) (f : Found)
      → s.nfds ≤ i + 64 * left
      → words_loop s answer left i f ≡ every (s.nfds - i) i f
  unfolding words_loop
  words_loop-every zero i f h = let p : s.nfds - i ≡ 0 = omega arith in rw p refl
  words_loop-every (suc left) i f h = elim (Bool-cases (ltb i s.nfds)) [
    | inl below ↦
        let k = min 64 (s.nfds - i) in
        rw below (
          words_loop-every left (i + 64) (poll_word s answer i f) (omega arith)
          ∙ ap (every (s.nfds - (i + 64)) (i + 64)) (poll_word-every i f)
          ∙ every_join i f (ground (arith, below)))
    | inr above ↦ let p : s.nfds - i ≡ 0 = ground (arith, above) in rw (above, p) refl
  ]

  -- With at most 1024 descriptors, the scan that passes over empty words and stops at `nfds` finds
  -- exactly what is found by polling every descriptor below `nfds` in turn.
  pub scan-every : s.nfds ≤ fd_setsize → scan s answer ≡ every s.nfds 0 nothing_found
  unfolding scan
  scan-every h =
      words_loop-every 16 0 nothing_found (omega arith)
      ∙ (let p : s.nfds - 0 ≡ s.nfds = omega arith in ap (λ n. every n 0 nothing_found) p)
