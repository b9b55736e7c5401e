-- ===== src/Mpx/Select/Count.antt =====
-- The number that a pass gives is that of the bits in its results.
use freeos.Prelude.{
  ℕ, zero, suc, ◌+◌, ◌≤◌, ◌<◌, ◌≡◌, refl, ◌∙◌, subst, Bool, true, false, ◌&&◌, List, [], ◌∷◌, arith,
  length, length-set, get_or, get_or-set_ne, set, replicate, length-replicate, Bool-cases, inl, inr,
  if◌then◌else◌,
}
use freeos.Mpx.{Answer, bad, failing, polled}
use freeos.Mpx.Select.{
  FdSets, Found, fd_setsize, nothing_found, no_bits, poll_bit, any_bit, bit, answered, mark_read,
  mark_write, mark_except, scan,
}
use freeos.Mpx.Select.Scan.{every, scan-every}

-- The number of bits that are set.
abbrev pub ones : List Bool → ℕ
ones [] = 0
ones (b ∷ bs) = (if b then 1 else 0) + ones bs

ones-set :
    (l : List Bool) (i : ℕ)
    → i < length l
    → get_or l i false ≡ false
    → ones (set l i true) ≡ ones l + 1
ones-set [] i h e = absurd (omega arith)
ones-set (b ∷ l) zero h e = rw e (omega arith)
ones-set (b ∷ l) (suc i) h e = omega (arith, ones-set l i (omega arith) e)

ones-replicate : (n : ℕ) → ones (replicate n false) ≡ 0
ones-replicate zero = refl
ones-replicate (suc n) = omega (arith, ones-replicate n)

no_bit-replicate : (n k : ℕ) → get_or (replicate n false) k false ≡ false
no_bit-replicate zero k = refl
no_bit-replicate (suc n) zero = refl
no_bit-replicate (suc n) (suc k) = no_bit-replicate n k

-- A result in which no bit from `fd` on is set yet.
record IsBelow (fd : ℕ) (l : List Bool) : Type 0 where
  size : length l ≡ fd_setsize
  above : (k : ℕ) → fd ≤ k → get_or l k false ≡ false

IsBelow-kept : (fd : ℕ) (l : List Bool) → IsBelow fd l → IsBelow (fd + 1) l
IsBelow-kept fd l h = record { size = h.size; above = λ k p. h.above k (omega arith) }

IsBelow-set : (fd : ℕ) (l : List Bool) → IsBelow fd l → IsBelow (fd + 1) (set l fd true)
IsBelow-set fd l h = record {
  size = length-set l fd true ∙ h.size;
  above = λ k p.
      get_or-set_ne l fd k true false (λ e. absurd (omega (arith, e))) ∙ h.above k (omega arith);
}

-- What a walk has found below `fd`: the number is that of the bits.
record IsFound (fd : ℕ) (f : Found) : Type 0 where
  read_below : IsBelow fd f.read
  write_below : IsBelow fd f.write
  except_below : IsBelow fd f.except
  counted : f.res_num ≡ ones f.read + ones f.write + ones f.except

module _ (s : FdSets) (answer : ℕ → Answer) where
  module _ (fd : ℕ) (f : Found) (within : fd < fd_setsize) (v : IsFound fd f) where
    read_lem : ones (set f.read fd true) ≡ ones f.read + 1
    read_lem =
        ones-set f.read fd (omega (arith, v.read_below.size)) (v.read_below.above fd (omega arith))

    write_lem : ones (set f.write fd true) ≡ ones f.write + 1
    write_lem =
        ones-set f.write fd (omega (arith, v.write_below.size))
          (v.write_below.above fd (omega arith))

    except_lem : ones (set f.except fd true) ≡ ones f.except + 1
    except_lem =
        ones-set f.except fd (omega (arith, v.except_below.size))
          (v.except_below.above fd (omega arith))

    after_state :
        (r w : Bool) → IsFound (fd + 1) (mark_write s answer w fd (mark_read s answer r fd f))
    after_state true true = record {
      read_below = IsBelow-set fd f.read v.read_below;
      write_below = IsBelow-set fd f.write v.write_below;
      except_below = IsBelow-kept fd f.except v.except_below;
      counted = omega (arith, v.counted, read_lem, write_lem);
    }
    after_state true false = record {
      read_below = IsBelow-set fd f.read v.read_below;
      write_below = IsBelow-kept fd f.write v.write_below;
      except_below = IsBelow-kept fd f.except v.except_below;
      counted = omega (arith, v.counted, read_lem);
    }
    after_state false true = record {
      read_below = IsBelow-kept fd f.read v.read_below;
      write_below = IsBelow-set fd f.write v.write_below;
      except_below = IsBelow-kept fd f.except v.except_below;
      counted = omega (arith, v.counted, write_lem);
    }
    after_state false false = record {
      read_below = IsBelow-kept fd f.read v.read_below;
      write_below = IsBelow-kept fd f.write v.write_below;
      except_below = IsBelow-kept fd f.except v.except_below;
      counted = v.counted;
    }

    after_failure : (x : Bool) → IsFound (fd + 1) (mark_except s answer x fd f)
    after_failure true = record {
      read_below = IsBelow-kept fd f.read v.read_below;
      write_below = IsBelow-kept fd f.write v.write_below;
      except_below = IsBelow-set fd f.except v.except_below;
      counted = omega (arith, v.counted, except_lem);
    }
    after_failure false = after_state false false

    after_answer : (a : Answer) → IsFound (fd + 1) (answered s answer a fd f)
    after_answer bad = after_failure (bit s answer s.except_bits fd)
    after_answer failing = after_failure (bit s answer s.except_bits fd)
    after_answer (polled p) =
        after_state (p.readable && bit s answer s.read_bits fd)
          (p.writable && bit s answer s.write_bits fd)

    poll_bit-IsFound : IsFound (fd + 1) (poll_bit s answer fd f)
    unfolding poll_bit
    poll_bit-IsFound = elim (Bool-cases (any_bit s answer fd)) [
      | inl one ↦ rw one (after_answer (answer fd))
      | inr no_bit ↦ rw no_bit (after_state false false)
    ]

  every-IsFound :
      (n fd : ℕ) (f : Found)
      → fd + n ≤ fd_setsize
      → IsFound fd f
      → IsFound (fd + n) (every s answer n fd f)
  every-IsFound zero fd f h v = subst (λ k. IsFound k f) (let p : fd ≡ fd + 0 = omega arith in p) v
  every-IsFound (suc n) fd f h v =
      subst (λ k. IsFound k (every s answer n (fd + 1) (poll_bit s answer fd f)))
        (let p : fd + 1 + n ≡ fd + suc n = omega arith in p)
        (every-IsFound n (fd + 1) (poll_bit s answer fd f) (omega arith)
          (poll_bit-IsFound fd f (omega arith) v))

  no_bits-IsBelow : IsBelow 0 no_bits
  no_bits-IsBelow = record {
    size = length-replicate fd_setsize false;
    above = λ k p. no_bit-replicate fd_setsize k;
  }

  -- With at most 1024 descriptors, the number that the scan gives is the number of the bits that are
  -- set in its three results.
  scan-ones :
      s.nfds ≤ fd_setsize
      → (scan s answer).res_num
        ≡ ones (scan s answer).read + ones (scan s answer).write + ones (scan s answer).except
  scan-ones h =
      rw (scan-every s answer h)
        (every-IsFound s.nfds 0 nothing_found (omega arith) (record {
          read_below = no_bits-IsBelow;
          write_below = no_bits-IsBelow;
          except_below = no_bits-IsBelow;
          counted = omega (arith, ones-replicate fd_setsize);
        })).counted
