-- ===== src/Shm/Manager/AllocId.antt =====
-- `alloc_id`: the identifiers that it hands out.
use freeos.Prelude.{
  ℕ, zero, suc, ◌-◌, ◌/◌, ◌^◌, ◌<◌, ◌≡◌, refl, none, arith, Bool-cases, inl, inr, leb, length,
}
use freeos.Prelude.Errors.{Result, ok, AxError}
use freeos.Prelude.Map.{get, contains_key}
use freeos.Shm.Manager.{ShmManager, next_after, alloc_loop, alloc_id, max_attempts}

-- A positive `i32`.
abbrev pub IsPositive : ℕ → Type 0
IsPositive id = (0 < id) × (id < 2 ^ 31)

next_after-IsPositive : (id : ℕ) → IsPositive id → IsPositive (next_after id)
unfolding next_after
next_after-IsPositive id p = ground arith

-- An allocation changes nothing but the next identifier, which stays positive; the identifier that
-- it gives is positive and not in use.
pub record Allocates (m : ShmManager) (out : Result AxError ℕ × ShmManager) : Type 0 where
  pub rest_same : out.1 ≡ record m { next_id = out.1.next_id }
  pub next_positive : IsPositive out.1.next_id
  pub positive : (id : ℕ) → out.0 ≡ ok id → IsPositive id
  pub unused : (id : ℕ) → out.0 ≡ ok id → get id m.segments ≡ none

alloc_loop-Allocates :
    (attempts : ℕ) (m : ShmManager) → IsPositive m.next_id → Allocates m (alloc_loop attempts m)
unfolding alloc_loop contains_key
alloc_loop-Allocates zero m p = record {
  rest_same = refl;
  next_positive = p;
  positive = λ id e. cc;
  unused = λ id e. cc;
}
alloc_loop-Allocates (suc attempts) m p =
    let next : ShmManager = record m { next_id = next_after m.next_id } in
    let rest : Allocates next (alloc_loop attempts next) =
      alloc_loop-Allocates attempts next (next_after-IsPositive m.next_id p) in
    elim (Bool-cases (contains_key m.next_id m.segments)) [
      | inl e ↦ rw e (record {
        rest_same = rest.rest_same;
        next_positive = rest.next_positive;
        positive = rest.positive;
        unused = rest.unused;
      })
      | inr e ↦ rw e (record {
        rest_same = refl;
        next_positive = next_after-IsPositive m.next_id p;
        positive = λ id h. ground arith;
        unused = λ id h. ground arith;
      })
    ]

pub alloc_id-Allocates : (m : ShmManager) → IsPositive m.next_id → Allocates m (alloc_id m)
unfolding alloc_id
alloc_id-Allocates m p = elim (Bool-cases (leb ((2 ^ 31 - 1) / 2) (length m.segments))) [
  | inl e ↦
      rw e
        (record { rest_same = refl; next_positive = p; positive = λ id h. cc; unused = λ id h. cc })
  | inr e ↦ rw e (alloc_loop-Allocates max_attempts m p)
]
