-- ===== src/FdTable/Copy.antt =====
-- The table's own functions: a copy has the same files, and `clear` closes every one.
use freeos.Prelude.{
  ℕ, ◌≡◌, refl, List, [], ◌∷◌, none, ◌==◌, if◌then◌else◌, arith, Option-cases, inl, inr, ◌⊎◌,
}
use freeos.FdTable.{
  FlattenObjects, IsFlatten, lists, copied, copy_ids, copy_inner, remove_ids, clear,
}

module _ {A : Type 0} (o : FlattenObjects A) (laws : IsFlatten o) where
  open o use {Table, empty, get, add_at, remove, ids}

  -- Each entry of `n` is the one of `t`, or is missing.
  abbrev Partial : Table → Table → Type 0
  Partial t n = (j : ℕ) → (get j n ≡ none) ⊎ (get j n ≡ get j t)

  copied_lem :
      (i j : ℕ) (t n : Table)
      → Partial t n
      → get j (copied o i (get i t) n) ≡ (if i == j then get i t else get j n)
  copied_lem i j t n p = elim (Option-cases (get i t)) [
    | inl absent ↦ rw absent (ground (arith, p i))
    | inr (a, there) ↦ rw there (elim (Option-cases (get i n)) [
      | inl free ↦
          let (n', at, holds) = laws.add_at_free i a n free (laws.bounded i a t there) in
          rw (at, copied) (holds j)
      | inr (b, taken) ↦
          let refused : add_at i a n ≡ (none, n) = laws.add_at_refused i a n (inl (ground arith)) in
          rw (refused, copied) (ground (arith, p i))
    ])
  ]

  copied-Partial : (i : ℕ) (t n : Table) → Partial t n → Partial t (copied o i (get i t) n)
  copied-Partial i t n p j = ground (arith, copied_lem i j t n p, p j)

  copy_ids_lem :
      (is : List ℕ) (t n : Table) (j : ℕ)
      → Partial t n
      → get j (copy_ids o is t n) ≡ (if lists j is then get j t else get j n)
  unfolding copy_ids lists
  copy_ids_lem [] t n j p = refl
  copy_ids_lem (i ∷ is) t n j p = ground (
    arith,
    copy_ids_lem is t (copied o i (get i t) n) j (copied-Partial i t n p),
    copied_lem i j t n p,
    p j,
  )

  -- A copy of the table has the same file as the table under every descriptor, and no other.
  copy_inner_lem : (t : Table) (j : ℕ) → get j (copy_inner o t) ≡ get j t
  unfolding copy_inner
  copy_inner_lem t j = ground (
    arith,
    copy_ids_lem (ids t) t empty j (λ i. inl (laws.get-empty i)),
    laws.listed j t,
    laws.get-empty j,
  )

  remove_ids_lem :
      (is : List ℕ) (t : Table) (j : ℕ)
      → get j (remove_ids o is t) ≡ (if lists j is then none else get j t)
  unfolding remove_ids lists
  remove_ids_lem [] t j = refl
  remove_ids_lem (i ∷ is) t j =
      ground (arith, remove_ids_lem is (remove i t).1 j, laws.get-remove i j t)

  -- `clear` leaves no file open.
  get-clear : (t : Table) (j : ℕ) → get j (clear o t) ≡ none
  unfolding clear
  get-clear t j = ground (arith, remove_ids_lem (ids t) t j, laws.listed j t)
