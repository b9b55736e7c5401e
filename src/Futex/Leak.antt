-- ===== src/Futex/Leak.antt =====
-- A guard that is dropped never takes its queue out of the table.
use freeos.Prelude.{
  ℕ, ◌+◌, ◌<◌, ◌≡◌, refl, false, [], ◌∷◌, some, arith, ◌==◌, ==_self, Option-cases, inl, inr,
}
use freeos.Prelude.Map.{Map, get, get-insert}
use freeos.Futex.{WaitQueues, Guard, FutexTable, entries, strong_count, get_or_insert, drop_guard}

entries_get : (k q : ℕ) (m : Map ℕ) → get k m ≡ some q → 0 < entries q m
unfolding get entries
entries_get k q [] e = cc
entries_get k q ((j, r) ∷ m) e = ground (arith, entries_get k q m)

module _ (w : WaitQueues) where
  -- The guard is live, and its queue is in the table under its key.
  abbrev pub Holds : Guard → FutexTable w → Type 0
  Holds g t = (0 < t.guards g.inner) × (get g.key t.table ≡ some g.inner)

  -- `get_or_insert` gives a guard that holds its queue, which is the one that was there, if one was.
  get_or_insert-Holds :
      (addr : ℕ) (t : FutexTable w) → let (g, t') = get_or_insert w addr t in Holds g t'
  unfolding get_or_insert
  get_or_insert-Holds addr t = elim (Option-cases (get addr t.table)) [
    | inl absent ↦
        rw (absent, get_or_insert)
          (
            ground (arith, ==_self t.next_ref),
            ground (arith, get-insert addr addr t.next_ref t.table),
          )
    | inr (q, there) ↦ rw (there, get_or_insert) (ground (arith, ==_self q), there)
  ]

  -- Dropping a live guard whose queue is in the table under its key leaves the table as it is,
  -- even when no task waits in the queue.
  pub drop_guard_keeps :
      (g : Guard) (t : FutexTable w) → Holds g t → (drop_guard w g t).table ≡ t.table
  unfolding drop_guard strong_count
  drop_guard_keeps g t (live, there) =
      let many = entries_get g.key g.inner t.table there in
      let shared : (entries g.inner t.table + t.guards g.inner == 1) ≡ false =
        ground (arith, many, live) in
      rw shared refl
