-- ===== src/Shm/Manager/Remove.antt =====
-- `remove`, `get_by_id` and the changes to a segment in place.
use freeos.Prelude.{ℕ, ◌≡◌, ◌≢◌, some, arith, Bool-cases, Option-cases, inl, inr, ◌==◌}
use freeos.Prelude.Map.{get, remove, get-remove}
use freeos.Shm.Segment.{ShmSegment}
use freeos.Shm.Manager.{ShmManager, ipc_private, update, remove_segment}
use freeos.Shm.Manager.Invariant.{key_of, IsValid}

removed-keyless :
    {m : ShmManager} (id r : ℕ)
    → IsValid m
    → get id m.segments ≡ some r
    → key_of m r ≡ ipc_private
    → IsValid (record m { segments = remove id m.segments })
removed-keyless {m} id r v at private = record {
  next_positive = v.next_positive;
  allocated = λ i q e. ground (arith, get-remove id i m.segments, v.allocated i q);
  named = λ i q e. ground (arith, get-remove id i m.segments, v.named i q);
  keyed = λ k i e.
      let (ne, q, there, has) = v.keyed k i e in
      (ne, q, ground (arith, get-remove id i m.segments), has);
  found = λ i q e ne. ground (arith, get-remove id i m.segments, v.found i q);
}

removed-keyed :
    {m : ShmManager} (id r : ℕ)
    → IsValid m
    → get id m.segments ≡ some r
    → key_of m r ≢ ipc_private
    → IsValid
        (record m { segments = remove id m.segments; key_to_id = remove (key_of m r) m.key_to_id })
removed-keyed {m} id r v at public = record {
  next_positive = v.next_positive;
  allocated = λ i q e. ground (arith, get-remove id i m.segments, v.allocated i q);
  named = λ i q e. ground (arith, get-remove id i m.segments, v.named i q);
  keyed = λ k i e.
      let (ne, q, there, has) =
        v.keyed k i (ground (arith, get-remove (key_of m r) k m.key_to_id)) in
      (
        ne,
        q,
        ground (arith, get-remove id i m.segments, get-remove (key_of m r) k m.key_to_id),
        has,
      );
  found = λ i q e ne. ground (
    arith,
    get-remove id i m.segments,
    get-remove (key_of m r) (key_of m q) m.key_to_id,
    v.found i q,
    v.found id r at public,
  );
}

-- `remove` takes out an entry together with its key, and keeps the maps consistent.
pub remove_segment-IsValid : (id : ℕ) {m : ShmManager} → IsValid m → IsValid (remove_segment id m).1
unfolding remove_segment
remove_segment-IsValid id {m} v = elim (Option-cases (get id m.segments)) [
  | inl absent ↦ rw (absent, remove_segment) v
  | inr (r, at) ↦
      rw (at, remove_segment)
        (elim (Bool-cases (key_of m r == ipc_private)) [
          | inl private ↦ rw private (removed-keyless id r v at (ground arith))
          | inr public ↦ rw public (removed-keyed id r v at (ground arith))
        ])
]

-- A change of a segment in place keeps the invariant, if it leaves its identifier and key alone.
pub update-IsValid :
    {m : ShmManager} (f : ShmSegment → ShmSegment) (r : ℕ)
    → ((f (m.store r)).id ≡ (m.store r).id)
    → ((f (m.store r)).shmid_ds.shm_perm.key ≡ key_of m r)
    → IsValid m
    → IsValid (update f r m)
update-IsValid {m} f r same_id same_key v = record {
  next_positive = v.next_positive;
  allocated = v.allocated;
  named = λ i q e. ground (arith, v.named i q);
  keyed = λ k i e. let (ne, q, there, has) = v.keyed k i e in (ne, q, there, ground arith);
  found = λ i q e ne. ground (arith, v.found i q);
}
