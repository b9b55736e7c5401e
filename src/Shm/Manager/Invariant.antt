-- ===== src/Shm/Manager/Invariant.antt =====
-- The invariant of `ShmManager`: the two maps agree with each other and with the segments.
use freeos.Prelude.{ℕ, ◌<◌, ◌≡◌, ◌≢◌, none, some, arith, Bool-cases, inl, inr, ◌==◌, ==_self}
use freeos.Prelude.Map.{get, insert, get-insert}
use freeos.Shm.Segment.{ShmSegment}
use freeos.Shm.Manager.{ShmManager, ipc_private, add_segment, new_manager}
use freeos.Shm.Manager.AllocId.{IsPositive}

abbrev pub key_of : ShmManager → ℕ → ℕ
key_of m r = (m.store r).shmid_ds.shm_perm.key

pub record IsValid (m : ShmManager) : Type 0 where
  pub next_positive : IsPositive m.next_id
  -- an entry refers to a segment that was made, and that has its identifier
  pub allocated : (id r : ℕ) → get id m.segments ≡ some r → r < m.next_ref
  pub named : (id r : ℕ) → get id m.segments ≡ some r → (m.store r).id ≡ id
  -- a key maps to an entry, which has that key; `IPC_PRIVATE` maps to nothing
  pub keyed :
      (key id : ℕ)
      → get key m.key_to_id ≡ some id
      → (key ≢ ipc_private) × (r : ℕ) × (get id m.segments ≡ some r) × (key_of m r ≡ key)
  -- an entry with a key is the one that the key maps to
  pub found :
      (id r : ℕ)
      → get id m.segments ≡ some r
      → key_of m r ≢ ipc_private
      → get (key_of m r) m.key_to_id ≡ some id

pub new_manager-IsValid : (store : ℕ → ShmSegment) → IsValid (new_manager store)
unfolding new_manager get
new_manager-IsValid store = record {
  next_positive = omega arith;
  allocated = λ id r e. cc;
  named = λ id r e. cc;
  keyed = λ key id e. cc;
  found = λ id r e. cc;
}

-- A new segment without a key, under an identifier that is not in use.
pub add_private-IsValid :
    {m : ShmManager} (id : ℕ) (s : ShmSegment)
    → IsValid m
    → get id m.segments ≡ none
    → s.id ≡ id
    → s.shmid_ds.shm_perm.key ≡ ipc_private
    → IsValid (add_segment id s m)
add_private-IsValid {m} id s v free name private = record {
  next_positive = v.next_positive;
  allocated = λ i r e. ground (arith, get-insert id i m.next_ref m.segments, v.allocated i r);
  named =
      λ i r e. ground (arith, get-insert id i m.next_ref m.segments, v.allocated i r, v.named i r);
  keyed = λ key i e.
      let (ne, r, at, k) = v.keyed key i e in
      (
        ne,
        r,
        ground (arith, get-insert id i m.next_ref m.segments),
        ground (arith, v.allocated i r at),
      );
  found = λ i r e ne.
      ground (arith, get-insert id i m.next_ref m.segments, v.allocated i r, v.found i r);
}

pub add_keyed-IsValid :
    {m : ShmManager} (key id : ℕ) (s : ShmSegment)
    → IsValid m
    → get id m.segments ≡ none
    → get key m.key_to_id ≡ none
    → s.id ≡ id
    → s.shmid_ds.shm_perm.key ≡ key
    → key ≢ ipc_private
    → IsValid (record (add_segment id s m) { key_to_id = insert key id m.key_to_id })
add_keyed-IsValid {m} key id s v free unmapped name keyed ne = record {
  next_positive = v.next_positive;
  allocated = λ i r e. ground (arith, get-insert id i m.next_ref m.segments, v.allocated i r);
  named =
      λ i r e. ground (arith, get-insert id i m.next_ref m.segments, v.allocated i r, v.named i r);
  keyed = λ k i e. elim (Bool-cases (key == k)) [
    | inl same ↦ (
      ground arith,
      m.next_ref,
      ground (arith, get-insert key k id m.key_to_id, get-insert id i m.next_ref m.segments),
      ground arith,
    )
    | inr other ↦
        let (nonzero, r, at, has) = v.keyed k i (ground (arith, get-insert key k id m.key_to_id)) in
        (
          nonzero,
          r,
          ground (arith, get-insert id i m.next_ref m.segments),
          ground (arith, v.allocated i r at),
        )
  ];
  found = λ i r e nonzero. ground (
    arith,
    get-insert id i m.next_ref m.segments,
    get-insert key (key_of m r) id m.key_to_id,
    v.allocated i r,
    v.found i r,
    ==_self key,
    get-insert key key id m.key_to_id,
  );
}
