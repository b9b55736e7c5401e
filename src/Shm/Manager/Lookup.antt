-- ===== src/Shm/Manager/Lookup.antt =====
-- What `get_or_create` finds and makes.
use freeos.Prelude.{
  ℕ, ◌≡◌, ◌≢◌, refl, subst, true, false, some, arith, Bool-cases, Option-cases, inl, inr, ◌==◌,
  bit_and,
}
use freeos.Prelude.Words.{has_bits}
use freeos.Prelude.Errors.{Result, ok, err, AxError, not_found}
use freeos.Prelude.Map.{get, get-insert}
use freeos.Shm.Segment.{Host, ShmSegment, new}
use freeos.Shm.Manager.{
  ShmManager, ipc_private, alloc_id, enter_keyed, create_keyed_at, get_or_create,
}
use freeos.Shm.Manager.Invariant.{IsValid}
use freeos.Shm.Manager.Create.{new-fields}

-- The key leads to the segment that was returned, which is not about to be deleted.
abbrev LeadsTo : ℕ → Result AxError ℕ × ShmManager → Type 0
LeadsTo key (err e, m) = Unit {0}
LeadsTo key (ok r, m) =
    (id : ℕ) × (get key m.key_to_id ≡ some id)
    × (get id m.segments ≡ some r)
    × ((m.store r).marked_for_deletion ≡ false)

enter_keyed-LeadsTo :
    (key id : ℕ) (made : Result AxError ShmSegment) (m : ShmManager)
    → ((s : ShmSegment) → made ≡ ok s → s.marked_for_deletion ≡ false)
    → LeadsTo key (enter_keyed key id made m)
enter_keyed-LeadsTo key id (err e) m fresh = tt
enter_keyed-LeadsTo key id (ok s) m fresh = (
  id,
  ground (arith, get-insert key key id m.key_to_id),
  ground (arith, get-insert id id m.next_ref m.segments),
  ground (arith, fresh s refl),
)

create_keyed_at-LeadsTo :
    (h : Host) (key size mode : ℕ) (out : Result AxError ℕ × ShmManager)
    → LeadsTo key (create_keyed_at h key size mode out)
create_keyed_at-LeadsTo h key size mode (err e, m) = tt
create_keyed_at-LeadsTo h key size mode (ok id, m) =
    enter_keyed-LeadsTo key id (new h id key size mode) m
      (λ s e. (new-fields h id key size mode e).2)

get_or_create-LeadsTo :
    (h : Host) (key size flags : ℕ) {m : ShmManager}
    → IsValid m
    → key ≢ ipc_private
    → LeadsTo key (get_or_create h key size flags m)
unfolding get_or_create
get_or_create-LeadsTo h key size flags {m} v ne =
    let public : (key == ipc_private) ≡ false = ground arith in
    rw public (elim (Option-cases (get key m.key_to_id)) [
      | inl unmapped ↦ rw unmapped (elim (Bool-cases (has_bits flags 0o1000)) [
        | inl create ↦
            rw create (create_keyed_at-LeadsTo h key size (bit_and flags 0o777) (alloc_id m))
        | inr plain ↦ rw plain tt
      ])
      | inr (id, mapped) ↦
          let (nonzero, r, at, k) = v.keyed key id mapped in
          rw (mapped, at)
            (elim (Bool-cases (has_bits flags 0o2000)) [
              | inl excl ↦ rw excl tt
              | inr shared ↦ rw shared (elim (Bool-cases (m.store r).marked_for_deletion) [
                | inl gone ↦ rw gone tt
                | inr live ↦ rw live (id, mapped, at, live)
              ])
            ])
    ])

-- In a consistent manager, after a key other than `IPC_PRIVATE` was created or found, every later
-- call with that key and without the exclusive flag returns the same segment and changes nothing,
-- whatever size and other flags it asks for.
get_or_create-get_or_create :
    (h later : Host) (key size flags size' flags' : ℕ) {m m' : ShmManager} {r : ℕ}
    → IsValid m
    → key ≢ ipc_private
    → get_or_create h key size flags m ≡ (ok r, m')
    → has_bits flags' 0o2000 ≡ false
    → get_or_create later key size' flags' m' ≡ (ok r, m')
unfolding get_or_create
get_or_create-get_or_create h later key size flags size' flags' {m} {m'} {r} v ne e shared =
    let (id, mapped, at, live) =
      subst (LeadsTo key) e (get_or_create-LeadsTo h key size flags v ne) in
    let public : (key == ipc_private) ≡ false = ground arith in
    rw (public, mapped, shared, at, live)

-- With the exclusive flag the same call fails, and changes nothing.
get_or_create_exclusive :
    (h later : Host) (key size flags size' flags' : ℕ) {m m' : ShmManager} {r : ℕ}
    → IsValid m
    → key ≢ ipc_private
    → get_or_create h key size flags m ≡ (ok r, m')
    → has_bits flags' 0o2000 ≡ true
    → get_or_create later key size' flags' m' ≡ (err AxError.already_exists, m')
unfolding get_or_create
get_or_create_exclusive h later key size flags size' flags' {m} {m'} {r} v ne e excl =
    let (id, mapped, at, live) =
      subst (LeadsTo key) e (get_or_create-LeadsTo h key size flags v ne) in
    let public : (key == ipc_private) ≡ false = ground arith in rw (public, mapped, excl)

-- A key whose segment waits for its deletion cannot be used, with the create flag neither.
get_or_create_deleted :
    (h : Host) (key id r size flags : ℕ) (m : ShmManager)
    → key ≢ ipc_private
    → get key m.key_to_id ≡ some id
    → get id m.segments ≡ some r
    → (m.store r).marked_for_deletion ≡ true
    → has_bits flags 0o2000 ≡ false
    → get_or_create h key size flags m ≡ (err not_found, m)
unfolding get_or_create
get_or_create_deleted h key id r size flags m ne mapped at gone shared =
    let public : (key == ipc_private) ≡ false = ground arith in
    rw (public, mapped, shared, at, gone)
