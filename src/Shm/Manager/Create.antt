-- ===== src/Shm/Manager/Create.antt =====
-- `get_or_create` keeps the invariant of `ShmManager`.
use freeos.Prelude.{
  ℕ, ◌≡◌, ◌≢◌, refl, sym, subst, ◌∙◌, ap, false, none, arith, Bool-cases, Option-cases, inl, inr,
  ◌==◌, bit_and,
}
use freeos.Prelude.Words.{has_bits}
use freeos.Prelude.Errors.{Result, ok, err, AxError}
use freeos.Prelude.Map.{get}
use freeos.Shm.Segment.{Host, ShmSegment, new}
use freeos.Shm.Manager.{
  ShmManager, ipc_private, alloc_id, create_at, enter, enter_keyed, create_keyed_at, get_or_create,
}
use freeos.Shm.Manager.AllocId.{IsPositive, Allocates, alloc_id-Allocates}
use freeos.Shm.Manager.Invariant.{IsValid, add_private-IsValid, add_keyed-IsValid}

pub new-fields :
    (h : Host) (id key size mode : ℕ) {s : ShmSegment}
    → new h id key size mode ≡ ok s
    → (s.id ≡ id) × (s.shmid_ds.shm_perm.key ≡ key) × (s.marked_for_deletion ≡ false)
unfolding new
new-fields h id key size mode e = ground arith

next_id-IsValid :
    {m : ShmManager} (n : ℕ) → IsValid m → IsPositive n → IsValid (record m { next_id = n })
next_id-IsValid n v p = record {
  next_positive = p;
  allocated = v.allocated;
  named = v.named;
  keyed = v.keyed;
  found = v.found;
}

allocated-IsValid :
    {m : ShmManager} {out : Result AxError ℕ × ShmManager}
    → IsValid m
    → Allocates m out
    → IsValid out.1
allocated-IsValid {m} {out} v a =
    subst IsValid (sym a.rest_same) (next_id-IsValid out.1.next_id v a.next_positive)

-- The identifier given is still unused, and a key that was not mapped is not mapped now.
still_unused :
    {m : ShmManager} {out : Result AxError ℕ × ShmManager} (id : ℕ)
    → Allocates m out
    → out.0 ≡ ok id
    → get id out.1.segments ≡ none
still_unused {m} {out} id a e = ap (λ t. get id t.segments) a.rest_same ∙ a.unused id e

enter-IsValid :
    {m : ShmManager} (id : ℕ) (made : Result AxError ShmSegment)
    → IsValid m
    → get id m.segments ≡ none
    → ((s : ShmSegment)
        → made ≡ ok s
        → (s.id ≡ id) × (s.shmid_ds.shm_perm.key ≡ ipc_private) × (s.marked_for_deletion ≡ false))
    → IsValid (enter id made m).1
enter-IsValid id (err e) v free fields = v
enter-IsValid id (ok s) v free fields =
    add_private-IsValid id s v free (fields s refl).0 (fields s refl).1

enter_keyed-IsValid :
    {m : ShmManager} (key id : ℕ) (made : Result AxError ShmSegment)
    → IsValid m
    → get id m.segments ≡ none
    → get key m.key_to_id ≡ none
    → key ≢ ipc_private
    → ((s : ShmSegment)
        → made ≡ ok s
        → (s.id ≡ id) × (s.shmid_ds.shm_perm.key ≡ key) × (s.marked_for_deletion ≡ false))
    → IsValid (enter_keyed key id made m).1
enter_keyed-IsValid key id (err e) v free unmapped ne fields = v
enter_keyed-IsValid key id (ok s) v free unmapped ne fields =
    add_keyed-IsValid key id s v free unmapped (fields s refl).0 (fields s refl).1 ne

create_at-IsValid :
    {m : ShmManager} (h : Host) (size mode : ℕ) (out : Result AxError ℕ × ShmManager)
    → IsValid m
    → Allocates m out
    → IsValid (create_at h ipc_private size mode out).1
create_at-IsValid h size mode (err e, m') v a = allocated-IsValid v a
create_at-IsValid h size mode (ok id, m') v a =
    enter-IsValid id (new h id ipc_private size mode) (allocated-IsValid v a)
      (still_unused id a refl) (λ s e. new-fields h id ipc_private size mode e)

create_keyed_at-IsValid :
    {m : ShmManager} (h : Host) (key size mode : ℕ) (out : Result AxError ℕ × ShmManager)
    → IsValid m
    → Allocates m out
    → get key m.key_to_id ≡ none
    → key ≢ ipc_private
    → IsValid (create_keyed_at h key size mode out).1
create_keyed_at-IsValid h key size mode (err e, m') v a unmapped ne = allocated-IsValid v a
create_keyed_at-IsValid h key size mode (ok id, m') v a unmapped ne =
    enter_keyed-IsValid key id (new h id key size mode) (allocated-IsValid v a)
      (still_unused id a refl) (ap (λ t. get key t.key_to_id) a.rest_same ∙ unmapped) ne
      (λ s e. new-fields h id key size mode e)

-- `get_or_create` keeps the maps of the manager consistent, on every path.
pub get_or_create-IsValid :
    (h : Host) (key size flags : ℕ) {m : ShmManager}
    → IsValid m
    → IsValid (get_or_create h key size flags m).1
unfolding get_or_create
get_or_create-IsValid h key size flags {m} v = elim (Bool-cases (key == ipc_private)) [
  | inl private ↦
      let e : key ≡ ipc_private = ground arith in
      rw e (
        create_at-IsValid h size (bit_and flags 0o777) (alloc_id m) v
          (alloc_id-Allocates m v.next_positive))
  | inr public ↦ rw public (elim (Option-cases (get key m.key_to_id)) [
    | inl unmapped ↦ rw unmapped (elim (Bool-cases (has_bits flags 0o1000)) [
      | inl create ↦ rw create (
          create_keyed_at-IsValid h key size (bit_and flags 0o777) (alloc_id m) v
            (alloc_id-Allocates m v.next_positive) unmapped (ground arith))
      | inr plain ↦ rw plain v
    ])
    | inr (id, mapped) ↦
        let (ne, r, at, k) = v.keyed key id mapped in
        rw (mapped, at)
          (elim (Bool-cases (has_bits flags 0o2000)) [
            | inl excl ↦ rw excl v
            | inr shared ↦ rw shared (elim (Bool-cases (m.store r).marked_for_deletion) [
              | inl gone ↦ rw gone v
              | inr live ↦ rw live v
            ])
          ])
  ])
]
