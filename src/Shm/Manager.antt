-- ===== src/Shm/Manager.antt =====
-- core/src/shm.rs: `ShmManager`. An `Arc<ShmSegment>` is a reference, an index into the store of
-- all segments ever made; owners of one reference share the segment. The lock around the manager
-- is held for a whole call. Identifiers and keys are `i32`, as bit patterns.
pub mod AllocId
pub mod Invariant
pub mod Create
pub mod Remove
pub mod Lookup
use freeos.Prelude.{
  ℕ, zero, suc, ◌+◌, ◌-◌, ◌/◌, ◌%◌, ◌^◌, map, Bool, true, false, not, List, [], Option, none, some,
  leb, ◌==◌, if◌then◌else◌, bit_and, length,
}
use freeos.Prelude.Words.{is_nonpos, u32_mod, has_bits}
use freeos.Prelude.Errors.{Result, ok, err, AxError, no_memory, already_exists, not_found}
use freeos.Prelude.Map.{Map, get, insert, remove, contains_key}
use freeos.Shm.Segment.{Host, ShmSegment, new}

pub record ShmManager : Type 0 where
  pub store : ℕ → ShmSegment
  pub next_ref : ℕ
  pub segments : Map ℕ
  pub key_to_id : Map ℕ
  pub next_id : ℕ

abbrev pub ipc_private : ℕ
ipc_private = 0

abbrev pub max_attempts : ℕ
max_attempts = 1000

-- `ShmManager::new`, over a store in which nothing is allocated yet.
unfoldable pub new_manager : (ℕ → ShmSegment) → ShmManager
new_manager store = record {
  store = store;
  next_ref = 0;
  segments = [];
  key_to_id = [];
  next_id = 1;
}

-- `self.next_id.wrapping_add(1)`, and back to 1 behind the largest `i32`.
unfoldable pub next_after : ℕ → ℕ
next_after id = let n = (id + 1) % u32_mod in if is_nonpos n then 1 else n

-- The loop of `alloc_id`, with the number of attempts that are left.
unfoldable pub alloc_loop : ℕ → ShmManager → Result AxError ℕ × ShmManager
alloc_loop zero m = (err no_memory, m)
alloc_loop (suc attempts) m =
    let rest = alloc_loop attempts (record m { next_id = next_after m.next_id }) in
    if contains_key m.next_id m.segments
    then rest
    else (ok m.next_id, record m { next_id = next_after m.next_id })

unfoldable pub alloc_id : ShmManager → Result AxError ℕ × ShmManager
alloc_id m =
    let found = alloc_loop max_attempts m in
    if leb ((2 ^ 31 - 1) / 2) (length m.segments) then (err no_memory, m) else found

-- Change the segment behind a reference; every owner sees it.
abbrev pub update : (ShmSegment → ShmSegment) → ℕ → ShmManager → ShmManager
update f r m = record m { store = λ q. if q == r then f (m.store r) else m.store q }

-- `Arc::new(segment)`, and its entry under `id`.
abbrev pub add_segment : ℕ → ShmSegment → ShmManager → ShmManager
add_segment id s m = record m {
  store = λ q. if q == m.next_ref then s else m.store q;
  next_ref = m.next_ref + 1;
  segments = insert id m.next_ref m.segments;
}

-- A segment that was made, or not, is entered under its identifier.
abbrev pub enter : ℕ → Result AxError ShmSegment → ShmManager → Result AxError ℕ × ShmManager
enter id (err e) m = (err e, m)
enter id (ok s) m = (ok m.next_ref, add_segment id s m)

abbrev pub create_at :
    Host → ℕ → ℕ → ℕ → Result AxError ℕ × ShmManager → Result AxError ℕ × ShmManager
create_at h key size mode (err e, m) = (err e, m)
create_at h key size mode (ok id, m) = enter id (new h id key size mode) m

-- `key_to_id.insert(key, id)` behind a successful creation.
abbrev pub enter_keyed :
    ℕ → ℕ → Result AxError ShmSegment → ShmManager → Result AxError ℕ × ShmManager
enter_keyed key id (err e) m = (err e, m)
enter_keyed key id (ok s) m =
    let m' = add_segment id s m in
    (ok m.next_ref, record m' { key_to_id = insert key id m.key_to_id })

abbrev pub create_keyed_at :
    Host → ℕ → ℕ → ℕ → Result AxError ℕ × ShmManager → Result AxError ℕ × ShmManager
create_keyed_at h key size mode (err e, m) = (err e, m)
create_keyed_at h key size mode (ok id, m) = enter_keyed key id (new h id key size mode) m

-- The identifier that the key maps to is looked up among the segments.
abbrev existing : ℕ → Option ℕ → ShmManager → Result AxError ℕ × ShmManager
existing key none m = (err not_found, record m { key_to_id = remove key m.key_to_id })
existing key (some r) m = if (m.store r).marked_for_deletion then (err not_found, m) else (ok r, m)

unfoldable pub get_or_create : Host → ℕ → ℕ → ℕ → ShmManager → Result AxError ℕ × ShmManager
get_or_create h key size flags m =
    let mode = bit_and flags 0o777 in
    if key == ipc_private
    then create_at h key size mode (alloc_id m)
    else elim (get key m.key_to_id) [
      | some id ↦
          if has_bits flags 0o2000
          then (err already_exists, m)
          else existing key (get id m.segments) m
      | none ↦
          if has_bits flags 0o1000
          then create_keyed_at h key size mode (alloc_id m)
          else (err not_found, m)
    ]

unfoldable pub get_by_id : ℕ → ShmManager → Result AxError ℕ
get_by_id id m = elim (get id m.segments) [ none ↦ err not_found | some r ↦ ok r ]

-- The segment `r` was taken out of `segments`; its key goes too.
abbrev pub forget_key : ℕ → ShmManager → ShmManager
forget_key r m =
    let key = (m.store r).shmid_ds.shm_perm.key in
    if key == ipc_private then m else record m { key_to_id = remove key m.key_to_id }

unfoldable pub remove_segment : ℕ → ShmManager → Result AxError (Unit {0}) × ShmManager
remove_segment id m = elim (get id m.segments) [
  | none ↦ (err not_found, m)
  | some r ↦ (ok tt, forget_key r (record m { segments = remove id m.segments }))
]

unfoldable list_segments : ShmManager → List ℕ
list_segments m = map (λ e. e.1) m.segments
