-- ===== src/Tasks/Registered.antt =====
-- `add_thread_to_table` returns at the first entry that is already there: it relies on the entries
-- behind it being there too.
use freeos.Prelude.{ℕ, ◌≡◌, refl, true, some, arith, ◌==◌, Bool-cases, inl, inr, if◌then◌else◌}
use freeos.Prelude.Map.{Map, get, contains_key, insert, get-insert}
use freeos.Tasks.{Processes, Tables, add_group, add_process, add_thread_to_table}

contains_key-insert {ℓ} :
    {V : Type ℓ} (k j : ℕ) (v : V) (m : Map V)
    → contains_key j (insert k v m) ≡ (if k == j then true else contains_key j m)
unfolding contains_key
contains_key-insert k j v m = ground (arith, get-insert k j v m)

module _ (p : Processes) where
  open p use {World, Process, Group, Session, Thread, pid, group, pgid, session, sid, tid, process}

  -- What an entry needs is entered too: a thread's process, a process's group, a group's session.
  pub record IsRegistered (w : World) (t : Tables p) : Type 0 where
    pub with_process :
        (k : ℕ) (x : Thread)
        → get k t.threads ≡ some x
        → contains_key (pid (process x)) t.processes ≡ true
    pub with_group :
        (k : ℕ) (x : Process)
        → get k t.processes ≡ some x
        → contains_key (pgid (group x w)) t.groups ≡ true
    pub with_session :
        (k : ℕ) (g : Group)
        → get k t.groups ≡ some g
        → contains_key (sid (session g)) t.sessions ≡ true

  module _ (w : World) where
    abbrev WithSessions : Tables p → Type 0
    WithSessions t =
        (k : ℕ) (g : Group)
        → get k t.groups ≡ some g
        → contains_key (sid (session g)) t.sessions ≡ true

    add_group-WithSessions :
        (g : Group) (t : Tables p) → WithSessions t → WithSessions (add_group p g t)
    add_group-WithSessions g t v = elim (Bool-cases (contains_key (pgid g) t.groups)) [
      | inl there ↦ rw there v
      | inr missing ↦ elim (Bool-cases (contains_key (sid (session g)) t.sessions)) [
        | inl old ↦
            rw (missing, old)
              (λ k h e. ground (arith, get-insert (pgid g) k g t.groups, v k h, old))
        | inr new ↦
            rw (missing, new)
              (λ k h e. ground (
                arith,
                get-insert (pgid g) k g t.groups,
                v k h,
                contains_key-insert (sid (session g)) (sid (session h)) (session g) t.sessions,
              ))
      ]
    ]

    -- The group is entered, and what was there stays.
    add_group_has :
        (g : Group) (t : Tables p)
        → (contains_key (pgid g) (add_group p g t).groups ≡ true)
          × ((k : ℕ)
              → contains_key k t.groups ≡ true
              → contains_key k (add_group p g t).groups ≡ true)
          × ((add_group p g t).processes ≡ t.processes)
          × ((add_group p g t).threads ≡ t.threads)
    add_group_has g t = elim (Bool-cases (contains_key (pgid g) t.groups)) [
      | inl there ↦ rw there (there, (λ k e. e), refl, refl)
      | inr missing ↦ elim (Bool-cases (contains_key (sid (session g)) t.sessions)) [
        | inl old ↦
            rw (missing, old)
              (
                ground (arith, contains_key-insert (pgid g) (pgid g) g t.groups),
                (λ k e. ground (arith, contains_key-insert (pgid g) k g t.groups)),
                refl,
                refl,
              )
        | inr new ↦
            rw (missing, new)
              (
                ground (arith, contains_key-insert (pgid g) (pgid g) g t.groups),
                (λ k e. ground (arith, contains_key-insert (pgid g) k g t.groups)),
                refl,
                refl,
              )
      ]
    ]

    -- The tables with a process that is not in them, before its group is entered.
    abbrev with_new : Process → Tables p → Tables p
    with_new x t = record t { processes = insert (pid x) x t.processes }

    abbrev WithGroups : Tables p → Type 0
    WithGroups t =
        (k : ℕ) (x : Process)
        → get k t.processes ≡ some x
        → contains_key (pgid (group x w)) t.groups ≡ true

    add_process-WithGroups :
        (x : Process) (t : Tables p)
        → WithGroups t
        → WithSessions t
        → WithGroups (add_process p x w t) × WithSessions (add_process p x w t)
    add_process-WithGroups x t v u = elim (Bool-cases (contains_key (pid x) t.processes)) [
      | inl there ↦ rw there (v, u)
      | inr missing ↦
          let (entered, kept, same_processes, same_threads) =
            add_group_has (group x w) (with_new x t) in
          rw missing (
            (λ k y. rw same_processes (λ e. elim (Bool-cases (pid x == k)) [
              | inl it ↦ ground (arith, e, get-insert (pid x) k x t.processes, entered)
              | inr other ↦
                  kept (pgid (group y w))
                    (v k y (ground (arith, e, get-insert (pid x) k x t.processes)))
            ])),
            add_group-WithSessions (group x w) (with_new x t) u,
          )
    ]

    process_entered :
        (x : Process) (t : Tables p)
        → (contains_key (pid x) (add_process p x w t).processes ≡ true)
          × ((k : ℕ)
              → contains_key k t.processes ≡ true
              → contains_key k (add_process p x w t).processes ≡ true)
          × ((add_process p x w t).threads ≡ t.threads)
    process_entered x t = elim (Bool-cases (contains_key (pid x) t.processes)) [
      | inl there ↦ rw there (there, (λ k e. e), refl)
      | inr missing ↦
          let (entered, kept, same_processes, same_threads) =
            add_group_has (group x w) (with_new x t) in
          rw (missing, same_processes, same_threads)
            (
              ground (arith, contains_key-insert (pid x) (pid x) x t.processes),
              (λ k e. ground (arith, contains_key-insert (pid x) k x t.processes)),
              refl,
            )
    ]

    -- `add_thread_to_table` keeps the tables registered: every thread's process, every process's group
    -- and every group's session is entered, though it stops at the first entry that it finds.
    pub add_thread_to_table-IsRegistered :
        (th : Thread) (t : Tables p)
        → IsRegistered w t
        → IsRegistered w (add_thread_to_table p th w t)
    unfolding add_thread_to_table
    add_thread_to_table-IsRegistered th t v =
        let x = process th in
        let t' = (let r : Tables p = record t { threads = insert (tid th) th t.threads } in r) in
        let (entered, kept, same_threads) = process_entered x t' in
        let (v', g') = add_process-WithGroups x t' v.with_group v.with_session in
        record {
          with_process = λ k y. rw same_threads (λ e. elim (Bool-cases (tid th == k)) [
            | inl it ↦ ground (arith, e, get-insert (tid th) k th t.threads, entered)
            | inr other ↦
                kept (pid (process y))
                  (v.with_process k y (ground (arith, e, get-insert (tid th) k th t.threads)))
          ]);
          with_group = v';
          with_session = g';
        }
