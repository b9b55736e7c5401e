-- ===== src/Tasks/Groups.antt =====
-- What `sys_setpgid` does, and what it leaves out.
use freeos.Prelude.{
  ℕ, ◌≡◌, refl, ap, ◌∙◌, subst, Bool, true, false, Option, none, some, arith, ◌==◌, Bool-cases, inl,
  inr,
}
use freeos.Prelude.Errors.{LinuxResult, ok, err, ok_or, esrch}
use freeos.Prelude.Map.{get}
use freeos.Tasks.{
  Processes, IsProcesses, Tables, named, target_of, created, entered, move_into, moved, permitted,
  set_group, sys_getpgid, sys_setpgid, same_session,
}

module _ (p : Processes) (laws : IsProcesses p) (current : p.Process) where
  open p use {World, Process, Group, pid, group, pgid, create_group, move_to_group}

  -- After a success the process is in the group `target`.
  abbrev InGroup : Process → ℕ → LinuxResult ℕ × World → Type 0
  InGroup x target (ok n, w) = pgid (group x w) ≡ target
  InGroup x target (err e, w) = Unit {0}

  created-InGroup :
      (x : Process) (r : Option Group × World)
      → ((g : Group) → r.0 ≡ some g → (pgid g ≡ pid x) × (group x r.1 ≡ g))
      → InGroup x (pid x) (created p current r)
  created-InGroup x (none, w) law = tt
  created-InGroup x (some g, w) law = ap pgid (law g refl).1 ∙ (law g refl).0

  entered-InGroup :
      (x : Process) (g : Group) (r : Bool × World)
      → (r.0 ≡ true → group x r.1 ≡ g)
      → InGroup x (pgid g) (entered p current r)
  entered-InGroup x g (false, w) law = tt
  entered-InGroup x g (true, w) law = ap pgid (law refl)

  -- A group is entered under its number.
  abbrev pub IsKeyed : Tables p → Type 0
  IsKeyed t = (k : ℕ) (g : Group) → get k t.groups ≡ some g → pgid g ≡ k

  module _ (t : Tables p) (keyed : IsKeyed t) where
    found_group :
        (target : ℕ) (o : Option Group)
        → get target t.groups ≡ o
        → (x : Process) (w : World) → InGroup x target (move_into p current x (ok_or o esrch) w)
    found_group target none e x w = tt
    found_group target (some g) e x w = elim (Bool-cases (same_session p current g (group x w))) [
      | inl same ↦ rw same (
          subst (λ n. InGroup x n (entered p current (move_to_group x g w))) (keyed target g e)
            (entered-InGroup x g (move_to_group x g w) (laws.entered x g w)))
      | inr other ↦ rw other tt
    ]

    moved-InGroup :
        (x : Process) (target : ℕ) (w : World) (r : LinuxResult (Unit {0}))
        → InGroup x target (moved p current x target t w r)
    moved-InGroup x target w (err e) = tt
    moved-InGroup x target w (ok u) = elim (Bool-cases (target == pid x)) [
      | inl own ↦
          let its : pid x ≡ target = ground (arith, own) in
          rw own (
            subst (λ n. InGroup x n (created p current (create_group x w))) its
              (created-InGroup x (create_group x w) (laws.created x w)))
      | inr other ↦ rw other (found_group target (get target t.groups) refl x w)
    ]

    set_group-InGroup :
        (x : Process) (group_id : ℕ) (w : World)
        → InGroup x (target_of p current group_id x) (set_group p current (ok x) group_id t w)
    set_group-InGroup x group_id w =
        let target = target_of p current group_id x in
        elim (Bool-cases (target == pgid (group x w))) [
          | inl there ↦ rw there (let e : pgid (group x w) ≡ target = ground (arith, there) in e)
          | inr other ↦ rw other (moved-InGroup x target w (permitted p current x w))
        ]

    in_group :
        (x : Process) (target n : ℕ) (r : LinuxResult ℕ × World)
        → InGroup x target r
        → r.0 ≡ ok n
        → pgid (group x r.1) ≡ target
    in_group x target n (ok k, w) h e = h
    in_group x target n (err b, w) h e = cc

    -- After a successful `sys_setpgid` of a process that the tables list, or of the caller by 0,
    -- `sys_getpgid` of it gives the group that was asked for, where 0 stands for the process's own number.
    pub sys_setpgid-sys_getpgid :
        (k group_id n : ℕ) (w : World) (x : Process)
        → named p current k t ≡ ok x
        → (sys_setpgid p current k group_id t w).0 ≡ ok n
        → sys_getpgid p current k t (sys_setpgid p current k group_id t w).1
          ≡ ok (target_of p current group_id x)
    unfolding sys_setpgid sys_getpgid
    sys_setpgid-sys_getpgid k group_id n w x it = rw it (λ e. ap ok (
        in_group x (target_of p current group_id x) n (set_group p current (ok x) group_id t w)
          (set_group-InGroup x group_id w) e))
