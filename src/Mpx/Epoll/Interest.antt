-- ===== src/Mpx/Epoll/Interest.antt =====
-- What `epoll_ctl` makes of the interest list, and what `epoll_wait` reports of it.
use freeos.Prelude.{
  ℕ, zero, suc, ◌+◌, ◌≡◌, refl, ap, ◌∙◌, ◌⊎◌, ◌*◌, false, not, List, [], ◌∷◌, Option, none, some,
  is_some, arith, ◌==◌, if◌then◌else◌, length, take, Bool-cases, inl, inr,
}
use freeos.Prelude.Errors.{ok, err, LinuxResult}
use freeos.Prelude.Words.{usize_as_i32, is_nonpos, is_negative}
use freeos.Prelude.Map.{get, contains_key, get-insert, get-remove}
use freeos.Mpx.{Answer, expired}
use freeos.Mpx.Epoll.{
  EpollEvent, Instance, ctl_add, ctl_del, ctl_mod, control, control_open, report, written, poll_all,
  Look, wait_loop, sys_epoll_wait, deliver,
}

-- A failed call changes nothing. A successful one enters the event under the descriptor, or takes
-- its entry out, and leaves the others alone; an entry was there unless it is new.
abbrev pub Controls : ℕ → ℕ → EpollEvent → Instance → LinuxResult ℕ × Instance → Type 0
Controls op fd ev m (err e, m') = m' ≡ m
Controls op fd ev m (ok n, m') =
    (n ≡ 0)
    × (is_some (get fd m) ≡ not (op == ctl_add))
    × ((j : ℕ)
        → get j m' ≡ (if fd == j then (if op == ctl_del then none else some ev) else get j m))

control_open-Controls :
    (op fd : ℕ) (ev : EpollEvent) (m : Instance) → Controls op fd ev m (control_open op fd ev m)
unfolding contains_key
control_open-Controls op fd ev m = elim (Bool-cases (op == ctl_add)) [
  | inl add ↦ rw add (elim (Bool-cases (is_some (get fd m))) [
    | inl there ↦ rw there refl
    | inr absent ↦
        let kind : (op == ctl_del) ≡ false = ground arith in
        rw (absent, add, kind) (refl, absent, λ j. get-insert fd j ev m)
  ])
  | inr not_add ↦ rw not_add (elim (Bool-cases (is_some (get fd m))) [
    | inl there ↦ elim (Bool-cases (op == ctl_mod)) [
      | inl modify ↦
          let kind : (op == ctl_del) ≡ false = ground arith in
          rw (modify, there, not_add, kind) (refl, there, λ j. get-insert fd j ev m)
      | inr not_mod ↦ rw not_mod (elim (Bool-cases (op == ctl_del)) [
        | inl delete ↦ rw (delete, there, not_add, delete) (refl, there, λ j. get-remove fd j m)
        | inr unknown ↦ rw unknown refl
      ])
    ]
    | inr absent ↦ elim (Bool-cases (op == ctl_mod)) [
      | inl modify ↦ rw (modify, absent) refl
      | inr not_mod ↦ rw not_mod (elim (Bool-cases (op == ctl_del)) [
        | inl delete ↦ rw (delete, absent) refl
        | inr unknown ↦ rw unknown refl
      ])
    ]
  ])
]

-- A failed call of `control` changes nothing; a successful one returns 0, enters the event under
-- the descriptor or takes its entry out, as its operation says, leaves the other entries alone,
-- and finds no entry before exactly when it adds one.
control-Controls :
    (file : LinuxResult (Unit {0})) (op fd : ℕ) (ev : EpollEvent) (m : Instance)
    → Controls op fd ev m (control file op fd ev m)
unfolding control
control-Controls (err e) op fd ev m = refl
control-Controls (ok u) op fd ev m = control_open-Controls op fd ev m

-- All that the entries have to report, in the order of the descriptors.
abbrev and_then : Option EpollEvent → List EpollEvent → List EpollEvent
and_then none l = l
and_then (some e) l = e ∷ l

pub reports : (ℕ → Answer) → Instance → List EpollEvent
reports answer [] = []
reports answer ((fd, ev) ∷ m) = and_then (report ev (answer (usize_as_i32 fd))) (reports answer m)

written-take :
    (r : Option EpollEvent) (room : ℕ) (l same fewer : List EpollEvent)
    → same ≡ take (suc room) l
    → fewer ≡ take room l
    → written r same fewer ≡ take (suc room) (and_then r l)
written-take none room l same fewer e e' = e
written-take (some x) room l same fewer e e' = ap (λ t. x ∷ t) e'

-- `poll_all` gives the first of all events that there are to report, as many as fit the buffer.
poll_all-take :
    (answer : ℕ → Answer) (room : ℕ) (m : Instance)
    → poll_all answer room m ≡ take room (reports answer m)
unfolding poll_all reports
poll_all-take answer zero [] = refl
poll_all-take answer (suc room) [] = refl
poll_all-take answer zero (entry ∷ m) = refl
poll_all-take answer (suc room) ((fd, ev) ∷ m) =
    written-take (report ev (answer (usize_as_i32 fd))) room (reports answer m)
      (poll_all answer (suc room) m) (poll_all answer room m) (poll_all-take answer (suc room) m)
      (poll_all-take answer room m)

-- At some look of the run these were the first events, as many as the caller has room for.
abbrev pub SeenIn : ℕ → List EpollEvent → List Look → Type 0
SeenIn maxevents found [] = ⊥
SeenIn maxevents found (l ∷ run) =
    (found ≡ take maxevents (reports l.moment.answer l.interest)) ⊎ SeenIn maxevents found run

wait_loop_seen :
    (deadline : Option ℕ) (access : LinuxResult (Unit {0})) (maxevents : ℕ) (run : List Look)
    (found : List EpollEvent)
    → wait_loop deadline access maxevents run ≡ some (ok found)
    → (found ≡ []) ⊎ SeenIn maxevents found run
unfolding wait_loop
wait_loop_seen deadline access maxevents [] found e = cc
wait_loop_seen deadline access maxevents (l ∷ run) found e =
    let events = poll_all l.moment.answer maxevents l.interest in
    elim (Bool-cases (length events == 0)) [
      | inr ready ↦
          let same : found ≡ events = delivered access (ground (arith, ready, e)) in
          inr (inl (same ∙ poll_all-take l.moment.answer maxevents l.interest))
      | inl quiet ↦ elim (Bool-cases (expired deadline l.moment.time)) [
        | inl late ↦ inl (ground (arith, quiet, late, e))
        | inr early ↦
            elim (wait_loop_seen deadline access maxevents run found
              (ground (arith, quiet, early, e))) [
                | inl nothing ↦ inl nothing
                | inr seen ↦ inr (inr seen)
              ]
      ]
    ]
  where
    delivered :
        {events : List EpollEvent} (access : LinuxResult (Unit {0}))
        → some (deliver access events) ≡ some (ok found)
        → found ≡ events
    delivered (err x) d = cc
    delivered (ok u) d = cc

-- The events that `epoll_wait` on an open instance returns are none, or the first that the
-- interest list had to report at one look, at most as many as asked for.
sys_epoll_wait_seen :
    (now : ℕ) (access : LinuxResult (Unit {0})) (maxevents timeout : ℕ) (run : List Look)
    (found : List EpollEvent)
    → sys_epoll_wait now (ok tt) access maxevents timeout run ≡ some (ok found)
    → (found ≡ []) ⊎ SeenIn maxevents found run
unfolding sys_epoll_wait
sys_epoll_wait_seen now access maxevents timeout run found e =
    elim (Bool-cases (is_nonpos maxevents)) [
      | inl bad_size ↦ absurd (ground (arith, bad_size, e))
      | inr fine ↦
          wait_loop_seen (if is_negative timeout then none else some (now + timeout * 1000000))
            access maxevents run found (ground (arith, fine, e))
    ]
