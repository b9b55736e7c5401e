-- ===== src/Wait/Reap.antt =====
-- Which child `waitpid` reports, and when it returns.
use freeos.Prelude.{
  ℕ, subst, ◌≡◌, ◌≢◌, ◌⊎◌, refl, Bool, true, List, [], ◌∷◌, Option, none, some, is_some, arith,
  Bool-cases, Option-cases, inl, inr, if◌then◌else◌,
}
use freeos.Prelude.Errors.{ok, err, LinuxResult, echild}
use freeos.Prelude.Words.{has_bits}
use freeos.Prelude.UserPtr.{UserPtr, nullable}
use freeos.Wait.{
  Child, Status, wait_pid, eligible, filter, find, Waited, failed, no_child_yet, reaped, wait_loop,
  after_pointer, among, sys_waitpid, wnohang, wnowait,
}

-- `a` is in the list.
unfoldable pub In : {A : Type 0} → A → List A → Type 0
In a [] = ⊥
In a (b ∷ l) = (a ≡ b) ⊎ In a l

find-some :
    (p : Child → Bool) (cs : List Child) (c : Child) → find p cs ≡ some c → In c cs × (p c ≡ true)
unfolding find In
find-some p [] c e = cc
find-some p (d ∷ cs) c e = elim (Bool-cases (p d)) [
  | inl it ↦ let same : d ≡ c = ground (arith, it) in rw (← same) (inl refl, it)
  | inr other ↦ let (there, holds) = find-some p cs c (ground (arith, other)) in (inr there, holds)
]

find-none :
    (p : Child → Bool) (cs : List Child) (c : Child) → In c cs → p c ≡ true → find p cs ≢ none
unfolding find In
find-none p [] c there holds = absurd there
find-none p (d ∷ cs) c (inl it) holds = rw (← it, holds) (ground arith)
find-none p (d ∷ cs) c (inr there) holds = ground (arith, find-none p cs c there holds)

filter-In :
    (p : Child → Bool) (cs : List Child) (c : Child) → In c (filter p cs) → In c cs × (p c ≡ true)
unfolding filter In
filter-In p [] c i = absurd i
filter-In p (d ∷ cs) c i = elim (Bool-cases (p d)) [
  | inl it ↦
      let kept : filter p (d ∷ cs) ≡ d ∷ filter p cs = rw it refl in
      let i' : In c (d ∷ filter p cs) = subst (In c) kept i in
      elim i' [
        | inl same ↦ (inl same, rw same it)
        | inr there ↦ let (within, holds) = filter-In p cs c there in (inr within, holds)
      ]
  | inr other ↦
      let dropped : filter p (d ∷ cs) ≡ filter p cs = rw other refl in
      let (within, holds) = filter-In p cs c (subst (In c) dropped i) in (inr within, holds)
]

In-filter :
    (p : Child → Bool) (cs : List Child) (c : Child) → In c cs → p c ≡ true → In c (filter p cs)
unfolding filter In
In-filter p [] c i holds = i
In-filter p (d ∷ cs) c (inl same) holds =
    let here : p d ≡ true = rw (← same) holds in rw here (inl same)
In-filter p (d ∷ cs) c (inr there) holds = elim (Bool-cases (p d)) [
  | inl it ↦ rw it (inr (In-filter p cs c there holds))
  | inr other ↦ rw other (In-filter p cs c there holds)
]

-- No child is freed and no exit code written; or a child is reported that was a zombie at some
-- look, with its own pid, and freed unless the caller wants it left.
abbrev pub Reports : (Child → Type 0) → ℕ → List Status → Waited → Type 0
Reports P options run w =
    ((w.freed ≡ none) × (w.written ≡ none))
    ⊎ ((c : Child) × (s : Status) × P c
        × In s run
        × (s.is_zombie c ≡ true)
        × (w.result ≡ ok c.pid)
        × (w.freed ≡ (if has_bits options wnowait then none else some c)))

wait_loop-Reports :
    (options : ℕ) (wants : Bool) (cs : List Child) (run : List Status) (w : Waited)
    → wait_loop options wants cs run ≡ some w
    → Reports (λ c. In c cs) options run w
unfolding wait_loop In reaped
wait_loop-Reports options wants cs [] w e = cc
wait_loop-Reports options wants cs (s ∷ run) w e = elim (Option-cases (find s.is_zombie cs)) [
  | inr (c, found) ↦
      let (within, zombie) = find-some s.is_zombie cs c found in
      let it : reaped options wants s c ≡ w = ground (arith, found) in
      rw (← it) (inr (c, s, within, inl refl, zombie, refl, refl))
  | inl nothing ↦ elim (Bool-cases (has_bits options wnohang)) [
    | inl nohang ↦
        let it : no_child_yet ≡ w = ground (arith, nothing, nohang) in rw (← it) (inl (refl, refl))
    | inr hang ↦ elim (wait_loop-Reports options wants cs run w (ground (arith, nothing, hang))) [
      | inl quiet ↦ inl quiet
      | inr (c, t, within, in_run, zombie, result, freed) ↦
          inr (c, t, within, inr in_run, zombie, result, freed)
    ]
  ]
]

after_pointer-Reports :
    (options : ℕ) (cs : List Child) (run : List Status) (place : LinuxResult (Option (Unit {0})))
    (w : Waited)
    → after_pointer options cs run place ≡ some w
    → Reports (λ c. In c cs) options run w
after_pointer-Reports options cs run (err e) w it =
    let same : failed e ≡ w = ground (arith, it) in rw (← same) (inl (refl, refl))
after_pointer-Reports options cs run (ok place) w it =
    wait_loop-Reports options (is_some place) cs run w it

among-Reports :
    (options : ℕ) (ptr : UserPtr (Unit {0})) (run : List Status) (cs : List Child) (w : Waited)
    → among options ptr run cs ≡ some w
    → Reports (λ c. In c cs) options run w
among-Reports options ptr run [] w it =
    let same : failed echild ≡ w = ground (arith, it) in rw (← same) (inl (refl, refl))
among-Reports options ptr run (c ∷ cs) w it =
    after_pointer-Reports options (c ∷ cs) run (nullable ptr) w it

-- A child of the caller that `pid` and the options select.
abbrev pub Selected : ℕ → List Child → ℕ → ℕ → Child → Type 0
Selected own all pid options c = In c all × (eligible options (wait_pid own pid) c ≡ true)

-- When `waitpid` returns, either it freed no child and wrote no exit code, or it reports a selected
-- child that was a zombie at some look, and frees that one, unless `WNOWAIT` is set.
pub sys_waitpid-Reports :
    (own : ℕ) (all : List Child) (pid : ℕ) (ptr : UserPtr (Unit {0})) (options : ℕ)
    (run : List Status) (w : Waited)
    → sys_waitpid own all pid ptr options run ≡ some w
    → Reports (Selected own all pid options) options run w
unfolding sys_waitpid
sys_waitpid-Reports own all pid ptr options run w it =
    elim (among-Reports options ptr run (filter (eligible options (wait_pid own pid)) all) w it) [
      | inl quiet ↦ inl quiet
      | inr (c, s, within, in_run, zombie, result, freed) ↦ inr (
        c,
        s,
        filter-In (eligible options (wait_pid own pid)) all c within,
        in_run,
        zombie,
        result,
        freed,
      )
    ]

wait_loop_returns :
    (options : ℕ) (wants : Bool) (cs : List Child) (run : List Status) (c : Child) (s : Status)
    → In c cs
    → In s run
    → s.is_zombie c ≡ true
    → (w : Waited) × (wait_loop options wants cs run ≡ some w)
unfolding wait_loop In
wait_loop_returns options wants cs [] c s within in_run zombie = absurd in_run
wait_loop_returns options wants cs (t ∷ run) c s within in_run zombie =
    elim (Option-cases (find t.is_zombie cs)) [
      | inr (d, found) ↦ (reaped options wants t d, rw (wait_loop, found) refl)
      | inl nothing ↦ elim (Bool-cases (has_bits options wnohang)) [
        | inl nohang ↦ (no_child_yet, rw (wait_loop, nothing, nohang) refl)
        | inr hang ↦ elim in_run [
          | inl same ↦ absurd (find-none t.is_zombie cs c within (rw (← same) zombie) nothing)
          | inr later ↦
              let (w, returned) = wait_loop_returns options wants cs run c s within later zombie in
              (w, rw (wait_loop, nothing, hang) returned)
        ]
      ]
    ]

after_pointer_returns :
    (options : ℕ) (cs : List Child) (run : List Status) (place : LinuxResult (Option (Unit {0})))
    (c : Child) (s : Status)
    → In c cs
    → In s run
    → s.is_zombie c ≡ true
    → (w : Waited) × (after_pointer options cs run place ≡ some w)
after_pointer_returns options cs run (err e) c s within in_run zombie = (failed e, refl)
after_pointer_returns options cs run (ok place) c s within in_run zombie =
    wait_loop_returns options (is_some place) cs run c s within in_run zombie

among_returns :
    (options : ℕ) (ptr : UserPtr (Unit {0})) (run : List Status) (cs : List Child) (c : Child)
    (s : Status)
    → In c cs
    → In s run
    → s.is_zombie c ≡ true
    → (w : Waited) × (among options ptr run cs ≡ some w)
among_returns options ptr run [] c s within in_run zombie = (failed echild, refl)
among_returns options ptr run (d ∷ cs) c s within in_run zombie =
    after_pointer_returns options (d ∷ cs) run (nullable ptr) c s within in_run zombie

-- `waitpid` returns when a child that the arguments select is a zombie at some look of the run.
pub sys_waitpid_returns :
    (own : ℕ) (all : List Child) (pid : ℕ) (ptr : UserPtr (Unit {0})) (options : ℕ)
    (run : List Status) (c : Child) (s : Status)
    → Selected own all pid options c
    → In s run
    → s.is_zombie c ≡ true
    → (w : Waited) × (sys_waitpid own all pid ptr options run ≡ some w)
unfolding sys_waitpid
sys_waitpid_returns own all pid ptr options run c s (within, chosen) in_run zombie =
    among_returns options ptr run (filter (eligible options (wait_pid own pid)) all) c s
      (In-filter (eligible options (wait_pid own pid)) all c within chosen) in_run zombie
