-- ===== src/Mpx.antt =====
-- api/src/imp/fs/io_mpx/: `poll`, `select` and `epoll`. What a descriptor's file answers to `poll` at some
-- time is given as a function: an error when the descriptor is not open, and else what the file's own
-- `poll` gives. The network's `poll_interfaces` and `yield_now` give the processor away: a run is the
-- list of the moments at which the loop looks, each with its answers and the clock behind it.
pub mod Poll
pub mod Epoll
pub mod Select
use freeos.Prelude.{
  ◌≡◌, ◌⊎◌, refl, ◌||◌, Bool-cases, inl, inr, arith, ℕ, Bool, true, false, List, [], ◌∷◌, Option,
  none, some, leb, if◌then◌else◌,
}
use freeos.Prelude.Errors.{Result, ok, err, LinuxError, LinuxResult}

-- `axio::PollState`
pub record PollState : Type 0 where
  pub readable : Bool
  pub writable : Bool

-- `get_file_like(fd)` and the file's `poll()`: the descriptor is bad, the poll fails, or its state.
pub data Answer : Type 0 where
  bad : Answer
  failing : Answer
  polled : PollState → Answer

-- One pass of the loop: the answers, and the time when the pass ends.
pub record Moment : Type 0 where
  pub answer : ℕ → Answer
  pub time : ℕ

-- `deadline.is_some_and(|ddl| wall_time() >= ddl)`
unfoldable pub expired : Option ℕ → ℕ → Bool
expired none now = false
expired (some ddl) now = leb ddl now

-- The loop over the moments, over the user's memory `S`; `none` while it still waits when the run
-- ends.
abbrev pub decided :
    {S R : Type 0}
    → Bool
    → LinuxResult (Option R) × S
    → (S → Option (LinuxResult (Option R) × S))
    → Option (LinuxResult (Option R) × S)
decided late (err e, s) rest = some (err e, s)
decided late (ok (some r), s) rest = some (ok (some r), s)
decided late (ok none, s) rest = if late then some (ok none, s) else rest s

pub poll_with_timeout :
    {S R : Type 0}
    → Option ℕ
    → (Moment → S → LinuxResult (Option R) × S)
    → List Moment
    → S
    → Option (LinuxResult (Option R) × S)
poll_with_timeout deadline poll_fn [] s = none
poll_with_timeout deadline poll_fn (t ∷ run) s =
    decided (expired deadline t.time) (poll_fn t s) (poll_with_timeout deadline poll_fn run)

-- Some pass of the run ends at the deadline or behind it.
unfoldable reaches : Option ℕ → List Moment → Bool
reaches deadline [] = false
reaches deadline (t ∷ run) = expired deadline t.time || reaches deadline run

decided_returns :
    {S R : Type 0} (late : Bool) (out : LinuxResult (Option R) × S)
    (rest : S → Option (LinuxResult (Option R) × S))
    → (late ≡ true) ⊎ ((s : S) → (r : LinuxResult (Option R) × S) × (rest s ≡ some r))
    → (r : LinuxResult (Option R) × S) × (decided late out rest ≡ some r)
decided_returns late (err e, s) rest h = ((err e, s), refl)
decided_returns late (ok (some r), s) rest h = ((ok (some r), s), refl)
decided_returns late (ok none, s) rest (inl is_late) = ((ok none, s), rw is_late refl)
decided_returns true (ok none, s) rest (inr later) = ((ok none, s), refl)
decided_returns false (ok none, s) rest (inr later) = later s

-- The polling loop returns, whatever it polls, once a pass ends at the deadline or behind it.
poll_with_timeout_returns :
    {S R : Type 0} (deadline : Option ℕ) (poll_fn : Moment → S → LinuxResult (Option R) × S)
    (run : List Moment) (s : S)
    → reaches deadline run ≡ true
    → (r : LinuxResult (Option R) × S) × (poll_with_timeout deadline poll_fn run s ≡ some r)
unfolding poll_with_timeout reaches
poll_with_timeout_returns deadline poll_fn [] s e = cc
poll_with_timeout_returns deadline poll_fn (t ∷ run) s e =
    elim (Bool-cases (expired deadline t.time)) [
      | inl late ↦
          decided_returns (expired deadline t.time) (poll_fn t s)
            (poll_with_timeout deadline poll_fn run) (inl late)
      | inr early ↦
          decided_returns (expired deadline t.time) (poll_fn t s)
            (poll_with_timeout deadline poll_fn run)
            (inr
              (λ s'. poll_with_timeout_returns deadline poll_fn run s' (ground (arith, early, e))))
    ]
