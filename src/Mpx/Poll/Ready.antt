-- ===== src/Mpx/Poll/Ready.antt =====
-- `poll` counts the entries that it marks.
use freeos.Prelude.{
  ℕ, ◌+◌, ◌≡◌, sym, refl, Bool, true, false, List, [], ◌∷◌, Option, none, some, arith, ◌==◌,
  if◌then◌else◌, Bool-cases, inl, inr,
}
use freeos.Prelude.Errors.{ok, err, LinuxResult}
use freeos.Mpx.{Answer, bad, failing, polled, Moment, poll_with_timeout, expired, decided}
use freeos.Mpx.Poll.{
  PollFd, answered, poll_fd, poll_slice, checked, poll_fds, finished, deadline_ms, sys_poll,
}

-- The entries with an event.
pub marked : List PollFd → ℕ
marked [] = 0
marked (p ∷ ps) = (if p.revents == 0 then 0 else 1) + marked ps

-- What an entry counts.
abbrev weight : PollFd → ℕ
weight p = if p.revents == 0 then 0 else 1

answered-weight : (p : PollFd) (a : Answer) → (answered p a).0 ≡ weight (answered p a).1
unfolding answered
answered-weight p bad = refl
answered-weight p failing = refl
answered-weight p (polled s) = refl

poll_fd-weight :
    (answer : ℕ → Answer) (p : PollFd) → (poll_fd answer p).0 ≡ weight (poll_fd answer p).1
unfolding poll_fd
poll_fd-weight answer p = ground (arith, answered-weight p (answer p.fd))

poll_slice-marked :
    (answer : ℕ → Answer) (ps : List PollFd)
    → (poll_slice answer ps).0 ≡ marked (poll_slice answer ps).1
unfolding poll_slice marked
poll_slice-marked answer [] = refl
poll_slice-marked answer (p ∷ ps) =
    ground (arith, poll_fd-weight answer p, poll_slice-marked answer ps)

-- The number returned is that of the entries with an event.
abbrev pub CountsMarked : Option (LinuxResult ℕ × List PollFd) → Type 0
CountsMarked none = Unit {0}
CountsMarked (some (err e, ps)) = Unit {0}
CountsMarked (some (ok n, ps)) = n ≡ marked ps

-- What one look gives: the number of entries with an event, or none when there is no such entry.
abbrev Looked : LinuxResult (Option ℕ) × List PollFd → Type 0
Looked (err e, ps) = Unit {0}
Looked (ok none, ps) = marked ps ≡ 0
Looked (ok (some n), ps) = n ≡ marked ps

checked-Looked :
    (access : LinuxResult (Unit {0})) (n : ℕ) (qs ps : List PollFd)
    → n ≡ marked qs
    → Looked (checked access (n, qs) ps)
checked-Looked (err e) n qs ps same = tt
checked-Looked (ok u) n qs ps same = elim (Bool-cases (n == 0)) [
  | inl nothing ↦ rw nothing (ground (arith, same))
  | inr ready ↦ rw ready same
]

poll_fds-Looked :
    (access : LinuxResult (Unit {0})) (t : Moment) (ps : List PollFd)
    → Looked (poll_fds access t ps)
unfolding poll_fds
poll_fds-Looked access t ps =
    checked-Looked access (poll_slice t.answer ps).0 (poll_slice t.answer ps).1 ps
      (poll_slice-marked t.answer ps)

decided-CountsMarked :
    (late : Bool) (out : LinuxResult (Option ℕ) × List PollFd)
    (rest : List PollFd → Option (LinuxResult (Option ℕ) × List PollFd))
    → Looked out
    → ((ps : List PollFd) → CountsMarked (finished (rest ps)))
    → CountsMarked (finished (decided late out rest))
decided-CountsMarked late (err e, ps) rest l c = tt
decided-CountsMarked late (ok (some n), ps) rest l c = l
decided-CountsMarked true (ok none, ps) rest l c = sym l
decided-CountsMarked false (ok none, ps) rest l c = c ps

loop-CountsMarked :
    (deadline : Option ℕ) (access : LinuxResult (Unit {0})) (run : List Moment) (ps : List PollFd)
    → CountsMarked (finished (poll_with_timeout deadline (poll_fds access) run ps))
unfolding poll_with_timeout
loop-CountsMarked deadline access [] ps = tt
loop-CountsMarked deadline access (t ∷ run) ps =
    decided-CountsMarked (expired deadline t.time) (poll_fds access t ps)
      (poll_with_timeout deadline (poll_fds access) run) (poll_fds-Looked access t ps)
      (λ qs. loop-CountsMarked deadline access run qs)

-- When `poll` returns a number, it is the number of entries that it left with an event.
pub sys_poll-CountsMarked :
    (now timeout_ms : ℕ) (access : LinuxResult (Unit {0})) (run : List Moment) (ps : List PollFd)
    → CountsMarked (sys_poll now access timeout_ms run ps)
unfolding sys_poll marked
sys_poll-CountsMarked now timeout_ms access run [] = refl
sys_poll-CountsMarked now timeout_ms access run (p ∷ ps) =
    loop-CountsMarked (deadline_ms now timeout_ms) access run (p ∷ ps)
