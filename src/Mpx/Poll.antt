-- ===== src/Mpx/Poll.antt =====
-- poll.rs: `poll` and `ppoll`. The array of `pollfd` is read from the user, and written back. Times are
-- in nanoseconds; `handle_empty_nfds` only sleeps.
pub mod Ready
mod Tests
use freeos.Prelude.{
  ℕ, zero, suc, ◌+◌, ◌*◌, Bool, true, false, not, ◌&&◌, List, [], ◌∷◌, Option, none, some, ltb,
  ◌==◌, if◌then◌else◌,
}
use freeos.Prelude.Errors.{Result, ok, err, LinuxError, LinuxResult}
use freeos.Prelude.Words.{is_negative, has_bits}
use freeos.Prelude.UserPtr.{UserPtr, nullable}
use freeos.Mpx.{PollState, Answer, bad, failing, polled, Moment, poll_with_timeout}

pub record PollFd : Type 0 where
  pub fd : ℕ
  pub events : ℕ
  pub revents : ℕ

abbrev pollin : ℕ
pollin = 1

abbrev pollout : ℕ
pollout = 4

abbrev pollerr : ℕ
pollerr = 8

abbrev pollnval : ℕ
pollnval = 32

-- `POLLIN` and `POLLOUT` are different bits: setting both is adding them.
abbrev state_revents : ℕ → PollState → ℕ
state_revents events s =
    (if has_bits events pollin && s.readable then pollin else 0)
    + (if has_bits events pollout && s.writable then pollout else 0)

-- One turn of the loop, for a descriptor that is not negative: what is added to `ready_count`, and
-- the entry as it is written.
pub answered : PollFd → Answer → ℕ × PollFd
answered p bad = (1, record p { revents = pollnval })
answered p failing = (1, record p { revents = pollerr })
answered p (polled s) =
    let revents = state_revents p.events s in
    ((if revents == 0 then 0 else 1), record p { revents = revents })

pub poll_fd : (ℕ → Answer) → PollFd → ℕ × PollFd
poll_fd answer p =
    if is_negative p.fd then (0, record p { revents = 0 }) else answered p (answer p.fd)

pub poll_slice : (ℕ → Answer) → List PollFd → ℕ × List PollFd
poll_slice answer [] = (0, [])
poll_slice answer (p ∷ ps) =
    let (n, q) = poll_fd answer p in let (m, qs) = poll_slice answer ps in (n + m, q ∷ qs)

-- `get_as_mut_slice` checks the access at every look.
abbrev pub checked :
    LinuxResult (Unit {0}) → ℕ × List PollFd → List PollFd → LinuxResult (Option ℕ) × List PollFd
checked (err e) out ps = (err e, ps)
checked (ok u) (n, qs) ps = (ok (if n == 0 then none else some n), qs)

pub poll_fds : LinuxResult (Unit {0}) → Moment → List PollFd → LinuxResult (Option ℕ) × List PollFd
poll_fds access t ps = checked access (poll_slice t.answer ps) ps

abbrev ready_or_zero : LinuxResult (Option ℕ) → LinuxResult ℕ
ready_or_zero (err e) = err e
ready_or_zero (ok none) = ok 0
ready_or_zero (ok (some n)) = ok n

abbrev pub finished :
    Option (LinuxResult (Option ℕ) × List PollFd) → Option (LinuxResult ℕ × List PollFd)
finished none = none
finished (some (r, ps)) = some (ready_or_zero r, ps)

-- `wall_time() + timeout`, unless the timeout is negative; in nanoseconds.
unfoldable pub deadline_ms : ℕ → ℕ → Option ℕ
deadline_ms now timeout_ms =
    if is_negative timeout_ms then none else some (now + timeout_ms * 1000000)

-- `handle_empty_nfds` only sleeps.
pub sys_poll :
    ℕ
    → LinuxResult (Unit {0})
    → ℕ
    → List Moment
    → List PollFd
    → Option (LinuxResult ℕ × List PollFd)
sys_poll now access timeout_ms run [] = some (ok 0, [])
sys_poll now access timeout_ms run (p ∷ ps) =
    finished (poll_with_timeout (deadline_ms now timeout_ms) (poll_fds access) run (p ∷ ps))

-- A `timespec`, as its seconds and nanoseconds.
unfoldable deadline_ts : ℕ → Option (ℕ × ℕ) → Option ℕ
deadline_ts now none = none
deadline_ts now (some (tv_sec, tv_nsec)) = some (now + tv_sec * 1000000000 + tv_nsec)

abbrev ppoll_with :
    ℕ
    → LinuxResult (Unit {0})
    → LinuxResult (Option (ℕ × ℕ))
    → List Moment
    → List PollFd
    → Option (LinuxResult ℕ × List PollFd)
ppoll_with now access (err e) run ps = some (err e, ps)
ppoll_with now access (ok timeout) run [] = some (ok 0, [])
ppoll_with now access (ok timeout) run (p ∷ ps) =
    finished (poll_with_timeout (deadline_ts now timeout) (poll_fds access) run (p ∷ ps))

unfoldable sys_ppoll :
    ℕ
    → LinuxResult (Unit {0})
    → UserPtr (ℕ × ℕ)
    → List Moment
    → List PollFd
    → Option (LinuxResult ℕ × List PollFd)
sys_ppoll now access timeout run ps = ppoll_with now access (nullable timeout) run ps
