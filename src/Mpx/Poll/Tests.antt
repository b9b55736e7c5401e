-- ===== src/Mpx/Poll/Tests.antt =====
-- Two descriptors, the second of which is ready to be read.
use freeos.Prelude.{◌≡◌, refl, false, List, [], ◌∷◌, some, ◌==◌, if◌then◌else◌}
use freeos.Prelude.Errors.{ok}
use freeos.Mpx.{Moment, bad, polled, poll_with_timeout}
use freeos.Mpx.Poll.{PollFd, sys_poll, poll_fds, poll_slice, poll_fd, answered}
use freeos.Mpx.Poll.Ready.{CountsMarked, sys_poll-CountsMarked}

abbrev moment : Moment
moment = record {
  answer = λ fd. if fd == 3 then bad else polled (record { readable = fd == 5; writable = false });
  time = 100;
}

abbrev fds : List PollFd
fds = record { fd = 4; events = 1; revents = 0 } ∷ record { fd = 5; events = 1; revents = 0 } ∷ []

polls :
    sys_poll 0 (ok tt) 1000 (moment ∷ []) fds
    ≡ some (
      ok 1,
      record { fd = 4; events = 1; revents = 0 } ∷ record { fd = 5; events = 1; revents = 1 } ∷ [],
    )
unfolding sys_poll poll_with_timeout poll_fds poll_slice poll_fd answered
polls = refl

sys_poll-CountsMarked_example : CountsMarked (sys_poll 0 (ok tt) 1000 (moment ∷ []) fds)
sys_poll-CountsMarked_example = sys_poll-CountsMarked 0 1000 (ok tt) (moment ∷ []) fds
