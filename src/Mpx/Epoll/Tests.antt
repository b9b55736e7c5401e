-- ===== src/Mpx/Epoll/Tests.antt =====
-- An interest list with two descriptors.
use freeos.Prelude.{ℕ, ◌≡◌, refl, true, [], ◌∷◌, some, ◌==◌}
use freeos.Prelude.Errors.{ok}
use freeos.Mpx.{polled}
use freeos.Mpx.Epoll.{EpollEvent, Instance, Look, poll_all, report, sys_epoll_wait, wait_loop}

abbrev reading : ℕ → EpollEvent
reading n = record { events = 1; «data» = n }

abbrev interest : Instance
interest = (3, reading 30) ∷ (5, reading 50) ∷ []

abbrev look : Look
look = record {
  moment = record {
    answer = λ fd. polled (record { readable = fd == 5; writable = true });
    time = 0;
  };
  interest = interest;
}

waits : sys_epoll_wait 0 (ok tt) (ok tt) 8 1000 (look ∷ []) ≡ some (ok (reading 50 ∷ []))
unfolding sys_epoll_wait wait_loop poll_all report
waits = refl
