-- ===== src/Mpx/Epoll.antt =====
-- epoll.rs: the interest list of an `EpollInstance`, in the ascending order of its `BTreeMap`, and the
-- system calls. A descriptor's table entry, and what the user's memory answers, are arguments. While
-- `epoll_wait` waits, others may change the interest list: each look has its own.
pub mod Interest
mod Tests
use freeos.Prelude.{
  ℕ, zero, suc, ◌+◌, ◌*◌, Bool, true, false, not, ◌&&◌, List, [], ◌∷◌, Option, none, some, ◌==◌,
  if◌then◌else◌, length,
}
use freeos.Prelude.Errors.{Result, ok, err, LinuxError, LinuxResult, eexist, enoent, einval}
use freeos.Prelude.Words.{is_negative, is_nonpos, has_bits, i32_as_usize, usize_as_i32}
use freeos.Prelude.Map.{Map, get, contains_key, insert, remove}
use freeos.Prelude.UserPtr.{UserPtr}
use freeos.FdTable.{FlattenObjects, add_file_like}
use freeos.Mpx.{PollState, Answer, bad, failing, polled, Moment, expired}

pub record EpollEvent : Type 0 where
  pub events : ℕ
  pub «data» : ℕ

abbrev epollin : ℕ
epollin = 1

abbrev epollout : ℕ
epollout = 4

abbrev epollerr : ℕ
epollerr = 8

abbrev pub ctl_add : ℕ
ctl_add = 1

abbrev pub ctl_del : ℕ
ctl_del = 2

abbrev pub ctl_mod : ℕ
ctl_mod = 3

-- The interest list.
abbrev pub Instance : Type 0
Instance = Map EpollEvent

-- `control`, once the descriptor is known to be open.
abbrev pub control_open : ℕ → ℕ → EpollEvent → Instance → LinuxResult ℕ × Instance
control_open op fd event m =
    if op == ctl_add
    then if contains_key fd m then (err eexist, m) else (ok 0, insert fd event m)
    else if op == ctl_mod
    then if not (contains_key fd m) then (err enoent, m) else (ok 0, insert fd event m)
    else if op == ctl_del
    then if not (contains_key fd m) then (err enoent, m) else (ok 0, remove fd m)
    else (err einval, m)

-- `file` is what `get_file_like` gives for the descriptor.
pub control : LinuxResult (Unit {0}) → ℕ → ℕ → EpollEvent → Instance → LinuxResult ℕ × Instance
control (err e) op fd event m = (err e, m)
control (ok u) op fd event m = control_open op fd event m

-- What one entry reports: readable comes before writable.
pub report : EpollEvent → Answer → Option EpollEvent
report ev (polled s) =
    if s.readable && has_bits ev.events epollin
    then some (record { events = epollin; «data» = ev.«data» })
    else if s.writable && has_bits ev.events epollout
    then some (record { events = epollout; «data» = ev.«data» })
    else none
report ev bad =
    if has_bits ev.events epollerr
    then some (record { events = epollerr; «data» = ev.«data» })
    else none
report ev failing =
    if has_bits ev.events epollerr
    then some (record { events = epollerr; «data» = ev.«data» })
    else none

-- `poll_all`: the events that are written into a buffer with room for so many.
abbrev pub written : Option EpollEvent → List EpollEvent → List EpollEvent → List EpollEvent
written none same fewer = same
written (some e) same fewer = e ∷ fewer

pub poll_all : (ℕ → Answer) → ℕ → Instance → List EpollEvent
poll_all answer room [] = []
poll_all answer zero (entry ∷ m) = []
poll_all answer (suc room) ((fd, ev) ∷ m) =
    written (report ev (answer (usize_as_i32 fd))) (poll_all answer (suc room) m)
      (poll_all answer room m)

-- The file's own `poll`.
unfoldable pub poll : Instance → PollState
poll [] = record { readable = false; writable = false }
poll (entry ∷ m) = record { readable = true; writable = false }

-- The event that the call passes on.
abbrev pub given : ℕ → UserPtr EpollEvent → LinuxResult EpollEvent
given op event =
    if op == ctl_del
    then if event.is_null then ok (record { events = 0; «data» = 0 }) else event.get_as_ref
    else event.get_as_ref

abbrev control_given :
    LinuxResult EpollEvent
    → LinuxResult (Unit {0})
    → LinuxResult (Unit {0})
    → ℕ
    → ℕ
    → Instance
    → LinuxResult ℕ × Instance
control_given (err e) instance_there file op fd m = (err e, m)
control_given (ok ev) (err e) file op fd m = (err e, m)
control_given (ok ev) (ok u) file op fd m = control file op (i32_as_usize fd) ev m

-- `instance_there` is what `EpollInstance::from_fd` gives for `epfd`, whose instance is `m`.
unfoldable sys_epoll_ctl :
    LinuxResult (Unit {0})
    → LinuxResult (Unit {0})
    → ℕ
    → ℕ
    → UserPtr EpollEvent
    → Instance
    → LinuxResult ℕ × Instance
sys_epoll_ctl instance_there file op fd event m =
    control_given (given op event) instance_there file op fd m

-- One look: the moment, and the interest list at it.
pub record Look : Type 0 where
  pub moment : Moment
  pub interest : Instance

abbrev pub deliver : LinuxResult (Unit {0}) → List EpollEvent → LinuxResult (List EpollEvent)
deliver (err e) found = err e
deliver (ok u) found = ok found

-- The loop: the events that are copied to the user, whose number is returned; `none` while it still
-- waits when the run ends.
unfoldable pub wait_loop :
    Option ℕ → LinuxResult (Unit {0}) → ℕ → List Look → Option (LinuxResult (List EpollEvent))
wait_loop deadline access maxevents [] = none
wait_loop deadline access maxevents (l ∷ run) =
    let found = poll_all l.moment.answer maxevents l.interest in
    let rest = wait_loop deadline access maxevents run in
    if not (length found == 0)
    then some (deliver access found)
    else if expired deadline l.moment.time
    then some (ok [])
    else rest

abbrev wait_on :
    LinuxResult (Unit {0})
    → Option ℕ
    → LinuxResult (Unit {0})
    → ℕ
    → List Look
    → Option (LinuxResult (List EpollEvent))
wait_on (err e) deadline access maxevents run = some (err e)
wait_on (ok u) deadline access maxevents run = wait_loop deadline access maxevents run

pub sys_epoll_wait :
    ℕ
    → LinuxResult (Unit {0})
    → LinuxResult (Unit {0})
    → ℕ
    → ℕ
    → List Look
    → Option (LinuxResult (List EpollEvent))
sys_epoll_wait now instance_there access maxevents timeout run =
    if is_nonpos maxevents
    then some (err einval)
    else wait_on instance_there
        (if is_negative timeout then none else some (now + timeout * 1000000)) access maxevents run

-- `new_instance` is the new, empty instance as a file of the descriptor table.
module _ {A : Type 0} (o : FlattenObjects A) (new_instance : A) where
  open o use {Table}

  unfoldable sys_epoll_create : ℕ → Table → LinuxResult ℕ × Table
  sys_epoll_create size t =
      if is_nonpos size then (err einval, t) else add_file_like o new_instance t

  -- The flags are not looked at.
  unfoldable sys_epoll_create1 : ℕ → Table → LinuxResult ℕ × Table
  sys_epoll_create1 flags t = sys_epoll_create 1 t
