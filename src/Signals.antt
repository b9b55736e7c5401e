-- ===== src/Signals.antt =====
-- api/src/signal.rs and the calls of api/src/imp/signal.rs that send signals. Signal numbers and
-- signals are those of crate axsignal, a parameter; what is sent is the list of the calls of its
-- `send_signal`, oldest first. A `pid` is the bit pattern of an `i32`.
pub mod Delivery
pub mod Masks
pub mod Actions
mod Tests
use freeos.Prelude.{
  ℕ, zero, suc, ◌+◌, ◌-◌, ◌%◌, ◌≡◌, Bool, true, false, not, ◌&&◌, ◌||◌, List, [], ◌∷◌, ◌++◌, Option,
  none, some, ◌==◌, leb, if◌then◌else◌,
}
use freeos.Prelude.Errors.{LinuxResult, ok, err, ok_or, ◌>>=◌, eperm, esrch, einval}
use freeos.Prelude.Words.{u32_mod, is_negative}
use freeos.Tasks.{Processes, Tables, all_processes, get_thread, get_process, get_process_group}

pub record SignalApi : Type 1 where
  pub Signo : Type 0
  pub from_repr : ℕ → Option Signo
  pub SignalInfo : Type 0
  pub new_info : Signo → ℕ → SignalInfo
  pub code : SignalInfo → ℕ
  pub set_signo : Signo → SignalInfo → SignalInfo

-- `SI_USER`, `SI_TKILL` (-6), and the size of a `SignalSet`.
abbrev si_user : ℕ
si_user = 0

abbrev si_tkill : ℕ
si_tkill = u32_mod - 6

abbrev pub sigset_size : ℕ
sigset_size = 8

abbrev pub check_sigset_size : ℕ → LinuxResult (Unit {0})
check_sigset_size size = if size == sigset_size then ok tt else err einval

module _ (p : Processes) (a : SignalApi) where
  open p use {
    World, Process, Group, Thread, pid, is_init, has_data, group, members, thread_has_data, tid,
    process,
  }
  open a use {Signo, from_repr, SignalInfo, new_info, code, set_signo}

  pub data Sent : Type 0 where
    to_process : Process → SignalInfo → Sent
    to_thread : Thread → SignalInfo → Sent

  -- `signo as u8`
  unfoldable pub parse_signo : ℕ → LinuxResult Signo
  parse_signo signo = ok_or (from_repr (signo % 256)) einval

  pub make_siginfo : ℕ → ℕ → LinuxResult (Option SignalInfo)
  make_siginfo signo c =
      if signo == 0 then ok none else parse_signo signo >>= λ n. ok (some (new_info n c))

  unfoldable send_signal_thread :
      Thread → SignalInfo → List Sent → LinuxResult (Unit {0}) × List Sent
  send_signal_thread th sig sent =
      if thread_has_data th then (ok tt, sent ++ (to_thread th sig ∷ [])) else (err eperm, sent)

  pub send_signal_process : Process → SignalInfo → List Sent → LinuxResult (Unit {0}) × List Sent
  send_signal_process x sig sent =
      if has_data x then (ok tt, sent ++ (to_process x sig ∷ [])) else (err eperm, sent)

  -- A failure to send is not counted.
  abbrev counted : LinuxResult (Unit {0}) → ℕ
  counted (ok u) = 1
  counted (err e) = 0

  pub send_all : SignalInfo → List Process → ℕ → List Sent → ℕ × List Sent
  send_all sig [] count sent = (count, sent)
  send_all sig (x ∷ xs) count sent =
      let (r, sent') = send_signal_process x sig sent in send_all sig xs (count + counted r) sent'

  pub send_signal_process_group : Group → SignalInfo → World → List Sent → ℕ × List Sent
  send_signal_process_group g sig w sent = send_all sig (members g w) 0 sent

  abbrev pub answered :
      {A : Type 0} → A → LinuxResult (Unit {0}) × List Sent → LinuxResult A × List Sent
  answered n (ok u, sent) = (ok n, sent)
  answered n (err e, sent) = (err e, sent)

  -- `kill(-1)`: every process but the first one; a failure ends the loop.
  unfoldable kill_all : SignalInfo → List Process → ℕ → List Sent → LinuxResult ℕ × List Sent
  kill_all sig [] count sent = (ok count, sent)
  kill_all sig (x ∷ xs) count sent =
      let skip = kill_all sig xs count sent in
      let on = kill_all sig xs (count + 1) (send_signal_process x sig sent).1 in
      if is_init x
      then skip
      else elim (send_signal_process x sig sent).0 [ err e ↦ (err e, sent) | ok u ↦ on ]

  abbrev of_group : SignalInfo → World → List Sent → LinuxResult Group → LinuxResult ℕ × List Sent
  of_group sig w sent (err e) = (err e, sent)
  of_group sig w sent (ok g) =
      let (count, sent') = send_signal_process_group g sig w sent in (ok count, sent')

  abbrev of_process : SignalInfo → List Sent → LinuxResult Process → LinuxResult ℕ × List Sent
  of_process sig sent (err e) = (err e, sent)
  of_process sig sent (ok x) = answered 1 (send_signal_process x sig sent)

  module _ (current : Process) (t : Tables p) (w : World) where
    -- `match pid`, at a signal.
    abbrev kill_with : ℕ → LinuxResult (Option SignalInfo) → List Sent → LinuxResult ℕ × List Sent
    kill_with k (err e) sent = (err e, sent)
    kill_with k (ok none) sent = (ok 0, sent)
    kill_with k (ok (some sig)) sent =
        if k == 0
        then of_group sig w sent (ok (group current w))
        else if not (is_negative k)
        then of_process sig sent (get_process p k t)
        else if k == u32_mod - 1
        then kill_all sig (all_processes p t) 0 sent
        else of_group sig w sent (get_process_group p ((u32_mod - k) % u32_mod) t)

    pub sys_kill : ℕ → ℕ → List Sent → LinuxResult ℕ × List Sent
    sys_kill k signo sent = kill_with k (make_siginfo signo si_user) sent

    abbrev to_found : SignalInfo → List Sent → LinuxResult Thread → LinuxResult ℕ × List Sent
    to_found sig sent (err e) = (err e, sent)
    to_found sig sent (ok th) = answered 0 (send_signal_thread th sig sent)

    abbrev with_info :
        LinuxResult (Option SignalInfo) → LinuxResult Thread → List Sent → LinuxResult ℕ × List Sent
    with_info (err e) found sent = (err e, sent)
    with_info (ok none) found sent = (ok 0, sent)
    with_info (ok (some sig)) found sent = to_found sig sent found

    unfoldable sys_tkill : ℕ → ℕ → List Sent → LinuxResult ℕ × List Sent
    sys_tkill k signo sent = with_info (make_siginfo signo si_tkill) (get_thread p k t) sent

    unfoldable find_thread_in_group : ℕ → ℕ → LinuxResult Thread
    find_thread_in_group tgid k =
        get_thread p k t >>= λ th. if pid (process th) == tgid then ok th else err esrch

    unfoldable sys_tgkill : ℕ → ℕ → ℕ → List Sent → LinuxResult ℕ × List Sent
    sys_tgkill tgid k signo sent =
        with_info (make_siginfo signo si_tkill) (find_thread_in_group tgid k) sent

    -- A signal with the sender's own information: only to itself may it look like the kernel's.
    unfoldable make_queue_signal_info : ℕ → ℕ → LinuxResult SignalInfo → LinuxResult SignalInfo
    make_queue_signal_info tgid signo given = parse_signo signo >>= λ n. given >>= λ sig0.
        let sig = set_signo n sig0 in
        if not (pid current == tgid) && (not (is_negative (code sig)) || code sig == si_tkill)
        then err eperm
        else ok sig

    abbrev queued :
        LinuxResult SignalInfo → LinuxResult Process → List Sent → LinuxResult ℕ × List Sent
    queued (err e) x sent = (err e, sent)
    queued (ok sig) (err e) sent = (err e, sent)
    queued (ok sig) (ok x) sent = answered 0 (send_signal_process x sig sent)

    unfoldable sys_rt_sigqueueinfo :
        ℕ → ℕ → LinuxResult SignalInfo → ℕ → List Sent → LinuxResult ℕ × List Sent
    sys_rt_sigqueueinfo tgid signo given size sent =
        queued (check_sigset_size size >>= λ u. make_queue_signal_info tgid signo given)
          (get_process p tgid t) sent

    abbrev queued_to :
        LinuxResult SignalInfo → LinuxResult Thread → List Sent → LinuxResult ℕ × List Sent
    queued_to (err e) th sent = (err e, sent)
    queued_to (ok sig) th sent = to_found sig sent th

    unfoldable sys_rt_tgsigqueueinfo :
        ℕ → ℕ → ℕ → LinuxResult SignalInfo → ℕ → List Sent → LinuxResult ℕ × List Sent
    sys_rt_tgsigqueueinfo tgid k signo given size sent =
        queued_to (check_sigset_size size >>= λ u. make_queue_signal_info tgid signo given)
          (find_thread_in_group tgid k) sent
