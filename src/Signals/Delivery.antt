-- ===== src/Signals/Delivery.antt =====
-- Whom `sys_kill` reaches.
use freeos.Prelude.{
  ℕ, ◌+◌, ◌-◌, ◌%◌, ◌<◌, ◌^◌, ◌≡◌, refl, ap₂, sym, ◌∙◌, true, false, List, [], ◌∷◌, ◌++◌, map,
  append-nil, append_assoc, some, arith, ◌==◌, Bool-cases, inl, inr, if◌then◌else◌, length,
}
use freeos.Prelude.Errors.{ok}
use freeos.Prelude.Words.{u32_mod, is_negative}
use freeos.Prelude.Map.{get}
use freeos.Tasks.{Processes, Tables}
use freeos.Signals.{
  SignalApi, Sent, to_process, send_signal_process, send_all, send_signal_process_group,
  make_siginfo, parse_signo, sys_kill, si_user,
}

module _ (p : Processes) (a : SignalApi) where
  open p use {World, Process, Group, has_data, group, members, pid, pgid, create_group}
  open a use {SignalInfo}

  -- The processes that can take a signal.
  abbrev pub receivers : List Process → List Process
  receivers [] = []
  receivers (x ∷ xs) = if has_data x then x ∷ receivers xs else receivers xs

  send_all_lem :
      (sig : SignalInfo) (xs : List Process) (count : ℕ) (sent : List (Sent p a))
      → send_all p a sig xs count sent
        ≡ (count + length (receivers xs), sent ++ map (λ x. to_process x sig) (receivers xs))
  unfolding send_all send_signal_process
  send_all_lem sig [] count sent = ap₂ (λ n l. (n, l)) (omega arith) (sym (append-nil sent))
  send_all_lem sig (x ∷ xs) count sent = elim (Bool-cases (has_data x)) [
    | inl can ↦ rw can (
        send_all_lem sig xs (count + 1) (sent ++ (to_process x sig ∷ []))
        ∙ ap₂ (λ n l. (n, l)) (omega arith)
            (append_assoc sent (to_process x sig ∷ [])
              (map (λ y. to_process y sig) (receivers xs))))
    | inr cannot ↦
        rw cannot (send_all_lem sig xs (count + 0) sent ∙ ap₂ (λ n l. (n, l)) (omega arith) refl)
  ]

  module _ (current : Process) (t : Tables p) (w : World) where
    -- `sys_kill` of the group with a number, given as the negative number, sends the signal to each
    -- of the group's processes that can take one, once and in order, and gives their number.
    pub sys_kill_group :
        (n signo : ℕ) (g : Group) (sig : SignalInfo) (sent : List (Sent p a))
        → 1 < n
        → n < 2 ^ 31
        → get n t.groups ≡ some g
        → make_siginfo p a signo si_user ≡ ok (some sig)
        → sys_kill p a current t w (u32_mod - n) signo sent ≡ (
          ok (length (receivers (members g w))),
          sent ++ map (λ x. to_process x sig) (receivers (members g w)),
        )
    unfolding sys_kill send_signal_process_group
    sys_kill_group n signo g sig sent few much there made =
        let not_zero : (u32_mod - n == 0) ≡ false = ground arith in
        let negative : is_negative (u32_mod - n) ≡ true = ground arith in
        let not_all : (u32_mod - n == u32_mod - 1) ≡ false = ground arith in
        let back : (u32_mod - (u32_mod - n)) % u32_mod ≡ n = omega arith in
        rw (made, not_zero, negative, not_all, back, there)
          (rw (send_all_lem sig (members g w) 0 sent) (ap₂ (λ k l. (ok k, l)) (omega arith) refl))

    -- `sys_kill` looks at the lowest byte of the signal's number only: a number that is no signal, such
    -- as 265, sends the signal with its lowest byte.
    sys_kill_truncates :
        (k signo : ℕ) (sent : List (Sent p a))
        → 0 < signo
        → sys_kill p a current t w k (signo + 256) sent ≡ sys_kill p a current t w k signo sent
    unfolding sys_kill make_siginfo parse_signo
    sys_kill_truncates k signo sent some_signal =
        let not_null : (signo == 0) ≡ false = ground arith in
        let not_zero : (signo + 256 == 0) ≡ false = ground arith in
        let byte : (signo + 256) % 256 ≡ signo % 256 = omega arith in
        rw (not_null, not_zero, byte) refl
