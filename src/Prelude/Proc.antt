-- ===== src/Prelude/Proc.antt =====
-- Stateful code that may fail: the changes made before a failure stay.
use freeos.Prelude.Errors.{LinuxResult}

abbrev pub Proc : Type 0 → Type 0 → Type 0
Proc S A = S → LinuxResult A × S
