-- ===== src/Io/Vector.antt =====
-- api/src/imp/fs/io.rs: `sys_readv` and `sys_writev`. The vector in user memory is the result of its
-- access check, a list of buffers.
pub mod Written
use freeos.Prelude.{
  ℕ, zero, suc, ◌+◌, Bool, List, [], ◌∷◌, ◌==◌, if◌then◌else◌, ltb, leb, not, length,
}
use freeos.Prelude.Errors.{LinuxResult, ok, err, einval}
use freeos.Io.{Files, ReadBuf, WriteBuf, on}

-- What is left to do after one buffer: go on, or return.
pub data Next (S : Type 0) : Type 0 where
  go_on : ℕ → S → Next S
  returns : LinuxResult ℕ → S → Next S

-- A short count ends the loop; an error ends the call, and what was counted so far is lost.
abbrev pub after_write : {S : Type 0} → ℕ → ℕ → LinuxResult ℕ × S → Next S
after_write ret len (err e, s) = returns (err e) s
after_write ret len (ok n, s) = if ltb n len then returns (ok (ret + n)) s else go_on (ret + n) s

abbrev after_read : {S : Type 0} → ℕ → ℕ → LinuxResult (List ℕ) × S → Next S
after_read ret len (err e, s) = returns (err e) s
after_read ret len (ok bytes, s) =
    if ltb (length bytes) len
    then returns (ok (ret + length bytes)) s
    else go_on (ret + length bytes) s

module _ (f : Files) where
  open f use {State, get_file_like, read, write}

  abbrev pub write_buf : ℕ → WriteBuf → ℕ → State → Next State
  write_buf fd buf ret s =
      if buf.len == 0
      then go_on ret s
      else after_write ret buf.len (on f buf.access (get_file_like fd s) write s)

  pub writev_loop : ℕ → List WriteBuf → ℕ → State → LinuxResult ℕ × State
  writev_loop fd [] ret s = (ok ret, s)
  writev_loop fd (buf ∷ bufs) ret s = elim (write_buf fd buf ret s) [
    | go_on ret' s' ↦ writev_loop fd bufs ret' s'
    | returns r s' ↦ (r, s')
  ]

  abbrev writev_on : ℕ → LinuxResult (List WriteBuf) → State → LinuxResult ℕ × State
  writev_on fd (err e) s = (err e, s)
  writev_on fd (ok bufs) s = writev_loop fd bufs 0 s

  pub sys_writev : ℕ → LinuxResult (List WriteBuf) → ℕ → State → LinuxResult ℕ × State
  sys_writev fd iov iocnt s = if leb iocnt 1024 then writev_on fd iov s else (err einval, s)

  abbrev read_buf : ℕ → ReadBuf → ℕ → State → Next State
  read_buf fd buf ret s =
      if buf.len == 0
      then go_on ret s
      else after_read ret buf.len (on f buf.access (get_file_like fd s) (λ h u. read h buf.len) s)

  unfoldable readv_loop : ℕ → List ReadBuf → ℕ → State → LinuxResult ℕ × State
  readv_loop fd [] ret s = (ok ret, s)
  readv_loop fd (buf ∷ bufs) ret s = elim (read_buf fd buf ret s) [
    | go_on ret' s' ↦ readv_loop fd bufs ret' s'
    | returns r s' ↦ (r, s')
  ]

  abbrev readv_on : ℕ → LinuxResult (List ReadBuf) → State → LinuxResult ℕ × State
  readv_on fd (err e) s = (err e, s)
  readv_on fd (ok bufs) s = readv_loop fd bufs 0 s

  unfoldable sys_readv : ℕ → LinuxResult (List ReadBuf) → ℕ → State → LinuxResult ℕ × State
  sys_readv fd iov iocnt s = if leb iocnt 1024 then readv_on fd iov s else (err einval, s)
