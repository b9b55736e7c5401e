-- ===== src/Mpx/Select.antt =====
-- select.rs: `select` and `pselect6`. An `fd_set` is the list of its bits, the lowest bit of the first
-- word first, so that the bit of a descriptor stands at its number; a word is 64 bits. The user's three
-- sets are different places.
pub mod Scan
pub mod Count
mod Tests
use freeos.Prelude.{
  ℕ, zero, suc, ◌+◌, ◌-◌, ◌*◌, ◌/◌, Bool, true, false, not, ◌&&◌, ◌||◌, List, [], ◌++◌, Option,
  none, some, ltb, ◌==◌, if◌then◌else◌, min, get_or, set, take, replicate,
}
use freeos.Prelude.Errors.{LinuxResult, ok, err, ◌>>=◌, einval}
use freeos.Prelude.Words.{is_negative}
use freeos.Prelude.UserPtr.{UserPtr, nullable}
use freeos.Mpx.{PollState, Answer, bad, failing, polled, Moment, poll_with_timeout}

abbrev pub fd_setsize : ℕ
fd_setsize = 1024

abbrev bits_per_usize : ℕ
bits_per_usize = 64

abbrev pub no_bits : List Bool
no_bits = replicate fd_setsize false

-- A pointer to a set: whether it is null, the result of its access check, and the bits there.
pub record FdSet : Type 0 where
  pub is_null : Bool
  pub access : LinuxResult (Unit {0})
  pub bits : List Bool

-- The user's sets for reading, writing and exceptions.
pub record UserSets : Type 0 where
  pub reads : FdSet
  pub writes : FdSet
  pub excepts : FdSet

pub record FdSets : Type 0 where
  pub nfds : ℕ
  pub read_bits : List Bool
  pub write_bits : List Bool
  pub except_bits : List Bool

-- `copy_from_fd_set`: the words that have a descriptor below `nfds`.
abbrev copied : ℕ → FdSet → LinuxResult (List Bool)
copied words f =
    if f.is_null
    then ok no_bits
    else f.access >>= λ u. ok (
        take (words * bits_per_usize) f.bits
        ++ replicate (fd_setsize - words * bits_per_usize) false)

-- `FdSets::from`
unfoldable from : ℕ → UserSets → LinuxResult FdSets
from n u =
    let nfds = min n fd_setsize in
    let words = (nfds + (bits_per_usize - 1)) / bits_per_usize in
    copied words u.reads >>= λ r. copied words u.writes >>= λ w. copied words u.excepts >>= λ x.
    ok (record { nfds = nfds; read_bits = r; write_bits = w; except_bits = x })

-- The results of a pass, and `res_num`.
pub record Found : Type 0 where
  pub read : List Bool
  pub write : List Bool
  pub except : List Bool
  pub res_num : ℕ

abbrev pub nothing_found : Found
nothing_found = record { read = no_bits; write = no_bits; except = no_bits; res_num = 0 }

module _ (s : FdSets) (answer : ℕ → Answer) where
  abbrev pub bit : List Bool → ℕ → Bool
  bit l fd = get_or l fd false

  -- `all_bits & bit`
  abbrev pub any_bit : ℕ → Bool
  any_bit fd = bit s.read_bits fd || bit s.write_bits fd || bit s.except_bits fd

  abbrev pub mark_read : Bool → ℕ → Found → Found
  mark_read ready fd f =
      if ready then record f { read = set f.read fd true; res_num = f.res_num + 1 } else f

  abbrev pub mark_write : Bool → ℕ → Found → Found
  mark_write ready fd f =
      if ready then record f { write = set f.write fd true; res_num = f.res_num + 1 } else f

  abbrev pub mark_except : Bool → ℕ → Found → Found
  mark_except ready fd f =
      if ready then record f { except = set f.except fd true; res_num = f.res_num + 1 } else f

  -- `get_file_like(fd).and_then(|f| f.poll())`
  abbrev pub answered : Answer → ℕ → Found → Found
  answered bad fd f = mark_except (bit s.except_bits fd) fd f
  answered failing fd f = mark_except (bit s.except_bits fd) fd f
  answered (polled p) fd f =
      mark_write (p.writable && bit s.write_bits fd) fd
        (mark_read (p.readable && bit s.read_bits fd) fd f)

  -- The body of the inner loop.
  pub poll_bit : ℕ → Found → Found
  poll_bit fd f = if any_bit fd then answered (answer fd) fd f else f

  -- `while j < BITS_PER_USIZE && i + j < self.nfds`, with the bits of the word that are left.
  pub bits_loop : ℕ → ℕ → Found → Found
  bits_loop zero fd f = f
  bits_loop (suc left) fd f =
      let rest = bits_loop left (fd + 1) (poll_bit fd f) in if ltb fd s.nfds then rest else f

  -- `all_bits != 0`, at the word that begins with `fd`.
  pub some_in : ℕ → ℕ → Bool
  some_in zero fd = false
  some_in (suc left) fd = any_bit fd || some_in left (fd + 1)

  -- The body of the outer loop: a word without bits is passed over.
  pub poll_word : ℕ → Found → Found
  poll_word i f = if some_in bits_per_usize i then bits_loop bits_per_usize i f else f

  -- `while i < self.nfds`, with the words that are left.
  pub words_loop : ℕ → ℕ → Found → Found
  words_loop zero i f = f
  words_loop (suc left) i f =
      let rest = words_loop left (i + bits_per_usize) (poll_word i f) in
      if ltb i s.nfds then rest else f

  -- There are 16 words.
  pub scan : Found
  scan = words_loop 16 0 nothing_found

-- A result, or zeros, to the user.
abbrev put : List Bool → FdSet → LinuxResult FdSet
put bits f = if f.is_null then ok f else f.access >>= λ u. ok (record f { bits = bits })

abbrev put_except : List Bool → UserSets → LinuxResult FdSet → LinuxResult (Unit {0}) × UserSets
put_except bits u (err e) = (err e, u)
put_except bits u (ok f) = (ok tt, record u { excepts = f })

abbrev put_write :
    List Bool → List Bool → UserSets → LinuxResult FdSet → LinuxResult (Unit {0}) × UserSets
put_write bits bits' u (err e) = (err e, u)
put_write bits bits' u (ok f) = put_except bits' (record u { writes = f }) (put bits' u.excepts)

abbrev put_read :
    List Bool
    → List Bool
    → List Bool
    → UserSets
    → LinuxResult FdSet
    → LinuxResult (Unit {0}) × UserSets
put_read bits bits' bits'' u (err e) = (err e, u)
put_read bits bits' bits'' u (ok f) =
    put_write bits' bits'' (record u { reads = f }) (put bits' u.writes)

-- The three sets are written one after the other; an error leaves those before it written.
unfoldable write_back :
    List Bool → List Bool → List Bool → UserSets → LinuxResult (Unit {0}) × UserSets
write_back r w x u = put_read r w x u (put r u.reads)

abbrev counted : ℕ → LinuxResult (Unit {0}) × UserSets → LinuxResult (Option ℕ) × UserSets
counted n (err e, u) = (err e, u)
counted n (ok v, u) = (ok (if ltb 0 n then some n else none), u)

unfoldable poll_all : FdSets → Moment → UserSets → LinuxResult (Option ℕ) × UserSets
poll_all s t u = let f = scan s t.answer in counted f.res_num (write_back f.read f.write f.except u)

abbrev finished : Option (LinuxResult (Option ℕ) × UserSets) → Option (LinuxResult ℕ × UserSets)
finished none = none
finished (some (err e, u)) = some (err e, u)
finished (some (ok none, u)) = some (ok 0, u)
finished (some (ok (some n), u)) = some (ok n, u)

abbrev after_clear :
    Option ℕ
    → List Moment
    → FdSets
    → LinuxResult (Unit {0}) × UserSets
    → Option (LinuxResult ℕ × UserSets)
after_clear deadline run s (err e, u) = some (err e, u)
after_clear deadline run s (ok v, u) = finished (poll_with_timeout deadline (poll_all s) run u)

abbrev after_from :
    Option ℕ → List Moment → UserSets → LinuxResult FdSets → Option (LinuxResult ℕ × UserSets)
after_from deadline run u (err e) = some (err e, u)
after_from deadline run u (ok s) = after_clear deadline run s (write_back no_bits no_bits no_bits u)

abbrev with_deadline :
    LinuxResult (Option ℕ) → ℕ → List Moment → UserSets → Option (LinuxResult ℕ × UserSets)
with_deadline (err e) nfds run u = some (err e, u)
with_deadline (ok deadline) nfds run u = after_from deadline run u (from (min nfds fd_setsize) u)

-- `wall_time()` and the timeout, in nanoseconds; `unit` is the nanoseconds of its second part.
abbrev deadline_of : ℕ → ℕ → LinuxResult (Option (ℕ × ℕ)) → LinuxResult (Option ℕ)
deadline_of now unit (err e) = err e
deadline_of now unit (ok none) = ok none
deadline_of now unit (ok (some (secs, part))) = ok (some (now + secs * 1000000000 + part * unit))

unfoldable sys_select :
    ℕ → ℕ → UserPtr (ℕ × ℕ) → List Moment → UserSets → Option (LinuxResult ℕ × UserSets)
sys_select now nfds timeout run u =
    if is_negative nfds
    then some (err einval, u)
    else with_deadline (deadline_of now 1000 (nullable timeout)) nfds run u

unfoldable sys_pselect6 :
    ℕ → ℕ → UserPtr (ℕ × ℕ) → List Moment → UserSets → Option (LinuxResult ℕ × UserSets)
sys_pselect6 now nfds timeout run u =
    if is_negative nfds
    then some (err einval, u)
    else with_deadline (deadline_of now 1 (nullable timeout)) nfds run u
