-- ===== src/UserAccess/Tests.antt =====
-- Two bytes and a zero at the end of a page; every page may be read.
use freeos.Prelude.{refl, true, arith, ltb, if◌then◌else◌}
use freeos.Prelude.Errors.{ok}
use freeos.UserAccess.{Space, check_null_terminated}
use freeos.UserAccess.Terminated.{Stops, check_null_terminated-Stops}

abbrev space : Space
space = record {
  check_region_access = λ start size. true;
  populate_area = λ start size. ok tt;
  read = λ addr. if ltb addr 8192 then 65 else 0;
}

check_null_terminated-Stops_example : Stops space 8190 1 2 (check_null_terminated space 10 8190 1 1)
check_null_terminated-Stops_example =
    check_null_terminated-Stops space 8190 1 2 refl (λ i h. ground arith) 10 1 (omega arith)
