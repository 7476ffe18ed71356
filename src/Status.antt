-- ===== src/Status.antt =====
-- `Status`, the result code of every storage operation (parakv/common/status.h), and the step
-- that returns early on a failure, which the sources write as a test of the code.
use para_kv.Prelude.{Bool, true, false}

pub data Status : Type 0 where
  ok not_found full io_error invalid_argument corruption no_space : Status

-- `s == Status::kOk`
abbrev pub is_ok : Status → Bool
is_ok ok = true
is_ok _ = false

pub Status-discrete : Discrete Status
Status-discrete = hlevel
