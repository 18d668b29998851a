-- ===== src/Status.antt =====
-- cb::Error (src/client_backend/client_backend.h) as its code: the messages carry no state. The
-- codes are those of src/constants.h.
use perf_analyzer.Prelude.{ℕ, Bool, true, false}

pub data Status : Type 0 where
  ok : Status
  err : ℕ → Status

abbrev pub is_ok : Status → Bool
is_ok ok = true
is_ok (err code) = false

abbrev pub stability_error : ℕ
stability_error = 2

abbrev pub option_error : ℕ
option_error = 3

abbrev pub generic_error : ℕ
generic_error = 99
