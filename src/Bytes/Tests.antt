-- ===== src/Bytes/Tests.antt =====
-- The byte routines at concrete inputs.
use kontol_os.Base.{◌%◌}
use kontol_os.Bytes.{Bytes}

abbrev ramp : Bytes
ramp = λ a. a % 256
