-- ===== src/Time/Tests.antt =====
-- Adding milliseconds to a time in the last month but one of 32-bit time.
use libmisc.Base.{arith}
use libmisc.Base.Int.{pos, negsuc}
use libmisc.Time.{timeval}
use libmisc.Time.Bounds.{Fits, add_msec-Fits}

-- Takes back a second and a half.
add_msec-Fits_example : Fits (timeval (pos 2_145_000_000) (pos 999_999)) (negsuc 1_499)
add_msec-Fits_example =
    add_msec-Fits (timeval (pos 2_145_000_000) (pos 999_999)) (negsuc 1_499)
      (omega arith, omega arith) (omega arith, omega arith) (omega arith) (omega arith)
