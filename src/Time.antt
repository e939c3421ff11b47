-- ===== src/Time.antt =====
-- The `struct timeval` arithmetic of misc_timer.c and misc_timer2.c: adding milliseconds, and the
-- macros that compare two times. The seconds and microseconds are integers without a bound, since
-- the code relies on `time_t` being large enough.
pub mod Order
pub mod Bounds
mod Tests
use libmisc.Base.{ℕ, Bool, ◌&&◌, ◌||◌}
use libmisc.Base.Int.{ℤ, pos, ◌+ℤ◌, ◌*ℕ◌, tdiv, tmod, ltb_ℤ, leb_ℤ, eqb_ℤ}

pub record Timeval : Type 0 where
  pub sec : ℤ
  pub usec : ℤ

abbrev pub timeval : ℤ → ℤ → Timeval
timeval s u = record { sec = s; usec = u }

abbrev pub msecs_in_sec : ℕ
msecs_in_sec = 1000

-- `timer_add_msec`: the microseconds are not carried into the seconds.
unfoldable pub add_msec : Timeval → ℤ → Timeval
unfolding tdiv tmod ◌*ℕ◌ ◌+ℤ◌
add_msec tv ms =
    let sec = tdiv ms msecs_in_sec in
    let msec = tmod ms msecs_in_sec *ℕ msecs_in_sec in
    record { sec = tv.sec +ℤ sec; usec = tv.usec +ℤ msec }

-- `IS_EARLIER_THAN`
unfoldable pub is_earlier_than : Timeval → Timeval → Bool
is_earlier_than a b = ltb_ℤ a.sec b.sec || eqb_ℤ a.sec b.sec && ltb_ℤ a.usec b.usec

-- `IS_LE_TIMEVAL`
unfoldable pub is_le_timeval : Timeval → Timeval → Bool
is_le_timeval a b = leb_ℤ a.sec b.sec || eqb_ℤ a.sec b.sec && leb_ℤ a.usec b.usec
