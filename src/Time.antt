-- ===== src/Time.antt =====
-- src/mmtime.h, the arithmetic of time stamps, and the sleeps of src/time.c. Arithmetic is exact: signed
-- overflow is undefined in C, and where every value fits its type the results are those of the code.
pub mod Arithmetic
mod Examples
use mmlib.Base.{ℕ, ◌<◌, ◌≡◌, Bool, true, false, ltb, if◌then◌else◌}
use mmlib.Base.Int.{ℤ, pos, negsuc, ◌+ℤ◌, ◌-ℤ◌, ltb_ℤ, scale, quotient, remainder}

abbrev pub ns_in_sec : ℕ
ns_in_sec = 1_000_000_000

abbrev pub us_in_sec : ℕ
us_in_sec = 1_000_000

abbrev pub ms_in_sec : ℕ
ms_in_sec = 1000

-- `struct mm_timespec`
pub record Timespec : Type 0 where
  pub tv_sec : ℤ
  pub tv_nsec : ℤ

pub mm_timediff_ns : Timespec → Timespec → ℤ
mm_timediff_ns ts orig = scale (ts.tv_sec -ℤ orig.tv_sec) ns_in_sec +ℤ (ts.tv_nsec -ℤ orig.tv_nsec)

-- NS_IN_SEC/US_IN_SEC is 1000.
pub mm_timediff_us : Timespec → Timespec → ℤ
mm_timediff_us ts orig =
    scale (ts.tv_sec -ℤ orig.tv_sec) us_in_sec +ℤ quotient (ts.tv_nsec -ℤ orig.tv_nsec) 1000

-- NS_IN_SEC/MS_IN_SEC is 1000000.
pub mm_timediff_ms : Timespec → Timespec → ℤ
mm_timediff_ms ts orig =
    scale (ts.tv_sec -ℤ orig.tv_sec) ms_in_sec +ℤ quotient (ts.tv_nsec -ℤ orig.tv_nsec) 1_000_000

-- The end of each addition: nanoseconds of a second or more, or below zero, are carried over.
pub carry : ℤ → ℤ → Timespec
carry sec nsec =
    if ltb_ℤ nsec (pos ns_in_sec)
    then (if ltb_ℤ nsec (pos 0)
        then record { tv_sec = sec -ℤ pos 1; tv_nsec = nsec +ℤ pos ns_in_sec }
        else record { tv_sec = sec; tv_nsec = nsec })
    else record { tv_sec = sec +ℤ pos 1; tv_nsec = nsec -ℤ pos ns_in_sec }

pub mm_timeadd_ns : Timespec → ℤ → Timespec
mm_timeadd_ns ts dt =
    carry (ts.tv_sec +ℤ quotient dt ns_in_sec) (ts.tv_nsec +ℤ remainder dt ns_in_sec)

pub mm_timeadd_us : Timespec → ℤ → Timespec
mm_timeadd_us ts dt =
    carry (ts.tv_sec +ℤ quotient dt us_in_sec) (ts.tv_nsec +ℤ scale (remainder dt us_in_sec) 1000)

pub mm_timeadd_ms : Timespec → ℤ → Timespec
mm_timeadd_ms ts dt =
    carry (ts.tv_sec +ℤ quotient dt ms_in_sec)
      (ts.tv_nsec +ℤ scale (remainder dt ms_in_sec) 1_000_000)

-- The clock and the sleep are the operating system's; `now` is what the clock shows.
module _ {R : Type 0} (now : Timespec) (mm_nanosleep : Timespec → R) where
  pub mm_relative_sleep_ns : ℤ → R
  mm_relative_sleep_ns duration = mm_nanosleep (mm_timeadd_ns now duration)

  pub mm_relative_sleep_us : ℤ → R
  mm_relative_sleep_us duration = mm_nanosleep (mm_timeadd_us now duration)

  pub mm_relative_sleep_ms : ℤ → R
  mm_relative_sleep_ms duration = mm_nanosleep (mm_timeadd_ms now duration)
