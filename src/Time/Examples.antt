-- ===== src/Time/Examples.antt =====
-- The theorems about time stamps at concrete ones.
use mmlib.Base.{◌≡◌, arith}
use mmlib.Base.Int.{pos, negsuc}
use mmlib.Time.{
  Timespec, mm_timediff_ns, mm_timediff_us, mm_timediff_ms, mm_timeadd_ns, mm_timeadd_us,
  mm_timeadd_ms,
}
use mmlib.Time.Arithmetic.{IsNormal, mm_timediff-mm_timeadd}

abbrev noon : Timespec
noon = record { tv_sec = pos 43200; tv_nsec = pos 500 }

noon-IsNormal : IsNormal noon
noon-IsNormal = record { low = omega arith; high = omega arith }

mm_timediff-mm_timeadd_example :
    (IsNormal (mm_timeadd_ns noon (negsuc 999))
      × (mm_timediff_ns (mm_timeadd_ns noon (negsuc 999)) noon ≡ negsuc 999))
    × (IsNormal (mm_timeadd_us noon (negsuc 999))
        × (mm_timediff_us (mm_timeadd_us noon (negsuc 999)) noon ≡ negsuc 999))
    × (IsNormal (mm_timeadd_ms noon (negsuc 999))
        × (mm_timediff_ms (mm_timeadd_ms noon (negsuc 999)) noon ≡ negsuc 999))
mm_timediff-mm_timeadd_example = mm_timediff-mm_timeadd noon (negsuc 999) noon-IsNormal
