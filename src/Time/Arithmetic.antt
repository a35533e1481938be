-- ===== src/Time/Arithmetic.antt =====
-- Additions and differences of time stamps.
use mmlib.Base.{dec_lt, suc, ◌+◌, ◌≤◌, ◌<◌, ◌≡◌, ap, arith}
use mmlib.Base.Int.{
  ℤ, pos, negsuc, pos_part, neg_part, ◌+ℤ◌, ◌-ℤ◌, ◌≤ℤ◌, scale, quotient, remainder, int_parts,
}
use mmlib.Time.{
  Timespec, carry, ns_in_sec, us_in_sec, ms_in_sec, mm_timediff_ns, mm_timediff_us, mm_timediff_ms,
  mm_timeadd_ns, mm_timeadd_us, mm_timeadd_ms,
}

-- The nanoseconds are at least 0 and below a second.
pub record IsNormal (ts : Timespec) : Type 0 where
  pub low : pos 0 ≤ℤ ts.tv_nsec
  pub high : ts.tv_nsec ≤ℤ pos 999_999_999

module _ (sec nsec : ℤ) where
  carry_below :
      suc (pos_part nsec) ≤ neg_part nsec
      → carry sec nsec ≡ record { tv_sec = sec -ℤ pos 1; tv_nsec = nsec +ℤ pos ns_in_sec }
  unfolding carry
  carry_below h = ground arith

  carry_within :
      neg_part nsec ≤ pos_part nsec
      → pos_part nsec < ns_in_sec + neg_part nsec
      → carry sec nsec ≡ record { tv_sec = sec; tv_nsec = nsec }
  unfolding carry
  carry_within lo hi = ground arith

  carry_above :
      ns_in_sec + neg_part nsec ≤ pos_part nsec
      → carry sec nsec ≡ record { tv_sec = sec +ℤ pos 1; tv_nsec = nsec -ℤ pos ns_in_sec }
  unfolding carry
  carry_above h = ground arith

  -- What is carried over is normal, and stands for the same instant.
  abbrev Carried : Timespec → Type 0
  Carried ts = IsNormal ts × (scale ts.tv_sec ns_in_sec +ℤ ts.tv_nsec ≡ scale sec ns_in_sec +ℤ nsec)

  Carried-carry : negsuc 999_999_998 ≤ℤ nsec → nsec ≤ℤ pos 1_999_999_998 → Carried (carry sec nsec)
  Carried-carry lo hi = elim (dec_lt (pos_part nsec) (neg_part nsec)) [
    | yes below ↦
        rw (carry_below below)
          (record { low = omega int_parts; high = omega int_parts }, omega int_parts)
    | no not_below ↦ elim (dec_lt (pos_part nsec) (ns_in_sec + neg_part nsec)) [
      | yes within ↦
          rw (carry_within (omega arith) within)
            (record { low = omega int_parts; high = omega int_parts }, omega int_parts)
      | no not_within ↦
          rw (carry_above (omega arith))
            (record { low = omega int_parts; high = omega int_parts }, omega int_parts)
    ]
  ]

-- Adding `dt` nanoseconds to a normal time stamp gives a normal one, `dt` nanoseconds away.
mm_timediff_ns-mm_timeadd_ns :
    (ts : Timespec) (dt : ℤ)
    → IsNormal ts
    → IsNormal (mm_timeadd_ns ts dt) × (mm_timediff_ns (mm_timeadd_ns ts dt) ts ≡ dt)
unfolding mm_timediff_ns mm_timeadd_ns
mm_timediff_ns-mm_timeadd_ns ts dt n =
    let (normal, same) =
      Carried-carry (ts.tv_sec +ℤ quotient dt ns_in_sec) (ts.tv_nsec +ℤ remainder dt ns_in_sec)
        (omega int_parts) (omega int_parts) in
    (normal, omega (int_parts, ap pos_part same, ap neg_part same))

-- Adding `dt` microseconds to a normal time stamp gives a normal one, `dt` microseconds away.
mm_timediff_us-mm_timeadd_us :
    (ts : Timespec) (dt : ℤ)
    → IsNormal ts
    → IsNormal (mm_timeadd_us ts dt) × (mm_timediff_us (mm_timeadd_us ts dt) ts ≡ dt)
unfolding mm_timediff_us mm_timeadd_us
mm_timediff_us-mm_timeadd_us ts dt n =
    let (normal, same) =
      Carried-carry (ts.tv_sec +ℤ quotient dt us_in_sec)
        (ts.tv_nsec +ℤ scale (remainder dt us_in_sec) 1000) (omega int_parts) (omega int_parts) in
    (normal, omega (int_parts, ap pos_part same, ap neg_part same))

-- Adding `dt` milliseconds to a normal time stamp gives a normal one, `dt` milliseconds away.
mm_timediff_ms-mm_timeadd_ms :
    (ts : Timespec) (dt : ℤ)
    → IsNormal ts
    → IsNormal (mm_timeadd_ms ts dt) × (mm_timediff_ms (mm_timeadd_ms ts dt) ts ≡ dt)
unfolding mm_timediff_ms mm_timeadd_ms
mm_timediff_ms-mm_timeadd_ms ts dt n =
    let (normal, same) =
      Carried-carry (ts.tv_sec +ℤ quotient dt ms_in_sec)
        (ts.tv_nsec +ℤ scale (remainder dt ms_in_sec) 1_000_000) (omega int_parts)
        (omega int_parts) in
    (normal, omega (int_parts, ap pos_part same, ap neg_part same))

-- Adding `dt` nanoseconds, microseconds or milliseconds, of either sign, to a normal time stamp gives a
-- normal one, and the difference to the old one in the same unit is `dt`.
pub mm_timediff-mm_timeadd :
    (ts : Timespec) (dt : ℤ)
    → IsNormal ts
    → (IsNormal (mm_timeadd_ns ts dt) × (mm_timediff_ns (mm_timeadd_ns ts dt) ts ≡ dt))
      × (IsNormal (mm_timeadd_us ts dt) × (mm_timediff_us (mm_timeadd_us ts dt) ts ≡ dt))
      × (IsNormal (mm_timeadd_ms ts dt) × (mm_timediff_ms (mm_timeadd_ms ts dt) ts ≡ dt))
mm_timediff-mm_timeadd ts dt n = (
  mm_timediff_ns-mm_timeadd_ns ts dt n,
  mm_timediff_us-mm_timeadd_us ts dt n,
  mm_timediff_ms-mm_timeadd_ms ts dt n,
)
