-- ===== src/Time/Bounds.antt =====
-- The ranges of what `timer_add_msec` computes, where `int` and `time_t` have 32 bits.
use libmisc.Base.{◌≡◌, arith}
use libmisc.Base.Int.{ℤ, pos, negsuc, ◌+ℤ◌, ◌*ℕ◌, tdiv, tmod, ◌≤ℤ◌, ◌<ℤ◌, +ℤ_parts}
use libmisc.Time.{Timeval, add_msec}
use libmisc.Time.Order.{
  IsNormal, micros, micros-add_msec, add_msec-sec, add_msec-usec, *ℕ_1000_parts,
}

-- The values of a signed integer of 32 bits.
abbrev pub IsInt : ℤ → Type 0
IsInt a = (negsuc 2_147_483_647 ≤ℤ a) × (a ≤ℤ pos 2_147_483_647)

-- Every value that the function computes from `ms` for `tv` is in range, and the sum is exact.
pub record Fits (tv : Timeval) (ms : ℤ) : Type 0 where
  pub seconds : IsInt (tdiv ms 1000)
  pub rest : IsInt (tmod ms 1000)
  pub rest_micros : IsInt (tmod ms 1000 *ℕ 1000)
  pub sec : IsInt (add_msec tv ms).sec
  pub usec : (negsuc 998_999 ≤ℤ (add_msec tv ms).usec) × ((add_msec tv ms).usec <ℤ pos 1_999_000)
  pub instant : micros (add_msec tv ms) ≡ micros tv +ℤ ms *ℕ 1000

tdiv-range :
    (ms : ℤ) → IsInt ms → (negsuc 2_147_482 ≤ℤ tdiv ms 1000) × (tdiv ms 1000 ≤ℤ pos 2_147_483)
unfolding tdiv
tdiv-range (pos n) h = ground (arith, h)
tdiv-range (negsuc n) h = ground (arith, h)

tmod-range : (ms : ℤ) → (negsuc 998 ≤ℤ tmod ms 1000) × (tmod ms 1000 ≤ℤ pos 999)
unfolding tmod
tmod-range (pos n) = ground arith
tmod-range (negsuc n) = ground arith

-- Adding any `int` of milliseconds to a normal time from the start of 1970 to 2 147 483 seconds before
-- the end of 32-bit time computes no value that is out of the range of a 32-bit `int`; the microseconds
-- stay between -999 000 and 1 999 000, and the instant is the exact sum.
pub add_msec-Fits :
    (tv : Timeval) (ms : ℤ)
    → IsNormal tv
    → IsInt ms
    → pos 0 ≤ℤ tv.sec
    → tv.sec ≤ℤ pos 2_145_336_164
    → Fits tv ms
add_msec-Fits tv ms normal int start end =
    let q = tdiv-range ms int in
    let r = tmod-range ms in
    let product = *ℕ_1000_parts (tmod ms 1000) in
    let sum_sec = +ℤ_parts tv.sec (tdiv ms 1000) in
    let sum_usec = +ℤ_parts tv.usec (tmod ms 1000 *ℕ 1000) in
    record {
      seconds = (omega (arith, q), omega (arith, q));
      rest = (omega (arith, r), omega (arith, r));
      rest_micros = (omega (arith, r, product), omega (arith, r, product));
      sec =
          rw (add_msec-sec tv ms)
            (omega (arith, q, sum_sec, start), omega (arith, q, sum_sec, end));
      usec = rw (add_msec-usec tv ms) (
        omega (arith, r, product, sum_usec, normal),
        omega (arith, r, product, sum_usec, normal),
      );
      instant = micros-add_msec tv ms;
    }
