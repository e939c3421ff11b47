-- ===== src/Time/Order.antt =====
-- What the comparisons of two times mean, and what adding milliseconds does to the instant.
use libmisc.Base.{ℕ, ◌+◌, ◌*◌, ◌≡◌, refl, ap, ◌↔◌, true, false, arith}
use libmisc.Base.Int.{
  ℤ, pos, negsuc, pos_part, neg_part, ◌+ℤ◌, ◌*ℕ◌, tdiv, tmod, ◌≤ℤ◌, ◌<ℤ◌, eq_of_parts, +ℤ_parts,
}
use libmisc.Time.{Timeval, timeval, add_msec, is_earlier_than, is_le_timeval}

-- The instant in microseconds.
unfoldable pub micros : Timeval → ℤ
micros tv = tv.sec *ℕ 1_000_000 +ℤ tv.usec

-- The microseconds are a proper fraction of a second.
abbrev pub IsNormal : Timeval → Type 0
IsNormal tv = (pos 0 ≤ℤ tv.usec) × (tv.usec <ℤ pos 1_000_000)

*ℕ_parts :
    (a : ℤ)
    → pos_part (a *ℕ 1_000_000) + 1_000_000 * neg_part a
      ≡ neg_part (a *ℕ 1_000_000) + 1_000_000 * pos_part a
unfolding ◌*ℕ◌
*ℕ_parts a = ground arith

-- The difference of two instants, by the two fields.
pub micros_parts :
    (tv : Timeval)
    → pos_part (micros tv) + 1_000_000 * neg_part tv.sec + neg_part tv.usec
      ≡ neg_part (micros tv) + 1_000_000 * pos_part tv.sec + pos_part tv.usec
unfolding micros
micros_parts tv = omega (arith, +ℤ_parts (tv.sec *ℕ 1_000_000) tv.usec, *ℕ_parts tv.sec)

-- In normal times the macro compares the instants.
pub is_earlier_than_iff :
    (a b : Timeval)
    → IsNormal a
    → IsNormal b
    → (is_earlier_than a b ≡ true) ↔ (micros a <ℤ micros b)
unfolding is_earlier_than
is_earlier_than_iff a b ha hb = ground (arith, micros_parts a, micros_parts b)

-- The macro is a strict order, whether the times are normal or not.
pub is_earlier_than_irrefl : (a : Timeval) → is_earlier_than a a ≡ false
unfolding is_earlier_than
is_earlier_than_irrefl a = ground arith

pub is_earlier_than_trans :
    (a b c : Timeval)
    → is_earlier_than a b ≡ true
    → is_earlier_than b c ≡ true
    → is_earlier_than a c ≡ true
unfolding is_earlier_than
is_earlier_than_trans a b c p q = ground arith

-- What is not earlier than a time is not earlier than anything that the time is not earlier than.
pub not_earlier_trans :
    (a b c : Timeval)
    → is_earlier_than b a ≡ false
    → is_earlier_than c b ≡ false
    → is_earlier_than c a ≡ false
unfolding is_earlier_than
not_earlier_trans a b c p q = ground arith

pub not_earlier_of_earlier :
    (a b : Timeval) → is_earlier_than a b ≡ true → is_earlier_than b a ≡ false
unfolding is_earlier_than
not_earlier_of_earlier a b p = ground arith

pub *ℕ_1000_parts :
    (a : ℤ) → pos_part (a *ℕ 1000) + 1000 * neg_part a ≡ neg_part (a *ℕ 1000) + 1000 * pos_part a
unfolding ◌*ℕ◌
*ℕ_1000_parts a = ground arith

tdiv-tmod_parts :
    (a : ℤ)
    → pos_part (tdiv a 1000) * 1000 + pos_part (tmod a 1000) + neg_part a
      ≡ neg_part (tdiv a 1000) * 1000 + neg_part (tmod a 1000) + pos_part a
unfolding tdiv tmod
tdiv-tmod_parts (pos n) = ground arith
tdiv-tmod_parts (negsuc n) = ground arith

pub add_msec-sec : (tv : Timeval) (ms : ℤ) → (add_msec tv ms).sec ≡ tv.sec +ℤ tdiv ms 1000
unfolding add_msec
add_msec-sec tv ms = refl

pub add_msec-usec :
    (tv : Timeval) (ms : ℤ) → (add_msec tv ms).usec ≡ tv.usec +ℤ tmod ms 1000 *ℕ 1000
unfolding add_msec
add_msec-usec tv ms = refl

-- Adding milliseconds adds exactly so many to the instant, also for a negative count.
pub micros-add_msec : (tv : Timeval) (ms : ℤ) → micros (add_msec tv ms) ≡ micros tv +ℤ ms *ℕ 1000
micros-add_msec tv ms = eq_of_parts _ _ (
    omega (
      arith,
      micros_parts (add_msec tv ms),
      micros_parts tv,
      ap pos_part (add_msec-sec tv ms),
      ap neg_part (add_msec-sec tv ms),
      ap pos_part (add_msec-usec tv ms),
      ap neg_part (add_msec-usec tv ms),
      +ℤ_parts tv.sec (tdiv ms 1000),
      +ℤ_parts tv.usec (tmod ms 1000 *ℕ 1000),
      +ℤ_parts (micros tv) (ms *ℕ 1000),
      *ℕ_1000_parts ms,
      *ℕ_1000_parts (tmod ms 1000),
      tdiv-tmod_parts ms,
    ))

-- Where the microseconds would need a carry, the sum compares as earlier than the start of the
-- second that it has reached, although its instant is not earlier.
pub earlier_without_carry :
    (now : Timeval) (n : ℕ)
    → IsNormal now
    → pos 1_000_000 ≤ℤ (add_msec now (pos n)).usec
    → let next = timeval ((add_msec now (pos n)).sec +ℤ pos 1) (pos 0) in
      (is_earlier_than (add_msec now (pos n)) next ≡ true)
      × (micros next ≤ℤ micros (add_msec now (pos n)))
unfolding is_earlier_than micros ◌*ℕ◌ ◌+ℤ◌
earlier_without_carry now n h c = ground arith

-- `IS_LE_TIMEVAL` looks at the seconds alone.
pub is_le_timeval-sec : (a b : Timeval) → (is_le_timeval a b ≡ true) ↔ (a.sec ≤ℤ b.sec)
unfolding is_le_timeval
is_le_timeval-sec a b = ground arith
