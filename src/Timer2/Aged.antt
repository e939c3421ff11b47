-- ===== src/Timer2/Aged.antt =====
-- An event of misc_timer2.c with an interval of less than a second, behind some executions.
use mathlib.Core.Path.{subst}
use libmisc.Base.{ℕ, suc, ◌+◌, ◌-◌, ◌*◌, ◌<◌, ◌≤◌, ◌≡◌, ap, ◌∙◌, true, List, ◌∷◌, arith, All}
use libmisc.Base.Int.{ℤ, pos, negsuc, ◌+ℤ◌, ◌-ℤ◌, ◌*ℕ◌, ◌≤ℤ◌, -ℤ_parts, +ℤ_parts, eq_of_parts}
use libmisc.Time.{Timeval, timeval, is_le_timeval}
use libmisc.Time.Bounds.{IsInt}
use libmisc.Timer2.{Event, tv_add}
use libmisc.Timer2.Execute.{is_due, next_time, ticked}

-- The interval is `n` milliseconds, less than a second; the event loops forever; and all the times lie
-- in the second of its last execution, or later.
pub record IsHot (times : List Timeval) (e : Event) : Type 0 where
  pub n : ℕ
  pub short : n < 1000
  pub interval : e.interval ≡ pos n
  pub forever : e.count ≤ℤ pos 0
  pub reached : All (λ (now : Timeval). e.last_time.sec ≤ℤ now.sec) times

-- The event behind one more execution: the second of its last execution stays.
next_time-sec :
    (e : Event) (n : ℕ) → n < 1000 → e.interval ≡ pos n → (next_time e).sec ≡ e.last_time.sec
unfolding tv_add
next_time-sec e n short h = rw h (ground (arith, short))

next_time-usec :
    (e : Event) (n : ℕ)
    → n < 1000
    → e.interval ≡ pos n
    → (next_time e).usec ≡ e.last_time.usec +ℤ pos (n * 1000)
unfolding tv_add
next_time-usec e n short h = rw h (ground (arith, short))

pub is_due-IsHot :
    (now : Timeval) (times : List Timeval) (e : Event) → IsHot (now ∷ times) e → is_due now e ≡ true
unfolding is_le_timeval
is_due-IsHot now times e h =
    rw (next_time-sec e h.n h.short h.interval) (ground (arith, h.reached.0))

-- The event behind `k` executions.
unfoldable pub aged : ℕ → Event → Event
aged k e = record e {
  count = e.count -ℤ pos k;
  last_time = timeval e.last_time.sec (e.last_time.usec +ℤ e.interval *ℕ (k * 1000));
}

*ℕ-pos : (n k : ℕ) → pos n *ℕ k ≡ pos (n * k)
unfolding ◌*ℕ◌
*ℕ-pos n k = ground arith

+ℤ-pos-pos : (a : ℤ) (m n : ℕ) → (a +ℤ pos m) +ℤ pos n ≡ a +ℤ pos (m + n)
+ℤ-pos-pos a m n =
    eq_of_parts _ _
      (omega (arith, +ℤ_parts a (pos m), +ℤ_parts (a +ℤ pos m) (pos n), +ℤ_parts a (pos (m + n))))

-ℤ-pos-pos : (a : ℤ) (m n : ℕ) → (a -ℤ pos m) -ℤ pos n ≡ a -ℤ pos (m + n)
-ℤ-pos-pos a m n =
    eq_of_parts _ _
      (omega (arith, -ℤ_parts a (pos m), -ℤ_parts (a -ℤ pos m) (pos n), -ℤ_parts a (pos (m + n))))

mul_suc : (n k : ℕ) → n * 1000 + n * (k * 1000) ≡ n * (suc k * 1000)
mul_suc n k = grind arith

one_more : (k : ℕ) → 1 + k ≡ suc k
one_more k = omega arith

pub aged_zero : (e : Event) → aged 0 e ≡ e
unfolding aged ◌*ℕ◌ ◌+ℤ◌ ◌-ℤ◌
aged_zero e =
    let count : e.count -ℤ pos 0 ≡ e.count = ground arith in
    let usec : e.last_time.usec +ℤ e.interval *ℕ (0 * 1000) ≡ e.last_time.usec = ground arith in
    λ i. record e { count = count i; last_time = timeval e.last_time.sec (usec i) }

pub aged-ticked :
    (k n : ℕ) (e : Event) → n < 1000 → e.interval ≡ pos n → aged k (ticked e) ≡ aged (suc k) e
unfolding aged
aged-ticked k n e short h =
    let count : (e.count -ℤ pos 1) -ℤ pos k ≡ e.count -ℤ pos (suc k) =
      -ℤ-pos-pos e.count 1 k ∙ ap (λ m. e.count -ℤ pos m) (one_more k) in
    let sec = next_time-sec e n short h in
    let times = λ (m : ℕ). ap (λ a. a *ℕ m) h ∙ *ℕ-pos n m in
    let usec : (next_time e).usec +ℤ e.interval *ℕ (k * 1000)
        ≡ e.last_time.usec +ℤ e.interval *ℕ (suc k * 1000) =
      rw (next_time-usec e n short h, times (k * 1000), times (suc k * 1000))
        (+ℤ-pos-pos e.last_time.usec (n * 1000) (n * (k * 1000))
          ∙ ap (λ m. e.last_time.usec +ℤ pos m) (mul_suc n k)) in
    λ i. record e { count = count i; last_time = timeval (sec i) (usec i) }

pub ticked-IsHot :
    (now : Timeval) (times : List Timeval) (e : Event)
    → IsHot (now ∷ times) e
    → IsHot times (ticked e)
ticked-IsHot now times e h = record {
  n = h.n;
  short = h.short;
  interval = h.interval;
  forever = omega (arith, -ℤ_parts e.count (pos 1), h.forever);
  reached = rw (next_time-sec e h.n h.short h.interval) h.reached.1;
}

-- The microseconds and the count are values of 32 bits.
abbrev pub InRange : Event → Type 0
InRange e = IsInt e.last_time.usec × IsInt e.count

-- They are so behind `k` executions, as far as the executions move them.
pub record HasRoom (k : ℕ) (e : Event) : Type 0 where
  pub low : negsuc 2_147_483_647 ≤ℤ e.last_time.usec
  pub usec : (aged k e).last_time.usec ≤ℤ pos 2_147_483_647
  pub count : negsuc 2_147_483_647 ≤ℤ (aged k e).count

mul_split : (n j d : ℕ) → n * ((j + d) * 1000) ≡ n * (j * 1000) + n * (d * 1000)
mul_split n j d = grind arith

mul_mono : (n j k : ℕ) → j ≤ k → n * (j * 1000) ≤ n * (k * 1000)
mul_mono n j k h =
    let whole : k ≡ j + (k - j) = omega (arith, h) in
    omega (arith, mul_split n j (k - j), ap (λ m. n * (m * 1000)) whole)

-- They are so all along.
pub aged-InRange :
    (times : List Timeval) (j k : ℕ) (e : Event)
    → IsHot times e
    → HasRoom k e
    → j ≤ k
    → InRange (aged j e)
unfolding aged
aged-InRange times j k e h room few =
    let moved = λ (m : ℕ). ap (λ a. a *ℕ (m * 1000)) h.interval ∙ *ℕ-pos h.n (m * 1000) in
    let last : e.last_time.usec +ℤ pos (h.n * (k * 1000)) ≤ℤ pos 2_147_483_647 =
      subst (λ a. e.last_time.usec +ℤ a ≤ℤ pos 2_147_483_647) (moved k) room.usec in
    let sum_j = +ℤ_parts e.last_time.usec (pos (h.n * (j * 1000))) in
    let sum_k = +ℤ_parts e.last_time.usec (pos (h.n * (k * 1000))) in
    let more = mul_mono h.n j k few in
    (
      rw (moved j) (omega (arith, room.low, sum_j), omega (arith, last, sum_j, sum_k, more)),
      (
        omega (arith, room.count, -ℤ_parts e.count (pos j), -ℤ_parts e.count (pos k), few),
        omega (arith, h.forever, -ℤ_parts e.count (pos j)),
      ),
    )
