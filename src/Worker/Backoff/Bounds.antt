-- ===== src/Worker/Backoff/Bounds.antt =====
-- What the backoff of internal/worker/retry_policy.go promises.
use Prim.Native.Nat.{min, max}
use native.Mathlib.Nat.{pow-suc}
use taskpulse.Prelude.{
  ℕ, zero, suc, ◌+◌, ◌-◌, ◌*◌, ◌/◌, ◌%◌, ◌^◌, ◌≤◌, ◌<◌, ◌≡◌, ap, ◌∙◌, arith, false, ℤ, magnitude,
  is_neg,
}
use taskpulse.Result.{ok}
use taskpulse.Worker.Backoff.{RetryPolicy, validate, cap_loop, jittered, delay}

pow_two_pos : (n : ℕ) → 1 ≤ 2 ^ n
pow_two_pos zero = omega arith
pow_two_pos (suc n) = rw (pow-suc 2 n) (omega (arith, pow_two_pos n))

double_pow : (c n : ℕ) → c * 2 ^ suc n ≡ c * 2 * 2 ^ n
double_pow c n = rw (pow-suc 2 n) (omega arith)

le-mul-pow : (c n : ℕ) → c ≤ c * 2 ^ n
le-mul-pow c n = grind (arith, pow_two_pos n)

unwrapped : (c : ℕ) → c * 2 < 2 ^ 64 → (c * 2) % 2 ^ 64 ≡ c * 2
unwrapped c h = omega arith

-- The loop is the doubled base delay, cut off at the longest delay; it never wraps.
pub cap_loop-eq-min :
    (rounds max_delay cap_delay : ℕ)
    → max_delay < 2 ^ 63
    → cap_delay ≤ max_delay
    → cap_loop rounds max_delay cap_delay ≡ min (cap_delay * 2 ^ rounds) max_delay
unfolding cap_loop
cap_loop-eq-min zero max_delay cap_delay h k = omega arith
cap_loop-eq-min (suc rounds) max_delay cap_delay h k = rw (double_pow cap_delay rounds) (
    ground (
      arith,
      cap_loop-eq-min rounds max_delay (cap_delay * 2) h,
      le-mul-pow (cap_delay * 2) rounds,
      unwrapped cap_delay,
    ))

-- `rand.Int63n` gives a number below its argument.
abbrev pub IsJitter : (ℕ → ℕ) → Type 0
IsJitter int63n = (n : ℕ) → 0 < n → int63n n < n

-- The delay that the policy allows for the given retry.
abbrev pub cap_for : RetryPolicy → ℕ → ℕ
cap_for p retry_count = min (magnitude p.base_delay * 2 ^ (retry_count - 1)) (magnitude p.max_delay)

jittered_bounds :
    (int63n : ℕ → ℕ) (c : ℕ)
    → IsJitter int63n
    → 0 < c
    → (0 < jittered int63n c) × (c / 2 ≤ jittered int63n c) × (jittered int63n c ≤ c)
jittered_bounds int63n c j h =
    let draw = j (c / 2 + 1) (omega arith) in (ground arith, ground arith, ground arith)

delay_value :
    (int63n : ℕ → ℕ) (p : RetryPolicy) (retry_count : ℕ) (retry_after : ℤ)
    → validate p ≡ ok tt
    → 0 < retry_count
    → retry_count ≤ magnitude p.max_retries
    → is_neg retry_after ≡ false
    → delay int63n p retry_count retry_after
      ≡ ok (
          max (magnitude retry_after) (
            jittered int63n
              (cap_loop (retry_count - 1) (magnitude p.max_delay) (magnitude p.base_delay))))
unfolding delay
delay_value int63n p retry_count retry_after v lo hi nonneg = ground arith

valid_delays :
    (p : RetryPolicy)
    → validate p ≡ ok tt
    → (0 < magnitude p.base_delay) × (magnitude p.base_delay ≤ magnitude p.max_delay)
unfolding validate
valid_delays p v = ground arith

cap_for_pos : (p : RetryPolicy) (retry_count : ℕ) → validate p ≡ ok tt → 0 < cap_for p retry_count
cap_for_pos p retry_count v =
    omega (arith, valid_delays p v, le-mul-pow (magnitude p.base_delay) (retry_count - 1))

-- With a valid policy, a retry within its budget and a `retryAfter` that is not negative, `Delay`
-- gives a delay. It is positive and at least what was asked for, at least half of the doubled base
-- delay cut off at the longest delay, and beyond that cut-off only if that was asked for. No product
-- wraps where the longest delay is an `int64`.
pub delay_bounds :
    (int63n : ℕ → ℕ) (p : RetryPolicy) (retry_count : ℕ) (retry_after : ℤ)
    → IsJitter int63n
    → validate p ≡ ok tt
    → magnitude p.max_delay < 2 ^ 63
    → 0 < retry_count
    → retry_count ≤ magnitude p.max_retries
    → is_neg retry_after ≡ false
    → (d : ℕ) × (delay int63n p retry_count retry_after ≡ ok d)
      × (0 < d)
      × (magnitude retry_after ≤ d)
      × (cap_for p retry_count / 2 ≤ d)
      × (d ≤ max (magnitude retry_after) (cap_for p retry_count))
delay_bounds int63n p retry_count retry_after j v h lo hi nonneg =
    let c = cap_for p retry_count in
    let cap =
      cap_loop-eq-min (retry_count - 1) (magnitude p.max_delay) (magnitude p.base_delay) h
        (valid_delays p v).1 in
    let bounds = jittered_bounds int63n c j (cap_for_pos p retry_count v) in
    (
      max (magnitude retry_after) (jittered int63n c),
      delay_value int63n p retry_count retry_after v lo hi nonneg
          ∙ ap (λ k. ok (max (magnitude retry_after) (jittered int63n k))) cap,
      omega (arith, bounds),
      omega (arith, bounds),
      omega (arith, bounds),
      omega (arith, bounds),
    )
