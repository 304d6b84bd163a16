-- ===== src/Worker/Backoff.antt =====
-- internal/worker/retry_policy.go: the delay before a retry. A `time.Duration` is its number of
-- nanoseconds; the jitter source is a function, so one call stands for one draw.
pub mod Bounds
use taskpulse.Prelude.{
  ℕ, zero, suc, ◌+◌, ◌-◌, ◌*◌, ◌/◌, ◌%◌, ◌^◌, Bool, true, false, not, ◌||◌, ℤ, pos, negsuc, is_neg,
  is_nonpos, magnitude, ltb, leb, ◌==◌, if◌then◌else◌,
}
use taskpulse.Result.{
  Error, Result, ok, err, invalid_max_retries, invalid_base_delay, invalid_max_delay,
  invalid_retry_count, invalid_retry_after,
}

pub record RetryPolicy : Type 0 where
  pub max_retries : ℤ
  pub base_delay : ℤ
  pub max_delay : ℤ

-- `a < b`
abbrev pub ltb_ℤ : ℤ → ℤ → Bool
ltb_ℤ (pos a) (pos b) = ltb a b
ltb_ℤ (pos a) (negsuc b) = false
ltb_ℤ (negsuc a) (pos b) = true
ltb_ℤ (negsuc a) (negsuc b) = ltb b a

unfoldable pub validate : RetryPolicy → Result (Unit {0})
validate p =
    if is_neg p.max_retries
    then err invalid_max_retries
    else if is_nonpos p.base_delay
    then err invalid_base_delay
    else if ltb_ℤ p.max_delay p.base_delay
    then err invalid_max_delay
    else ok tt

-- The loop over `retry`, with the rounds that are left; doubling wraps in 64 bits.
unfoldable pub cap_loop : ℕ → ℕ → ℕ → ℕ
cap_loop zero max_delay cap_delay = cap_delay
cap_loop (suc rounds) max_delay cap_delay =
    let rest = cap_loop rounds max_delay ((cap_delay * 2) % 2 ^ 64) in
    if ltb cap_delay max_delay
    then (if ltb (max_delay / 2) cap_delay then max_delay else rest)
    else cap_delay

-- Half of the capped delay, and a random part of the other half.
abbrev pub jittered : (ℕ → ℕ) → ℕ → ℕ
jittered int63n cap_delay =
    let half = cap_delay / 2 in if ltb 0 half then half + int63n (half + 1) else cap_delay

unfoldable pub delay : (ℕ → ℕ) → RetryPolicy → ℕ → ℤ → Result ℕ
unfolding cap_loop validate
delay int63n p retry_count retry_after = elim (validate p) [
  | err e ↦ err e
  | ok _ ↦
      if ltb retry_count 1 || ltb (magnitude p.max_retries) retry_count
      then err invalid_retry_count
      else if is_neg retry_after
      then err invalid_retry_after
      else (let d =
            jittered int63n
              (cap_loop (retry_count - 1) (magnitude p.max_delay) (magnitude p.base_delay)) in
          if ltb d (magnitude retry_after) then ok (magnitude retry_after) else ok d)
]
