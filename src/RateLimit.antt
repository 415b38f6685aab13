-- ===== src/RateLimit.antt =====
-- notify/rate_limit.py: the fixed-window limiter. What the Redis pipeline answers is an argument.
use xupertrade.Prelude.{
  Bool, List, Option, [], arith, false, if◌then◌else◌, length, ltb, none, some, suc, true, ℕ, ◌-◌,
  ◌∷◌, ◌≡◌, ◌≤◌, ◌⊎◌,
}
use xupertrade.Prelude.Int.{negsuc, pos, ℤ}
use xupertrade.Strategies.Sort.{count}

pub record RateLimitResult : Type 0 where
  pub allowed : Bool
  pub remaining : ℕ
  pub reset_in_seconds : ℕ

-- The three answers of the pipeline, the two that are read: none where `int` fails.
pub record Answers : Type 0 where
  pub incr : Option ℕ
  pub ttl : Option ℤ

-- `raw_ttl if raw_ttl > 0 else window_seconds`
abbrev clamp_ttl : ℕ → ℤ → ℕ
clamp_ttl window_seconds (pos t) = if ltb 0 t then t else window_seconds
clamp_ttl window_seconds (negsuc t) = window_seconds

abbrev read_ttl : ℕ → Option ℤ → ℕ
read_ttl window_seconds none = window_seconds
read_ttl window_seconds (some raw_ttl) = clamp_ttl window_seconds raw_ttl

abbrev fail_open : ℕ → ℕ → RateLimitResult
fail_open max_events window_seconds = record {
  allowed = true;
  remaining = max_events;
  reset_in_seconds = window_seconds;
}

abbrev judge : ℕ → ℕ → ℕ → RateLimitResult
judge max_events count ttl =
    if ltb max_events count
    then record { allowed = false; remaining = 0; reset_in_seconds = ttl }
    else record { allowed = true; remaining = max_events - count; reset_in_seconds = ttl }

abbrev read_answers : ℕ → ℕ → Option ℕ → Option ℤ → RateLimitResult
read_answers max_events window_seconds none ttl = fail_open max_events window_seconds
read_answers max_events window_seconds (some count) ttl =
    judge max_events count (read_ttl window_seconds ttl)

-- none: the pipeline raises
pub check_rate_limit : ℕ → ℕ → Option Answers → RateLimitResult
check_rate_limit max_events window_seconds none = fail_open max_events window_seconds
check_rate_limit max_events window_seconds (some answers) =
    read_answers max_events window_seconds answers.incr answers.ttl

-- The counter in one window answers one more on each call; what TTL answers is free.
abbrev pub burst : ℕ → List (Option ℤ) → List (Option Answers)
burst count [] = []
burst count (ttl ∷ ttls) =
    some (record { incr = some (suc count); ttl = ttl }) ∷ burst (suc count) ttls

-- How many of the calls are allowed.
pub allowed_calls : ℕ → ℕ → List (Option Answers) → ℕ
unfolding check_rate_limit
allowed_calls max_events window_seconds [] = 0
allowed_calls max_events window_seconds (a ∷ calls) =
    let rest = allowed_calls max_events window_seconds calls in
    if (check_rate_limit max_events window_seconds a).allowed then suc rest else rest

burst-allows :
    (max_events window_seconds count : ℕ) (ttls : List (Option ℤ))
    → allowed_calls max_events window_seconds (burst count ttls)
      ≡ (if ltb (length ttls) (max_events - count) then length ttls else max_events - count)
unfolding allowed_calls check_rate_limit
burst-allows max_events window_seconds count [] = ground arith
burst-allows max_events window_seconds count (ttl ∷ ttls) =
    ground (arith, burst-allows max_events window_seconds (suc count) ttls)

-- In one window of the counter, however many calls are made, exactly the first `max_events` of
-- them are allowed, or all if there are fewer.
pub window-allows :
    (max_events window_seconds : ℕ) (ttls : List (Option ℤ))
    → allowed_calls max_events window_seconds (burst 0 ttls)
      ≡ (if ltb (length ttls) max_events then length ttls else max_events)
window-allows max_events window_seconds ttls =
    ground (arith, burst-allows max_events window_seconds 0 ttls)

-- Whatever Redis answers or if it fails, the wait that is reported is at least a second when the
-- window is, the remaining calls are at most the limit, and a refusal leaves none.
check_rate_limit-bounds :
    (max_events window_seconds : ℕ) (answers : Option Answers)
    → 1 ≤ window_seconds
    → (1 ≤ (check_rate_limit max_events window_seconds answers).reset_in_seconds)
      × ((check_rate_limit max_events window_seconds answers).remaining ≤ max_events)
      × (((check_rate_limit max_events window_seconds answers).allowed ≡ true)
          ⊎ ((check_rate_limit max_events window_seconds answers).remaining ≡ 0))
unfolding check_rate_limit
check_rate_limit-bounds max_events window_seconds answers h = ground arith
