-- ===== src/Tests/Days.antt =====
-- engine/portfolio.py and notify/rate_limit.py, on whole numbers.
use xupertrade.Dict.{Dict}
use xupertrade.Float.Whole.{whole_exact, whole_floats}
use xupertrade.Portfolio.{
  Call, Env, Portfolio, Publish, Settings, after_publish, call, check, check_risk_limits,
  ensure_loaded, flush, is_held, kill_switch_active, load, new_portfolio, persist, record_pnl,
  record_trade, report_persist_failure, roll_over, run,
}
use xupertrade.Portfolio.Accounting.{counted, realized, run-counted}
use xupertrade.Portfolio.Decision.{run-check_risk_limits}
use xupertrade.Portfolio.Durable.{restart-counted}
use xupertrade.Portfolio.Gate.{blocked}
use xupertrade.Prelude.{
  Bool, List, Option, String, [], false, none, not, refl, some, true, ◌&&◌, ◌∷◌, ◌≡◌,
}
use xupertrade.Prelude.Int.{ltb_ℤ, negsuc, pos, ℤ, ◌+ℤ◌, ◌-ℤ◌}
use xupertrade.RateLimit.{Answers, allowed_calls, burst, window-allows}

abbrev limits : Settings
limits = record { kill_switch = false; max_daily_loss_usd = pos 50 }

-- A call on a day, with Redis up or down.
abbrev met : String → Bool → Env
met today up = record {
  today = today;
  readable = up;
  writable = up;
  kill_flag = some none;
  publish = Publish.delivered;
}

-- A loss while Redis is down, a check once it is back, and another loss.
abbrev outage : List Call
outage =
    record_trade (pos 0 -ℤ pos 7) (met "d1" false)
    ∷ check true (met "d1" true)
    ∷ record_trade (pos 2) (met "d1" true)
    ∷ []

abbrev totals : Dict (Option ℤ)
totals = ("d1", some (pos 3)) ∷ []

abbrev quiet : Portfolio
quiet = record {
  has_control = true;
  has_bus = true;
  daily_pnl = pos 0;
  date_str = "d1";
  loaded = false;
  persist_pending = false;
  kill_switch_unreadable = false;
  persist_failure_logged = false;
  persist_alerted = false;
  opens_held = none;
  stored = totals;
  events = [];
}

run-counted_example :
    counted whole_exact (run limits outage quiet)
    ≡ counted whole_exact quiet +ℤ realized whole_exact outage
run-counted_example = run-counted whole_exact limits outage quiet (refl, (refl, (refl, tt)))

-- After the outage nothing is pending.
outage-settled : (run limits outage (new_portfolio true true "d1" totals)).persist_pending ≡ false
unfolding run call check_risk_limits record_pnl ensure_loaded roll_over load flush persist
    report_persist_failure after_publish kill_switch_active new_portfolio ◌+ℤ◌ ◌-ℤ◌
outage-settled = refl

restart-counted_example :
    counted whole_exact (
      new_portfolio true false
        (run limits outage (new_portfolio true true "d1" totals)).date_str
        (run limits outage (new_portfolio true true "d1" totals)).stored)
    ≡ counted whole_exact (run limits outage (new_portfolio true true "d1" totals))
restart-counted_example =
    restart-counted whole_exact limits outage true false "d1" totals outage-settled

-- A loss that was recorded during the outage counts against the cap of 50.
run-check_risk_limits_example :
    ((check_risk_limits limits false (met "d1" true) (run limits outage quiet)).1 ≡ true)
    × ((check_risk_limits limits true (met "d1" true) (run limits outage quiet)).1 ≡ (
        not (blocked limits (met "d1" true) true)
        && not (is_held none)
        && not (
            ltb_ℤ
              (counted whole_exact quiet +ℤ realized whole_exact outage)
              (whole_floats.neg (pos 50)))))
run-check_risk_limits_example =
    run-check_risk_limits whole_exact limits outage (met "d1" true) quiet (refl, (refl, (refl, tt)))
      refl refl

window-allows_example :
    allowed_calls 2 60 (burst 0 (none ∷ some (pos 59) ∷ some (negsuc 1) ∷ [])) ≡ 2
window-allows_example = window-allows 2 60 (none ∷ some (pos 59) ∷ some (negsuc 1) ∷ [])

abbrev third_call : Option Answers
third_call = some (record { incr = some 3; ttl = some (negsuc 1) })
