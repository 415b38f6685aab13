-- ===== src/Tests/Restore.antt =====
-- runner.py on a Redis that was emptied and comes back, on whole numbers as the floats.
use xupertrade.Control.{BotControl, hold, pause}
use xupertrade.Engine.Guard.{Runner, Weather, check_control_state, first_pass, hold_set}
use xupertrade.Engine.Periodic.{options_of, run_reconcile}
use xupertrade.Engine.Periodic.Events.{
  Event, PassCall, calls, checks, happen_all, performs, reconciles, redis_emptied,
}
use xupertrade.Engine.Periodic.Orders.{held_pass-no_order}
use xupertrade.Engine.Periodic.Release.{counted_pass-releases}
use xupertrade.Engine.Periodic.Released.{cleared}
use xupertrade.Engine.Periodic.Safety.{lost_state-refuses}
use xupertrade.Engine.Periodic.Waiting.{waiting-refuses}
use xupertrade.Exchange.{PositionSide}
use xupertrade.Float.{◌≺◌}
use xupertrade.Float.Whole.{whole_floats}
use xupertrade.Portfolio.{
  Env, Portfolio, Publish, Settings, check_risk_limits, ensure_loaded, record_trade,
}
use xupertrade.Portfolio.Gate.{blocked}
use xupertrade.Prelude.{List, [], false, none, not, refl, some, true, ◌&&◌, ◌∷◌, ◌≡◌}
use xupertrade.Prelude.Int.{pos, ◌-ℤ◌}
use xupertrade.Repository.{Database}
use xupertrade.Repository.Closing.{Surroundings}
use xupertrade.Repository.Reconciler.{Exchange, ReconcileResult}
use xupertrade.Repository.Reconciler.Run.{reconcile_positions}

-- Redis answers, without a sentinel and without a hold.
abbrev wiped : BotControl
wiped = record {
  connected = true;
  hold_unwritten = false;
  sentinel_unwritten = false;
  paused_key = none;
  disabled_key = [];
  flat_req_key = none;
  flat_done_key = none;
  kill_switch_key = none;
  sentinel_key = none;
  reconcile_hold_key = none;
}

abbrev fair : Weather
fair = record {
  sentinel_readable = true;
  hold_readable = true;
  hold_lands = true;
  sentinel_lands = true;
  published = true;
  now_text = "10";
  monotonic = 10;
}

abbrev foul : Weather
foul = record fair { sentinel_readable = false; hold_lands = false }

abbrev today_env : Env
today_env = record {
  today = "d1";
  readable = true;
  writable = true;
  kill_flag = some none;
  publish = Publish.delivered;
}

abbrev limits_50 : Settings
limits_50 = record { kill_switch = false; max_daily_loss_usd = pos 50 }

abbrev manager : Portfolio
manager = record {
  has_control = true;
  has_bus = true;
  daily_pnl = pos 0;
  date_str = "d1";
  loaded = false;
  persist_pending = false;
  kill_switch_unreadable = false;
  persist_failure_logged = false;
  persist_alerted = false;
  opens_held = none;
  stored = [];
  events = [];
}

abbrev started : Runner
started = record {
  control = some wiped;
  has_repo = true;
  portfolio = manager;
  awaiting = some first_pass;
  awaiting_since = 1;
  control_hold = none;
  last_reconcile = 0;
  lost_state_alerted = false;
  lost_state_alert = none;
  hold_alert_at = none;
}

abbrev clean_result : ReconcileResult
clean_result = record {
  actions = [];
  failures = [];
  skipped = none;
  db_open = 0;
  exchange_open = 0;
  held_orphans = [];
  unresolved_orphans = [];
}

abbrev clean_pass : PassCall
clean_pass = record {
  weather = fair;
  env = today_env;
  traded = "BTC" ∷ [];
  paused = some false;
  pass = λ opts. some (clean_result, []);
}

abbrev night : List Event
night =
    reconciles clean_pass
    ∷ redis_emptied
    ∷ checks foul
    ∷ performs (pause true false)
    ∷ calls limits_50 (record_trade (pos 3) today_env)
    ∷ checks fair
    ∷ []

lost_state-refuses_example :
    (check_risk_limits limits_50 true today_env
      (happen_all night (check_control_state fair started).0).portfolio).1
    ≡ false
lost_state-refuses_example =
    lost_state-refuses fair started wiped night limits_50 today_env refl refl refl
      (refl, (refl, (refl, (refl, (refl, (refl, tt))))))

-- A human clears the hold, and no pass runs.
abbrev cleared_only : List Event
cleared_only = performs (hold true true "11" false) ∷ checks fair ∷ []

waiting-refuses_example :
    (check_risk_limits limits_50 true today_env
      (check_control_state fair (happen_all cleared_only started)).0.portfolio).1
    ≡ false
waiting-refuses_example =
    waiting-refuses fair started cleared_only limits_50 today_env (refl, refl, refl)
      (refl, (refl, tt))

abbrev nowhere : Surroundings
nowhere = record {
  fold = λ s. s;
  user_fills = λ since. none;
  current_price = λ symbol. none;
  taker_fee_rate = pos 0;
  now = 0;
  fresh_id = λ id. "r";
  others = λ db. db;
  commits = true;
  trade_commits = true;
}

abbrev orphaned : Exchange
orphaned = record {
  first_read = some (
      record {
        symbol = "BTC";
        side = PositionSide.short;
        size = pos 2;
        entry_price = pos 9;
        unrealized_pnl = pos 0;
        liquidation_price = none;
      }
      ∷ []);
  second_read = none;
  orphan_read = none;
  send_order = λ symbol side size. none;
}

abbrev empty_books : Database
empty_books = record { positions = []; trades = []; next_id = 1 }

held_pass-no_order_example :
    (reconcile_positions "testnet" nowhere orphaned
      (options_of false none (some first_pass) ("BTC" ∷ []))
      empty_books).sent
    ≡ []
held_pass-no_order_example =
    held_pass-no_order false none (some first_pass) ("BTC" ∷ []) "testnet" nowhere orphaned
      empty_books refl

-- The bot saw the sentinel missing; the hold is cleared by hand.
abbrev seen : BotControl
seen = record wiped { sentinel_unwritten = true; reconcile_hold_key = some "10" }

abbrev released : Runner
released = record started {
  control = some (cleared "12" seen);
  awaiting = none;
  control_hold = some hold_set;
}

counted_pass-releases_example :
    (let p =
        (happen_all
          (checks fair ∷ calls limits_50 (record_trade (pos 3) today_env) ∷ checks fair ∷ [])
          (run_reconcile fair today_env
            ("BTC" ∷ [])
            (some false)
            (λ opts. some (clean_result, []))
            released).0).portfolio in
      (check_risk_limits limits_50 true today_env p).1 ≡ (
        not (blocked limits_50 today_env p.has_control)
        && not ((ensure_loaded today_env p).daily_pnl ≺ (pos 0 -ℤ pos 50))))
counted_pass-releases_example =
    counted_pass-releases "12" fair today_env today_env ("BTC" ∷ [])
      (λ opts. some (clean_result, [])) released seen clean_result [] limits_50
      (checks fair ∷ calls limits_50 (record_trade (pos 3) today_env) ∷ checks fair ∷ []) refl refl
      refl refl (refl, refl) (λ opts. refl) refl refl refl ((refl, refl), (tt, ((refl, refl), tt)))
