-- ===== src/Engine/Periodic/Events.antt =====
-- runner.py, control.py and portfolio.py together: what can happen to a running bot.
use xupertrade.Control.{BotControl, Command, perform, state_of}
use xupertrade.Engine.Guard.{Runner, Weather, check_control_state}
use xupertrade.Engine.Periodic.{run_reconcile}
use xupertrade.Float.{Floats, Number}
use xupertrade.Portfolio.{Call, Env, Settings, call}
use xupertrade.Prelude.{Bool, List, Option, String, [], none, some, ◌∷◌}
use xupertrade.Repository.Reconciler.{Options, ReconcileResult}

-- `redis_emptied` is the loss of every key.
module _ ⦃N : Floats⦄ where
  -- What one reconcile pass meets.
  pub record PassCall : Type 0 where
    pub weather : Weather
    pub env : Env
    pub traded : List String
    pub paused : Option Bool
    pub pass : Options → Option (ReconcileResult × List (String × Number))

  pub data Event : Type 0 where
    checks : Weather → Event
    reconciles : PassCall → Event
    calls : Settings → Call → Event
    redis_emptied : Event
    performs : Command → Event

  abbrev pub emptied : BotControl → BotControl
  emptied c = record c {
    paused_key = none;
    disabled_key = [];
    flat_req_key = none;
    flat_done_key = none;
    kill_switch_key = none;
    sentinel_key = none;
    reconcile_hold_key = none;
  }

  abbrev pub on_control : (BotControl → BotControl) → Option BotControl → Option BotControl
  on_control f none = none
  on_control f (some c) = some (f c)

  unfoldable pub happen : Event → Runner → Runner
  unfolding check_control_state run_reconcile call
  happen (checks w) g = (check_control_state w g).0
  happen (reconciles k) g = (run_reconcile k.weather k.env k.traded k.paused k.pass g).0
  happen (calls settings c) g = record g { portfolio = call settings c g.portfolio }
  happen redis_emptied g = record g { control = on_control emptied g.control }
  happen (performs command) g = record g {
    control = on_control (λ c. state_of (perform command c)) g.control;
  }

  unfoldable pub happen_all : List Event → Runner → Runner
  unfolding happen
  happen_all [] g = g
  happen_all (e ∷ l) g = happen_all l (happen e g)
