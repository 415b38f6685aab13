-- ===== src/Engine/Guard.antt =====
-- runner.py: the restore guard, `_check_control_state`. What Redis does is an argument of each
-- call; texts of alerts and log lines are left out.
pub mod Checked
use xupertrade.Control.{
  BotControl, Result, is_reconcile_hold_active, raised, returned, sentinel_present,
  set_reconcile_hold, state_of, write_sentinel,
}
use xupertrade.Float.{Floats}
use xupertrade.Portfolio.{Portfolio}
use xupertrade.Prelude.{
  Bool, Option, String, false, if◌then◌else◌, is_some, ltb, none, not, some, true, ℕ, ◌&&◌, ◌+◌,
  ◌||◌,
}

-- The reasons, each a fixed text that is not empty.
pub data Reason : Type 0 where
  no_connection unreadable hold_set first_pass pass_after_clear : Reason

abbrev pub text : Reason → String
text no_connection = "no Redis control connection"
text unreadable = "Redis control state unreadable"
text hold_set = "reconcile hold is set"
text first_pass = "waiting for the first reconcile pass since the bot started"
text pass_after_clear = "waiting for a reconcile pass after the hold cleared"

-- What the queued alert tells: the loss, with whether the hold's write landed, or that the hold
-- has since been cleared by hand.
pub data Alert : Type 0 where
  state_lost : Bool → Alert
  hold_cleared : Alert

-- What one check meets: whether reads of the sentinel and of the hold answer, whether writes of
-- the hold and of the sentinel land, whether an error is published, and the clocks.
pub record Weather : Type 0 where
  pub sentinel_readable : Bool
  pub hold_readable : Bool
  pub hold_lands : Bool
  pub sentinel_lands : Bool
  pub published : Bool
  pub now_text : String
  pub monotonic : ℕ

module _ ⦃N : Floats⦄ where
  -- The runner's state that the guard reads or writes.
  pub record Runner : Type 0 where
    pub control : Option BotControl
    pub has_repo : Bool
    pub portfolio : Portfolio
    pub awaiting : Option Reason
    pub awaiting_since : ℕ
    pub control_hold : Option Reason
    pub last_reconcile : ℕ
    pub lost_state_alerted : Bool
    pub lost_state_alert : Option Alert
    pub hold_alert_at : Option ℕ

  -- `EngineRunner.__init__`
  pub new_runner : Option BotControl → Bool → Portfolio → ℕ → Runner
  new_runner control has_repo portfolio monotonic = record {
    control = control;
    has_repo = has_repo;
    portfolio = portfolio;
    awaiting = if has_repo then some first_pass else none;
    awaiting_since = monotonic;
    control_hold = none;
    last_reconcile = 0;
    lost_state_alerted = false;
    lost_state_alert = none;
    hold_alert_at = none;
  }

  abbrev pub landed : Result → Bool
  landed (returned c) = true
  landed (raised c) = false

  -- `set_reconcile_hold(True)`, whose exception is caught.
  unfoldable pub write_hold : Weather → BotControl → BotControl × Bool
  write_hold w c =
      let r = set_reconcile_hold w.sentinel_lands w.hold_lands w.now_text true c in
      (state_of r, landed r)

  -- The control and whether a loss counts as alerted.
  abbrev pub Guarded : Type 0
  Guarded = BotControl × Runner

  abbrev pub queue_alert : Bool → Runner → Runner
  queue_alert lands g =
      if g.lost_state_alerted
      then g
      else record g { lost_state_alerted = true; lost_state_alert = some (state_lost lands) }

  abbrev pub after_sentinel : Result → Runner → Guarded
  after_sentinel (returned c) g = (c, record g { lost_state_alerted = false })
  after_sentinel (raised c) g = (c, g)

  unfoldable pub secure_lost_control_state : Weather → BotControl → Runner → Guarded
  unfolding write_hold
  secure_lost_control_state w c g =
      let (held_control, lands) = write_hold w c in
      let alerted = queue_alert lands g in
      if lands
      then after_sentinel (write_sentinel w.sentinel_lands w.now_text held_control) alerted
      else (held_control, alerted)

  -- The end of `_read_control_state`: the hold's own key. It is read only where it matters.
  abbrev pub read_hold : Weather → BotControl → Runner → Guarded × Option Reason
  read_hold w c g =
      if c.connected && (not c.hold_unwritten && not w.hold_readable)
      then ((c, g), some unreadable)
      else ((c, g), if is_reconcile_hold_active c then some hold_set else none)

  abbrev pub retry_hold : Weather → BotControl → Runner → Guarded × Option Reason
  retry_hold w c g =
      let (written, lands) = write_hold w c in
      if lands then read_hold w written g else ((written, g), some hold_set)

  -- What follows the read of the sentinel; none where it raises.
  abbrev pub on_sentinel : Weather → Runner → BotControl × Option Bool → Guarded × Option Reason
  on_sentinel w g (c, none) = ((c, g), some unreadable)
  on_sentinel w g (c, some false) = (secure_lost_control_state w c g, some hold_set)
  on_sentinel w g (c, some true) =
      let back = record g { lost_state_alerted = false } in
      if c.hold_unwritten then retry_hold w c back else read_hold w c back

  unfoldable pub read_control_state : Weather → BotControl → Runner → Guarded × Option Reason
  unfolding secure_lost_control_state write_hold
  read_control_state w c g = on_sentinel w g (sentinel_present w.sentinel_readable c)

  -- `why or self._awaiting`
  abbrev pub either : Option Reason → Option Reason → Option Reason
  either none awaiting = awaiting
  either (some why) awaiting = some why

  abbrev pub shown : Option Reason → Option String
  shown none = none
  shown (some why) = some (text why)

  -- A hold that was there and is gone: opens wait for a pass that counts, which is due at once.
  unfoldable pub note_cleared : Weather → Option Reason → Runner → Runner
  note_cleared w why g =
      if is_some g.control_hold && not (is_some why)
      then if not (is_some g.awaiting) && g.has_repo
        then record g {
          awaiting = some pass_after_clear;
          awaiting_since = w.monotonic;
          last_reconcile = 0;
        }
        else record g { last_reconcile = 0 }
      else g

  abbrev reword : Option Reason → Option Alert → Option Alert
  reword none (some alert) = some hold_cleared
  reword _ alert = alert

  unfoldable pub publish_alert : Weather → Option Reason → Runner → Runner
  publish_alert w why g =
      let reworded = record g { lost_state_alert = reword why g.lost_state_alert } in
      if is_some g.lost_state_alert && w.published
      then record reworded { lost_state_alert = none; hold_alert_at = some w.monotonic }
      else reworded

  -- What the answer to the read changes.
  unfoldable pub conclude : Weather → Bool → Option Reason → Runner → Runner
  unfolding note_cleared publish_alert
  conclude w has_control why g =
      let noted = note_cleared w why g in
      publish_alert w why (record noted {
        control_hold = why;
        portfolio = record noted.portfolio {
          opens_held = if has_control then shown (either why noted.awaiting) else none;
        };
      })

  abbrev pub check_with : Weather → Runner → Option BotControl → Runner × Option Reason
  check_with w g none = (conclude w false (some no_connection) g, some no_connection)
  check_with w g (some c) =
      let ((after, h), why) = read_control_state w c g in
      (conclude w true why (record h { control = some after }), why)

  unfoldable pub check_control_state : Weather → Runner → Runner × Option Reason
  unfolding read_control_state conclude
  check_control_state w g = check_with w g g.control

  -- Every five minutes, and while opens wait for a pass, unless the bot is paused; the clock in
  -- seconds, and the answer of `is_paused`, none where it raises.
  unfoldable pub reconcile_due : ℕ → Option Bool → Runner → Bool
  reconcile_due now paused g =
      if ltb (g.last_reconcile + 300) now
      then true
      else if not (is_some g.control) || not (is_some g.awaiting)
      then false
      else elim paused [ none ↦ false | some p ↦ not p ]
