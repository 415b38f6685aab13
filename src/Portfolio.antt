-- ===== src/Portfolio.antt =====
-- bot/hypertrade/engine/portfolio.py: today's realized PnL, the daily-loss cap and the kill switch.
-- The part of Redis that holds the daily totals is in the state. Whether a read or a write of Redis
-- succeeds, today's date, and what the event bus answers are arguments of each call. That a stored
-- total expires after 48 hours, long after its day, is left out.
pub mod Accounting
pub mod Durable
pub mod Gate
pub mod Decision
use xupertrade.Dict.{Dict, insert, lookup}
use xupertrade.Float.{Floats, Number, nil, ◌≺◌, ◌⊕◌}
use xupertrade.Prelude.{
  Bool, List, Option, String, [], false, if◌then◌else◌, none, not, some, true, ◌++◌, ◌==◌, ◌∷◌,
}

-- How `event_bus.publish` ends. A bus that does not report answers None.
pub data Publish : Type 0 where
  raised undelivered delivered unreported : Publish

module _ ⦃N : Floats⦄ where
  pub record Settings : Type 0 where
    pub kill_switch : Bool
    pub max_daily_loss_usd : Number

  -- What one call meets: the date, whether the total can be read and written, the answer of
  -- `is_kill_switch_active` (the outer none: it raises), and the bus.
  pub record Env : Type 0 where
    pub today : String
    pub readable : Bool
    pub writable : Bool
    pub kill_flag : Option (Option Bool)
    pub publish : Publish

  pub record Portfolio : Type 0 where
    pub has_control : Bool
    pub has_bus : Bool
    pub daily_pnl : Number
    pub date_str : String
    pub loaded : Bool
    pub persist_pending : Bool
    pub kill_switch_unreadable : Bool
    pub persist_failure_logged : Bool
    pub persist_alerted : Bool
    pub opens_held : Option String
    -- Redis: the stored totals by date, as `float` reads them, none where it raises
    pub stored : Dict (Option Number)
    -- the dates of the ErrorOccurred events handed to the bus
    pub events : List String

  -- What `control.get_daily_pnl` makes of the key's value: a missing one, a text that is no number,
  -- an infinity and NaN count as 0.
  abbrev pub finite_or_zero : Option (Option Number) → Number
  finite_or_zero none = nil
  finite_or_zero (some none) = nil
  finite_or_zero (some (some x)) = if N.finite x then x else nil

  -- `control.get_daily_pnl`, where it can be read
  abbrev pub stored_total : String → Portfolio → Number
  stored_total date p = finite_or_zero (lookup date p.stored)

  -- `PortfolioManager.__init__`, over what Redis holds
  unfoldable pub new_portfolio : Bool → Bool → String → Dict (Option Number) → Portfolio
  new_portfolio has_control has_bus today stored = record {
    has_control = has_control;
    has_bus = has_bus;
    daily_pnl = nil;
    date_str = today;
    loaded = false;
    persist_pending = false;
    kill_switch_unreadable = false;
    persist_failure_logged = false;
    persist_alerted = false;
    opens_held = none;
    stored = stored;
    events = [];
  }

  -- The UTC rollover at the head of `_ensure_loaded`.
  unfoldable pub roll_over : String → Portfolio → Portfolio
  roll_over today p =
      if today == p.date_str
      then p
      else record p { date_str = today; daily_pnl = nil; loaded = false; persist_pending = false }

  -- The rest of `_ensure_loaded`.
  unfoldable pub load : Env → Portfolio → Portfolio
  load env p =
      if p.loaded
      then p
      else if not p.has_control
      then record p { loaded = true }
      else if not env.readable
      then p
      else let unloaded = p.daily_pnl in
        record p {
          daily_pnl = stored_total env.today p ⊕ unloaded;
          loaded = true;
          persist_pending = if N.eq unloaded nil then p.persist_pending else true;
        }

  unfoldable pub ensure_loaded : Env → Portfolio → Portfolio
  unfolding roll_over load
  ensure_loaded env p = load env (roll_over env.today p)

  -- `delivered is not False`
  unfoldable pub after_publish : Publish → Portfolio → Portfolio
  after_publish raised p = p
  after_publish undelivered p = p
  after_publish delivered p = record p { persist_alerted = true }
  after_publish unreported p = record p { persist_alerted = true }

  unfoldable pub report_persist_failure : Env → Portfolio → Portfolio
  unfolding after_publish
  report_persist_failure env p =
      if p.persist_alerted
      then p
      else let logged = record p { persist_failure_logged = true } in
        if not p.has_bus
        then logged
        else after_publish env.publish (record logged { events = logged.events ++ p.date_str ∷ [] })

  unfoldable pub persist : Env → Portfolio → Portfolio
  unfolding report_persist_failure
  persist env p =
      if not p.has_control
      then record p { persist_pending = false }
      else if not p.loaded
      then report_persist_failure env (record p { persist_pending = true })
      else if not env.writable
      then report_persist_failure env (record p { persist_pending = true })
      else record p {
        stored = insert p.date_str (some (N.fixed10 p.daily_pnl)) p.stored;
        persist_pending = false;
        persist_failure_logged = false;
        persist_alerted = false;
      }

  -- `settings.kill_switch if redis_state is None else redis_state`
  abbrev override_or : Bool → Option Bool → Bool
  override_or default none = default
  override_or default (some b) = b

  -- The part of `_kill_switch_active` where Redis is wired.
  abbrev pub read_switch : Settings → Option (Option Bool) → Portfolio → Portfolio × Bool
  read_switch settings none p = (record p { kill_switch_unreadable = true }, true)
  read_switch settings (some flag) p =
      (record p { kill_switch_unreadable = false }, override_or settings.kill_switch flag)

  unfoldable pub kill_switch_active : Settings → Env → Portfolio → Portfolio × Bool
  kill_switch_active settings env p =
      if not p.has_control then (p, settings.kill_switch) else read_switch settings env.kill_flag p

  -- `if self.opens_held:`, where an empty text is false
  abbrev pub is_held : Option String → Bool
  is_held none = false
  is_held (some why) = not (why == "")

  unfoldable pub flush : Env → Portfolio → Portfolio
  unfolding persist
  flush env p = if p.persist_pending then persist env p else p

  unfoldable pub check_risk_limits : Settings → Bool → Env → Portfolio → Portfolio × Bool
  unfolding ensure_loaded flush kill_switch_active
  check_risk_limits settings is_open env p =
      let q = flush env (ensure_loaded env p) in
      if not is_open
      then (q, true)
      else let (r, active) = kill_switch_active settings env q in
        if active
        then (r, false)
        else if is_held r.opens_held
        then (r, false)
        else (r, not (r.daily_pnl ≺ N.neg settings.max_daily_loss_usd))

  unfoldable pub record_pnl : Number → Env → Portfolio → Portfolio
  unfolding ensure_loaded persist
  record_pnl pnl env p =
      let q = ensure_loaded env p in persist env (record q { daily_pnl = q.daily_pnl ⊕ pnl })

  -- One call on the manager, from the runner.
  pub data Call : Type 0 where
    check : Bool → Env → Call
    record_trade : Number → Env → Call

  abbrev pub env_of : Call → Env
  env_of (check is_open env) = env
  env_of (record_trade pnl env) = env

  unfoldable pub call : Settings → Call → Portfolio → Portfolio
  unfolding check_risk_limits record_pnl
  call settings (check is_open env) p = (check_risk_limits settings is_open env p).0
  call settings (record_trade pnl env) p = record_pnl pnl env p

  unfoldable pub run : Settings → List Call → Portfolio → Portfolio
  unfolding call
  run settings [] p = p
  run settings (c ∷ cs) p = run settings cs (call settings c p)
