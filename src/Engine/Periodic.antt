-- ===== src/Engine/Periodic.antt =====
-- runner.py: `_run_reconcile`. The reconcile pass of the repository is an argument, with its calls of
-- `_on_reconcile_close`; the notices, and with them `_remind_hold`, are left out.
pub mod Events
pub mod Safety
pub mod Orders
pub mod Released
pub mod Release
pub mod Waiting
use xupertrade.Control.{BotControl}
use xupertrade.Engine.Guard.{
  Reason, Runner, Weather, check_control_state, first_pass, hold_set, shown, text, write_hold,
}
use xupertrade.Float.{Floats, Number}
use xupertrade.Portfolio.{Env, Portfolio, record_pnl}
use xupertrade.Portfolio.Accounting.{counted}
use xupertrade.Prelude.{
  Bool, List, Option, String, [], contains, false, filter, if◌then◌else◌, is_some, none, not, some,
  true, ◌++◌, ◌||◌, ◌∷◌,
}
use xupertrade.Repository.Reconciler.{Options, ReconcileResult, hold_set_note, is_nonempty}

module _ ⦃N : Floats⦄ where
  -- The answer of `is_paused` as `_run_reconcile` takes it.
  abbrev pub paused_or : Option BotControl → Option Bool → Bool
  paused_or none paused = false
  paused_or (some c) none = true
  paused_or (some c) (some p) = p

  -- `_FIRST_PASS`
  abbrev first_pass_text : String
  first_pass_text = "first reconcile pass since the bot started"

  -- `hold or first`
  abbrev pub hold_text : Option Reason → Option Reason → Option String
  hold_text (some why) awaiting = some (text why)
  hold_text none (some first_pass) = some first_pass_text
  hold_text none _ = none

  -- What the pass is called with.
  abbrev pub options_of : Bool → Option Reason → Option Reason → List String → Options
  options_of paused hold_reason awaiting traded = record {
    close_exchange_orphans = not paused;
    dry_run = paused;
    hold_orphans = hold_text hold_reason awaiting;
    traded_symbols = traded;
  }

  -- `_on_reconcile_close`, for the PnL of each close.
  pub book_closes : Env → List (String × Number) → Portfolio → Portfolio
  unfolding record_pnl
  book_closes env [] p = p
  book_closes env ((_, pnl) ∷ l) p = book_closes env l (record_pnl pnl env p)

  -- Whether the pass counts: opens no longer wait for one.
  abbrev pub counts : Bool → Option Reason → ReconcileResult → Bool
  counts paused none r = not (paused || (is_some r.skipped || is_nonempty r.unresolved_orphans))
  counts paused (some hold_set) r =
      not (paused || (is_some r.skipped || is_nonempty r.unresolved_orphans))
  counts paused (some _) r = false

  abbrev pub count_pass : Bool → Option Reason → Runner → Runner
  count_pass true hold_reason g = record g {
    awaiting = none;
    portfolio = record g.portfolio { opens_held = shown hold_reason };
  }
  count_pass false hold_reason g = g

  -- The held orphans on coins that are traded, looked for only where nothing else holds.
  abbrev pub held_traded : Option Reason → List String → ReconcileResult → List String
  held_traded none traded r = filter (λ s. contains s r.held_orphans) traded
  held_traded (some why) traded r = []

  abbrev rewrite_hold : Weather → Option BotControl → Option BotControl
  rewrite_hold w none = none
  rewrite_hold w (some c) = some (write_hold w c).0

  -- The hold is set again, in memory even where its write raises.
  abbrev pub set_again : Weather → List String → Runner → ReconcileResult → Runner × ReconcileResult
  set_again w [] g r = (g, r)
  set_again w (s ∷ l) g r = (
    record g {
      control = rewrite_hold w g.control;
      control_hold = some hold_set;
      portfolio = record g.portfolio { opens_held = some (text hold_set) };
    },
    record r { failures = r.failures ++ hold_set_note (s ∷ l) ∷ [] },
  )

  -- What follows the pass; none where it raised.
  unfoldable pub after_pass :
      Weather
      → Env
      → List String
      → Bool
      → Option Reason
      → Runner
      → Option (ReconcileResult × List (String × Number))
      → Runner × Option ReconcileResult
  unfolding book_closes write_hold
  after_pass w env traded paused hold_reason g none = (g, none)
  after_pass w env traded paused hold_reason g (some (r, closed)) =
      let booked = record g { portfolio = book_closes env closed g.portfolio } in
      let counted = count_pass (counts paused hold_reason r) hold_reason booked in
      let (after, result) = set_again w (held_traded hold_reason traded r) counted r in
      (after, some result)

  -- The check, the pass, and what follows them.
  unfoldable pub check_and_pass :
      Weather
      → Env
      → List String
      → (Options → Option (ReconcileResult × List (String × Number)))
      → Bool
      → Runner
      → Runner × Option ReconcileResult
  unfolding check_control_state after_pass
  check_and_pass w env traded pass paused g =
      let (checked, why) = check_control_state w g in
      after_pass w env traded paused why checked
        (pass (options_of paused why checked.awaiting traded))

  -- The runner, and the result of the pass: none without a repository, or where the pass raised.
  unfoldable pub run_reconcile :
      Weather
      → Env
      → List String
      → Option Bool
      → (Options → Option (ReconcileResult × List (String × Number)))
      → Runner
      → Runner × Option ReconcileResult
  unfolding check_and_pass
  run_reconcile w env traded paused_read pass g =
      if not g.has_repo
      then (g, none)
      else let paused = paused_or g.control paused_read in
        check_and_pass w env traded pass paused
          (if paused then record g { awaiting_since = w.monotonic } else g)
