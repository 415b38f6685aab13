-- ===== src/Engine/Periodic/Release.antt =====
-- runner.py, control.py and portfolio.py together: how opens come free again.
use xupertrade.Control.{BotControl}
use xupertrade.Engine.Guard.{Runner, Weather}
use xupertrade.Engine.Periodic.{paused_or, run_reconcile}
use xupertrade.Engine.Periodic.Events.{
  Event, calls, checks, happen, happen_all, performs, reconciles, redis_emptied,
}
use xupertrade.Engine.Periodic.Released.{
  IsReadable, IsReleased, check-IsReleased, check_and_pass-IsReleased, cleared, cleared-IsFree,
}
use xupertrade.Float.{Floats, Number, ◌≺◌}
use xupertrade.Portfolio.{Env, Settings, check_risk_limits, ensure_loaded, is_held}
use xupertrade.Portfolio.Gate.{blocked, call-opens_held, check_risk_limits-decides}
use xupertrade.Prelude.{
  All, List, Option, String, [], ap, arith, contains, false, filter, is_some, none, not, refl, some,
  true, ◌&&◌, ◌||◌, ◌∙◌, ◌∷◌, ◌≡◌,
}
use xupertrade.Repository.Reconciler.{Options, ReconcileResult}

module _ ⦃N : Floats⦄ where
  paused_or-false : (o : Option BotControl) → paused_or o (some false) ≡ false
  paused_or-false none = refl
  paused_or-false (some c) = refl

  -- A check that reads the control, a trade or a risk check.
  abbrev pub Calm : Event → Type 0
  Calm (checks w) = IsReadable w
  Calm (reconciles k) = ⊥
  Calm (calls settings c) = Unit
  Calm redis_emptied = ⊥
  Calm (performs command) = ⊥

  happen-IsReleased : (e : Event) (g : Runner) → Calm e → IsReleased g → IsReleased (happen e g)
  unfolding happen
  happen-IsReleased (checks w) g calm r = check-IsReleased w g calm r
  happen-IsReleased (reconciles k) g calm r = absurd calm
  happen-IsReleased (calls settings c) g calm r = record {
    c = r.c;
    wired = r.wired;
    free = r.free;
    no_hold = r.no_hold;
    passed = r.passed;
    opened = call-opens_held settings c g.portfolio ∙ r.opened;
  }
  happen-IsReleased redis_emptied g calm r = absurd calm
  happen-IsReleased (performs command) g calm r = absurd calm

  happen_all-IsReleased :
      (l : List Event) (g : Runner) → All Calm l → IsReleased g → IsReleased (happen_all l g)
  unfolding happen_all
  happen_all-IsReleased [] g calm r = r
  happen_all-IsReleased (e ∷ l) g calm r =
      happen_all-IsReleased l (happen e g) calm.1 (happen-IsReleased e g calm.0 r)

  -- After a clear of the hold that lands, of a bot whose sentinel is there or that saw the hold or
  -- the sentinel unwritten, one reconcile pass of the unpaused bot frees opens, when the control
  -- reads, the pass is not skipped, and it leaves no orphan unresolved and holds none on a traded
  -- coin: then, and after any sequence of checks that read the control, trades and risk checks, the
  -- kill switch and the loss cap alone decide about an open.
  pub counted_pass-releases :
      (now : String) (w : Weather) (env pass_env : Env) (traded : List String)
      (pass : Options → Option (ReconcileResult × List (String × Number))) (g : Runner)
      (c : BotControl) (r : ReconcileResult) (closed : List (String × Number)) (settings : Settings)
      (later : List Event)
      → c.connected ≡ true
      → (c.hold_unwritten || c.sentinel_unwritten || is_some c.sentinel_key) ≡ true
      → g.has_repo ≡ true
      → g.control ≡ some (cleared now c)
      → IsReadable w
      → ((opts : Options) → pass opts ≡ some (r, closed))
      → r.skipped ≡ none
      → r.unresolved_orphans ≡ []
      → filter (λ s. contains s r.held_orphans) traded ≡ []
      → All Calm later
      → (let p =
            (happen_all later (run_reconcile w pass_env traded (some false) pass g).0).portfolio in
          (check_risk_limits settings true env p).1 ≡ (
            not (blocked settings env p.has_control)
            && not ((ensure_loaded env p).daily_pnl ≺ N.neg settings.max_daily_loss_usd)))
  unfolding run_reconcile
  counted_pass-releases now w env pass_env traded pass g c r closed settings later on seen_lost
        stored_there wired readable answers read_all settled none_held calm =
      let free = cleared-IsFree now c on seen_lost in
      let g' = (run_reconcile w pass_env traded (some false) pass g).0 in
      let released : IsReleased g' =
        simp (stored_there, paused_or-false)
          (check_and_pass-IsReleased w pass_env traded pass g (cleared now c) r closed wired
            readable free answers read_all settled none_held) in
      let p = (happen_all later g').portfolio in
      (check_risk_limits-decides settings env p).1
      ∙ ground (arith, ap is_held (happen_all-IsReleased later g' calm released).opened)
