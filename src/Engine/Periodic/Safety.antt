-- ===== src/Engine/Periodic/Safety.antt =====
-- runner.py, control.py and portfolio.py together: opens after Redis lost the control state.
use xupertrade.Control.{BotControl, is_reconcile_hold_active, perform, state_of}
use xupertrade.Control.Lock.{locks, perform-Locked}
use xupertrade.Engine.Guard.{Reason, Runner, Weather, check_control_state}
use xupertrade.Engine.Guard.Checked.{LockedRunner, check_control_state-LockedRunner, either-held}
use xupertrade.Engine.Periodic.{
  after_pass, book_closes, count_pass, counts, options_of, paused_or, run_reconcile,
}
use xupertrade.Engine.Periodic.Events.{
  Event, calls, checks, emptied, happen, happen_all, on_control, performs, reconciles,
  redis_emptied,
}
use xupertrade.Float.{Floats, Number}
use xupertrade.Portfolio.{Env, Portfolio, Settings, check_risk_limits, is_held, record_pnl}
use xupertrade.Portfolio.Gate.{call-opens_held, held-refuses, record_pnl-opens_held}
use xupertrade.Prelude.{
  All, Bool, List, Option, String, [], ap, arith, false, if-cases, if◌then◌else◌, is_some, none,
  not, refl, some, true, ◌∙◌, ◌∷◌, ◌≡◌,
}
use xupertrade.Repository.Reconciler.{Options, ReconcileResult}

module _ ⦃N : Floats⦄ where
  -- Everything but a clear of the hold, and a sentinel written by anyone but the guard.
  abbrev pub is_harmless : Event → Bool
  is_harmless (performs command) = locks command
  is_harmless _ = true

  book_closes-opens_held :
      (env : Env) (l : List (String × Number)) (p : Portfolio)
      → (book_closes env l p).opens_held ≡ p.opens_held
  unfolding book_closes
  book_closes-opens_held env [] p = refl
  book_closes-opens_held env ((name, pnl) ∷ l) p =
      book_closes-opens_held env l (record_pnl pnl env p) ∙ record_pnl-opens_held pnl env p

  count_pass-LockedRunner :
      (b : Bool) (why : Reason) (g : Runner)
      → LockedRunner g
      → LockedRunner (count_pass b (some why) g)
  count_pass-LockedRunner true why g (c, wired, h, held) =
      (c, wired, h, either-held (some why) none refl)
  count_pass-LockedRunner false why g h = h

  after_pass-LockedRunner :
      (w : Weather) (env : Env) (traded : List String) (paused : Bool) (why : Option Reason)
      (g : Runner) (result : Option (ReconcileResult × List (String × Number)))
      → is_some why ≡ true
      → LockedRunner g
      → LockedRunner (after_pass w env traded paused why g result).0
  unfolding after_pass
  after_pass-LockedRunner w env traded paused none g result held h = cc
  after_pass-LockedRunner w env traded paused (some why) g none held h = h
  after_pass-LockedRunner w env traded paused (some why) g (some (r, closed)) held h =
      count_pass-LockedRunner (counts paused (some why) r) why
        (record g { portfolio = book_closes env closed g.portfolio }) (rebook h)
    where
      rebook :
          LockedRunner g
          → LockedRunner (record g { portfolio = book_closes env closed g.portfolio })
      rebook (c, wired, lock, opens) =
          (c, wired, lock, ap is_held (book_closes-opens_held env closed g.portfolio) ∙ opens)

  run_reconcile-LockedRunner :
      (w : Weather) (env : Env) (traded : List String) (read : Option Bool)
      (pass : Options → Option (ReconcileResult × List (String × Number))) (g : Runner)
      → LockedRunner g
      → LockedRunner (run_reconcile w env traded read pass g).0
  unfolding run_reconcile
  run_reconcile-LockedRunner w env traded read pass g (c, wired, lock, opens) =
      let paused = paused_or g.control read in
      let waited : Runner = if paused then record g { awaiting_since = w.monotonic } else g in
      let wired_still : waited.control ≡ some c =
        if-cases (λ (h : Runner). h.control ≡ some c) paused
          (record g { awaiting_since = w.monotonic }) g (λ e. wired) (λ e. wired) in
      let checked = check_control_state w waited in
      let locked = check_control_state-LockedRunner w waited c wired_still lock in
      if-cases (λ (r : Runner × Option ReconcileResult). LockedRunner r.0) (not g.has_repo)
        (g, none)
        (after_pass w env traded paused checked.1 checked.0
          (pass (options_of paused checked.1 checked.0.awaiting traded)))
        (λ bare. (c, wired, lock, opens))
        (λ stored_there.
          after_pass-LockedRunner w env traded paused checked.1 checked.0
            (pass (options_of paused checked.1 checked.0.awaiting traded)) locked.1 locked.0)

  happen-LockedRunner :
      (e : Event) (g : Runner) → is_harmless e ≡ true → LockedRunner g → LockedRunner (happen e g)
  unfolding happen is_reconcile_hold_active
  happen-LockedRunner (checks w) g k (c, wired, lock, opens) =
      (check_control_state-LockedRunner w g c wired lock).0
  happen-LockedRunner (reconciles p) g k h =
      run_reconcile-LockedRunner p.weather p.env p.traded p.paused p.pass g h
  happen-LockedRunner (calls settings k) g harmless (c, wired, lock, opens) =
      (c, wired, lock, ap is_held (call-opens_held settings k g.portfolio) ∙ opens)
  happen-LockedRunner redis_emptied g k (c, wired, lock, opens) =
      (emptied c, ap (on_control emptied) wired, (lock.0, ground arith), opens)
  happen-LockedRunner (performs command) g k (c, wired, lock, opens) = (
    state_of (perform command c),
    ap (on_control (λ (c : BotControl). state_of (perform command c))) wired,
    perform-Locked command c k lock,
    opens,
  )

  happen_all-LockedRunner :
      (l : List Event) (g : Runner)
      → All (λ e. is_harmless e ≡ true) l
      → LockedRunner g
      → LockedRunner (happen_all l g)
  unfolding happen_all
  happen_all-LockedRunner [] g k h = h
  happen_all-LockedRunner (e ∷ l) g k h =
      happen_all-LockedRunner l (happen e g) k.1 (happen-LockedRunner e g k.0 h)

  -- Once a check has met a Redis without the sentinel, or could not read it, no open is allowed
  -- through any sequence of checks, reconcile passes, trades, risk checks, further losses of Redis
  -- and commands, as long as no command clears the hold or writes the sentinel.
  pub lost_state-refuses :
      (w : Weather) (g : Runner) (c : BotControl) (l : List Event) (settings : Settings) (env : Env)
      → g.control ≡ some c
      → c.connected ≡ true
      → c.sentinel_key ≡ none
      → All (λ e. is_harmless e ≡ true) l
      → (check_risk_limits settings true env (happen_all l (check_control_state w g).0).portfolio).1
        ≡ false
  unfolding is_reconcile_hold_active
  lost_state-refuses w g c l settings env wired on missing harmless =
      let start = (check_control_state-LockedRunner w g c wired (on, ground arith)).0 in
      let (d, wired_after, lock, opens) =
        happen_all-LockedRunner l (check_control_state w g).0 harmless start in
      held-refuses settings env (happen_all l (check_control_state w g).0).portfolio opens
