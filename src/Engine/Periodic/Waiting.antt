-- ===== src/Engine/Periodic/Waiting.antt =====
-- runner.py: opens while a reconcile pass is waited for.
use xupertrade.Control.{BotControl, perform, sentinel_present, state_of}
use xupertrade.Engine.Guard.{
  Guarded, Reason, Runner, Weather, check_control_state, check_with, conclude, either, note_cleared,
  on_sentinel, read_control_state, secure_lost_control_state, shown,
}
use xupertrade.Engine.Guard.Checked.{SameRunner, either-held, publish_alert-keeps}
use xupertrade.Engine.Periodic.Events.{
  Event, calls, checks, emptied, happen, happen_all, on_control, performs, reconciles,
  redis_emptied,
}
use xupertrade.Float.{Floats}
use xupertrade.Portfolio.{Env, Portfolio, Settings, check_risk_limits, is_held}
use xupertrade.Portfolio.Gate.{held-refuses}
use xupertrade.Prelude.{
  All, Bool, List, Option, [], ap, arith, false, is_some, none, refl, some, true, ◌||◌, ◌∙◌, ◌∷◌,
  ◌≡◌,
}

module _ ⦃N : Floats⦄ where
  -- Reading the control state touches nothing of the runner but its alerts.
  Kept : Runner → Guarded × Option Reason → Type 0
  Kept g r = SameRunner g r.0.1

  secure-SameRunner :
      (w : Weather) (c : BotControl) (g : Runner) → SameRunner g (secure_lost_control_state w c g).1
  unfolding secure_lost_control_state
  secure-SameRunner w c g = ground arith

  read_control_state-SameRunner :
      (w : Weather) (c : BotControl) (g : Runner) → SameRunner g (read_control_state w c g).0.1
  unfolding read_control_state
  read_control_state-SameRunner w c g = answered (sentinel_present w.sentinel_readable c)
    where
      answered : (a : BotControl × Option Bool) → SameRunner g (on_sentinel w g a).0.1
      answered (c, none) = (refl, refl, refl, refl, refl)
      answered (c, some false) = secure-SameRunner w c g
      answered (c, some true) = ground arith

  -- Opens wait for a pass, or are held for a reason that a pass must follow.
  abbrev pub IsWaiting : Runner → Type 0
  IsWaiting g =
      (g.has_repo ≡ true)
      × (is_some g.control ≡ true)
      × ((is_some g.control_hold || is_some g.awaiting) ≡ true)

  note_cleared-waits :
      (w : Weather) (why : Option Reason) (g : Runner)
      → g.has_repo ≡ true
      → (is_some g.control_hold || is_some g.awaiting) ≡ true
      → is_some (either why (note_cleared w why g).awaiting) ≡ true
  unfolding note_cleared
  note_cleared-waits w why g stored_there h = ground arith

  note_cleared-SameRunner :
      (w : Weather) (why : Option Reason) (g : Runner)
      → ((note_cleared w why g).control ≡ g.control)
        × ((note_cleared w why g).has_repo ≡ g.has_repo)
        × (is_some g.awaiting ≡ true → is_some (note_cleared w why g).awaiting ≡ true)
  unfolding note_cleared
  note_cleared-SameRunner w why g = ground arith

  -- A reason stays, or a pass is waited for.
  either-some :
      (why awaiting : Option Reason)
      → is_some (either why awaiting) ≡ true
      → (is_some why || is_some awaiting) ≡ true
  either-some none awaiting h = h
  either-some (some why) awaiting h = refl

  -- A check of a waiting runner leaves it waiting, and opens held.
  conclude-IsWaiting :
      (w : Weather) (why : Option Reason) (g : Runner)
      → IsWaiting g
      → IsWaiting (conclude w true why g)
        × (is_held (conclude w true why g).portfolio.opens_held ≡ true)
  unfolding conclude
  conclude-IsWaiting w why g (stored_there, wired, waits) =
      let noted = note_cleared w why g in
      let same = note_cleared-SameRunner w why g in
      let keeps = publish_alert-keeps w why (record noted {
        control_hold = why;
        portfolio = record noted.portfolio { opens_held = shown (either why noted.awaiting) };
      }) in
      let reason = note_cleared-waits w why g stored_there waits in
      (
        (
          keeps.4 ∙ same.1 ∙ stored_there,
          ap is_some (keeps.0 ∙ same.0) ∙ wired,
          rw (keeps.2, keeps.3) (either-some why noted.awaiting reason),
        ),
        ap (λ (p : Portfolio). is_held p.opens_held) keeps.1
            ∙ either-held why noted.awaiting reason,
      )

  check_with-IsWaiting :
      (w : Weather) (g : Runner) (o : Option BotControl)
      → is_some o ≡ true
      → IsWaiting g
      → IsWaiting (check_with w g o).0 × (is_held (check_with w g o).0.portfolio.opens_held ≡ true)
  check_with-IsWaiting w g none unwired h = cc
  check_with-IsWaiting w g (some c) wired h =
      let r = read_control_state w c g in
      let same = read_control_state-SameRunner w c g in
      conclude-IsWaiting w r.1 (record r.0.1 { control = some r.0.0 })
        (same.4 ∙ h.0, refl, rw (same.2, same.3) h.2)

  check_control_state-IsWaiting :
      (w : Weather) (g : Runner)
      → IsWaiting g
      → IsWaiting (check_control_state w g).0
        × (is_held (check_control_state w g).0.portfolio.opens_held ≡ true)
  unfolding check_control_state
  check_control_state-IsWaiting w g h = check_with-IsWaiting w g g.control h.1 h

  -- Everything but a reconcile pass.
  abbrev pub is_no_pass : Event → Bool
  is_no_pass (reconciles p) = false
  is_no_pass (checks w) = true
  is_no_pass (calls settings c) = true
  is_no_pass redis_emptied = true
  is_no_pass (performs command) = true

  on_control-some :
      (f : BotControl → BotControl) (o : Option BotControl)
      → is_some o ≡ true
      → is_some (on_control f o) ≡ true
  on_control-some f none h = h
  on_control-some f (some c) h = refl

  happen-IsWaiting :
      (e : Event) (g : Runner) → is_no_pass e ≡ true → IsWaiting g → IsWaiting (happen e g)
  unfolding happen
  happen-IsWaiting (checks w) g k h = (check_control_state-IsWaiting w g h).0
  happen-IsWaiting (reconciles p) g k h = cc
  happen-IsWaiting (calls settings c) g k h = h
  happen-IsWaiting redis_emptied g k h = (h.0, on_control-some emptied g.control h.1, h.2)
  happen-IsWaiting (performs command) g k h =
      (h.0, on_control-some (λ c. state_of (perform command c)) g.control h.1, h.2)

  happen_all-IsWaiting :
      (l : List Event) (g : Runner)
      → All (λ e. is_no_pass e ≡ true) l
      → IsWaiting g
      → IsWaiting (happen_all l g)
  unfolding happen_all
  happen_all-IsWaiting [] g k h = h
  happen_all-IsWaiting (e ∷ l) g k h =
      happen_all-IsWaiting l (happen e g) k.1 (happen-IsWaiting e g k.0 h)

  -- A bot with Redis and a repository that waits for a pass, as at its start, or whose last check
  -- found a reason to hold, allows no open at a check after any sequence of checks, trades, risk
  -- checks, losses of Redis and commands, clears of the hold among them, without a reconcile pass.
  pub waiting-refuses :
      (w : Weather) (g : Runner) (l : List Event) (settings : Settings) (env : Env)
      → IsWaiting g
      → All (λ e. is_no_pass e ≡ true) l
      → (check_risk_limits settings true env (check_control_state w (happen_all l g)).0.portfolio).1
        ≡ false
  waiting-refuses w g l settings env h k =
      held-refuses settings env (check_control_state w (happen_all l g)).0.portfolio
        (check_control_state-IsWaiting w (happen_all l g) (happen_all-IsWaiting l g k h)).1
