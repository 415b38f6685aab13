-- ===== src/Portfolio/Decision.antt =====
-- engine/portfolio.py: an open at the end of a day of trades, failures and checks.
use xupertrade.Float.{ExactLaws, Floats}
use xupertrade.Portfolio.{
  Call, Env, Portfolio, Settings, call, check_risk_limits, ensure_loaded, is_held, run,
  stored_total,
}
use xupertrade.Portfolio.Accounting.{SameDay, counted, date-call, realized, run-counted}
use xupertrade.Portfolio.Gate.{
  SameGate, SameGate-trans, blocked, call-SameGate, check_risk_limits-decides,
}
use xupertrade.Prelude.{List, [], arith, eq_iff, false, not, refl, sym, true, ◌&&◌, ◌∙◌, ◌∷◌, ◌≡◌}
use xupertrade.Prelude.Int.{ltb_ℤ, ◌+ℤ◌}

module _ ⦃N : Floats⦄ where
  run-SameGate :
      (settings : Settings) (cs : List Call) (p : Portfolio) → SameGate p (run settings cs p)
  unfolding run
  run-SameGate settings [] p = (refl, refl)
  run-SameGate settings (c ∷ cs) p =
      SameGate-trans p (call settings c p) (run settings cs (call settings c p))
        (call-SameGate settings c p) (run-SameGate settings cs (call settings c p))

module _ ⦃N : Floats⦄ (exact : ExactLaws) where
  open exact use {value, value-add, value-lt}

  run-date :
      (settings : Settings) (cs : List Call) (p : Portfolio)
      → SameDay exact p.date_str cs
      → (run settings cs p).date_str ≡ p.date_str
  unfolding run
  run-date settings [] p day = refl
  run-date settings (c ∷ cs) p day =
      let same = date-call exact settings c p ∙ day.0 in
      run-date settings cs (call settings c p) (rw same day.1) ∙ same

  -- Where the total can be read, the running total is the counted one once it has been loaded.
  loaded_total :
      (env : Env) (p : Portfolio)
      → env.today ≡ p.date_str
      → env.readable ≡ true
      → value (ensure_loaded env p).daily_pnl ≡ counted exact p
  unfolding ensure_loaded
  loaded_total env p e readable =
      ground (arith, eq_iff env.today p.date_str, value-add (stored_total env.today p) p.daily_pnl)

  -- With exact arithmetic, after any calls of one UTC day, with any reads and writes of Redis
  -- failing, and at a check on that day that can read the total: a close is allowed, and an open
  -- exactly when the kill switch does not block it, opens are not held, and what was counted
  -- before the calls with the PnL of the trades recorded in them is not below the loss cap.
  pub run-check_risk_limits :
      (settings : Settings) (cs : List Call) (env : Env) (p : Portfolio)
      → SameDay exact p.date_str cs
      → env.today ≡ p.date_str
      → env.readable ≡ true
      → ((check_risk_limits settings false env (run settings cs p)).1 ≡ true)
        × ((check_risk_limits settings true env (run settings cs p)).1 ≡ (
            not (blocked settings env p.has_control)
            && not (is_held p.opens_held)
            && not (
                ltb_ℤ
                  (counted exact p +ℤ realized exact cs)
                  (value (N.neg settings.max_daily_loss_usd)))))
  run-check_risk_limits settings cs env p day today readable =
      let q = run settings cs p in
      let same = run-SameGate settings cs p in
      let total : value (ensure_loaded env q).daily_pnl ≡ counted exact p +ℤ realized exact cs =
        loaded_total env q (today ∙ sym (run-date settings cs p day)) readable
        ∙ run-counted exact settings cs p day in
      let decided = check_risk_limits-decides settings env q in
      (decided.0, decided.1 ∙ rw (value-lt, total, same.0, same.1) refl)
