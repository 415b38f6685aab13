-- ===== src/Portfolio/Durable.antt =====
-- engine/portfolio.py: what Redis holds between processes.
use xupertrade.Dict.{Dict, insert, lookup, lookup-insert}
use xupertrade.Float.{ExactLaws, Floats, Number, nil, ◌⊕◌}
use xupertrade.Portfolio.{
  Call, Env, Portfolio, Settings, call, check, ensure_loaded, finite_or_zero, flush,
  kill_switch_active, load, new_portfolio, persist, record_pnl, record_trade,
  report_persist_failure, roll_over, run, stored_total,
}
use xupertrade.Portfolio.Accounting.{check_cases, counted, flush_cases}
use xupertrade.Prelude.{
  Bool, Bool-cases, List, Option, String, [], arith, eq_iff, false, inl, inr, refl, some, true,
  ◌==◌, ◌∙◌, ◌∷◌, ◌≡◌, ◌⊎◌,
}
use xupertrade.Prelude.Int.{int_laws}

module _ ⦃N : Floats⦄ (exact : ExactLaws) where
  open exact use {value, value-add, value-nil, value_of_eq, value-fixed10, all_finite}

  -- Either a write is pending, or the stored total is the day's counted PnL.
  abbrev Settled : Portfolio → Type 0
  Settled p =
      (p.has_control ≡ true)
      × ((p.persist_pending ≡ true) ⊎ (value (stored_total p.date_str p) ≡ counted exact p))

  Settled-load :
      (env : Env) (p : Portfolio) → env.today ≡ p.date_str → Settled p → Settled (load env p)
  unfolding load
  Settled-load env p e s = ground (
    arith,
    value-add (stored_total env.today p) p.daily_pnl,
    value-nil,
    value_of_eq p.daily_pnl nil,
  )

  date-roll_over : (today : String) (p : Portfolio) → today ≡ (roll_over today p).date_str
  unfolding roll_over
  date-roll_over today p = ground (arith, eq_iff today p.date_str)

  Settled-roll_over : (today : String) (p : Portfolio) → Settled p → Settled (roll_over today p)
  unfolding roll_over
  Settled-roll_over today p s = elim (Bool-cases (today == p.date_str)) [
    | inl same ↦ rw same s
    | inr over ↦ rw (over, s.0, value-nil) (refl, inr (omega int_laws))
  ]

  Settled-report :
      (env : Env) (p : Portfolio)
      → p.has_control ≡ true
      → p.persist_pending ≡ true
      → Settled (report_persist_failure env p)
  unfolding report_persist_failure
  Settled-report env p s pend = ground arith

  total-insert :
      (p : Portfolio)
      → value (
          finite_or_zero
            (lookup p.date_str (insert p.date_str (some (N.fixed10 p.daily_pnl)) p.stored)))
        ≡ value p.daily_pnl
  total-insert p = rw lookup-insert (
      ground (
        arith,
        eq_iff p.date_str p.date_str,
        value-fixed10 p.daily_pnl,
        all_finite (N.fixed10 p.daily_pnl),
      ))

  Settled-persist : (env : Env) (p : Portfolio) → p.has_control ≡ true → Settled (persist env p)
  unfolding persist
  Settled-persist env p =
      ground (arith, total-insert p, Settled-report env (record p { persist_pending = true }))

  Settled-ensure_loaded : (env : Env) (p : Portfolio) → Settled p → Settled (ensure_loaded env p)
  unfolding ensure_loaded
  Settled-ensure_loaded env p s =
      Settled-load env (roll_over env.today p) (date-roll_over env.today p)
        (Settled-roll_over env.today p s)

  Settled-flush : (env : Env) (p : Portfolio) → Settled p → Settled (flush env p)
  Settled-flush env p s = flush_cases Settled env p (Settled-persist env p s.0) s

  Settled-kill_switch :
      (settings : Settings) (env : Env) (p : Portfolio)
      → Settled p
      → Settled (kill_switch_active settings env p).0
  unfolding kill_switch_active
  Settled-kill_switch settings env p s = ground arith

  Settled-call :
      (settings : Settings) (c : Call) (p : Portfolio) → Settled p → Settled (call settings c p)
  unfolding call record_pnl
  Settled-call settings (check is_open env) p s =
      let flushed = Settled-flush env (ensure_loaded env p) (Settled-ensure_loaded env p s) in
      check_cases Settled settings is_open env p flushed
        (Settled-kill_switch settings env (flush env (ensure_loaded env p)) flushed)
  Settled-call settings (record_trade pnl env) p s =
      let q = ensure_loaded env p in
      Settled-persist env (record q { daily_pnl = q.daily_pnl ⊕ pnl })
        (Settled-ensure_loaded env p s).0

  Settled-run :
      (settings : Settings) (cs : List Call) (p : Portfolio)
      → Settled p
      → Settled (run settings cs p)
  unfolding run
  Settled-run settings [] p s = s
  Settled-run settings (c ∷ cs) p s =
      Settled-run settings cs (call settings c p) (Settled-call settings c p s)

  counted-new :
      (has_bus : Bool) (today : String) (totals : Dict (Option Number))
      → counted exact (new_portfolio true has_bus today totals)
        ≡ value (finite_or_zero (lookup today totals))
  unfolding new_portfolio
  counted-new has_bus today totals = rw value-nil (omega int_laws)

  Settled-new :
      (has_bus : Bool) (today : String) (totals : Dict (Option Number))
      → Settled (new_portfolio true has_bus today totals)
  unfolding new_portfolio
  Settled-new has_bus today totals = (refl, inr (rw value-nil (omega int_laws)))

  stored-counted :
      (p : Portfolio)
      → Settled p
      → p.persist_pending ≡ false
      → value (stored_total p.date_str p) ≡ counted exact p
  stored-counted p s calm = elim s.1 [ inl pend ↦ cc | inr same ↦ same ]

  -- With exact arithmetic, whatever calls a fresh process with Redis wired makes, over any days and
  -- with any reads, writes and alerts failing: once no write is pending, a process that starts over what Redis then holds, on the
  -- same date, counts the same total for the day.
  pub restart-counted :
      (settings : Settings) (cs : List Call) (has_bus later_bus : Bool) (today : String)
      (totals : Dict (Option Number))
      → (run settings cs (new_portfolio true has_bus today totals)).persist_pending ≡ false
      → counted exact (
          new_portfolio true later_bus
            (run settings cs (new_portfolio true has_bus today totals)).date_str
            (run settings cs (new_portfolio true has_bus today totals)).stored)
        ≡ counted exact (run settings cs (new_portfolio true has_bus today totals))
  restart-counted settings cs has_bus later_bus today totals calm =
      let last = run settings cs (new_portfolio true has_bus today totals) in
      counted-new later_bus last.date_str last.stored
      ∙ stored-counted last
          (Settled-run settings cs (new_portfolio true has_bus today totals)
            (Settled-new has_bus today totals))
          calm
