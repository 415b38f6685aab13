-- ===== src/Portfolio/Accounting.antt =====
-- engine/portfolio.py: the day's realized PnL over sequences of calls.
use xupertrade.Float.{ExactLaws, Floats, Number, ◌⊕◌}
use xupertrade.Portfolio.{
  Call, Env, Portfolio, Settings, call, check, check_risk_limits, ensure_loaded, env_of, flush,
  is_held, kill_switch_active, persist, record_pnl, record_trade, report_persist_failure, run,
  stored_total,
}
use xupertrade.Prelude.{
  All, Bool, Bool-cases, List, String, [], arith, eq_iff, false, if◌then◌else◌, inl, inr, not, true,
  ◌||◌, ◌∙◌, ◌∷◌, ◌≡◌,
}
use xupertrade.Prelude.Int.{int_laws, parts, pos, ℤ, ◌+ℤ◌}

module _ ⦃N : Floats⦄ where
  -- A check ends after the flush, or after it has also read the kill switch.
  pub check_cases :
      (P : Portfolio → Type 0) (settings : Settings) (is_open : Bool) (env : Env) (p : Portfolio)
      → P (flush env (ensure_loaded env p))
      → P (kill_switch_active settings env (flush env (ensure_loaded env p))).0
      → P (check_risk_limits settings is_open env p).0
  unfolding check_risk_limits
  check_cases P settings false env p flushed read = flushed
  check_cases P settings true env p flushed read =
      let k = kill_switch_active settings env (flush env (ensure_loaded env p)) in
      elim (Bool-cases k.1) [
        | inl active ↦ rw active read
        | inr off ↦ elim (Bool-cases (is_held k.0.opens_held)) [
          | inl held ↦ rw (off, held) read
          | inr free ↦ rw (off, free) read
        ]
      ]

  -- A flush writes, or changes nothing.
  pub flush_cases :
      (P : Portfolio → Type 0) (env : Env) (p : Portfolio)
      → P (persist env p)
      → P p
      → P (flush env p)
  unfolding flush
  flush_cases P env p written same = elim (Bool-cases p.persist_pending) [
    | inl pend ↦ simp pend written
    | inr calm ↦ simp calm same
  ]

module _ ⦃N : Floats⦄ (exact : ExactLaws) where
  open exact use {value, value-add, value-nil, value_of_eq, value-fixed10}

  -- The day's realized PnL as far as this process and Redis know it: until the stored total has
  -- been loaded, the running total holds only what came after it.
  abbrev pub counted : Portfolio → ℤ
  counted p =
      if p.loaded || not p.has_control
      then value p.daily_pnl
      else value (stored_total p.date_str p) +ℤ value p.daily_pnl

  counted-ensure_loaded :
      (env : Env) (p : Portfolio)
      → env.today ≡ p.date_str
      → counted (ensure_loaded env p) ≡ counted p
  unfolding ensure_loaded
  counted-ensure_loaded env p e =
      ground (arith, eq_iff env.today p.date_str, value-add (stored_total env.today p) p.daily_pnl)

  counted-report : (env : Env) (p : Portfolio) → counted (report_persist_failure env p) ≡ counted p
  unfolding report_persist_failure
  counted-report env p = ground arith

  counted-persist : (env : Env) (p : Portfolio) → counted (persist env p) ≡ counted p
  unfolding persist
  counted-persist env p = ground (arith, counted-report env (record p { persist_pending = true }))

  counted-flush : (env : Env) (p : Portfolio) → counted (flush env p) ≡ counted p
  unfolding flush
  counted-flush env p = elim (Bool-cases p.persist_pending) [
    | inl pend ↦ rw pend (counted-persist env p)
    | inr settled ↦ rw settled
  ]

  counted-kill_switch :
      (settings : Settings) (env : Env) (p : Portfolio)
      → counted (kill_switch_active settings env p).0 ≡ counted p
  unfolding kill_switch_active
  counted-kill_switch settings env p = ground arith

  counted-check :
      (settings : Settings) (is_open : Bool) (env : Env) (p : Portfolio)
      → env.today ≡ p.date_str
      → counted (check_risk_limits settings is_open env p).0 ≡ counted p
  counted-check settings is_open env p e =
      let loaded_same = counted-ensure_loaded env p e in
      check_cases (λ q. counted q ≡ counted p) settings is_open env p
        (counted-flush env (ensure_loaded env p) ∙ loaded_same)
        (counted-kill_switch settings env (flush env (ensure_loaded env p))
          ∙ counted-flush env (ensure_loaded env p)
          ∙ loaded_same)

  counted-add :
      (pnl : Number) (p : Portfolio)
      → counted (record p { daily_pnl = p.daily_pnl ⊕ pnl }) ≡ counted p +ℤ value pnl
  counted-add pnl p = elim (Bool-cases (p.loaded || not p.has_control)) [
    | inl whole_total ↦ rw (whole_total, value-add)
    | inr part ↦ rw (part, value-add) (omega int_laws)
  ]

  counted-record_pnl :
      (pnl : Number) (env : Env) (p : Portfolio)
      → env.today ≡ p.date_str
      → counted (record_pnl pnl env p) ≡ counted p +ℤ value pnl
  unfolding record_pnl
  counted-record_pnl pnl env p e = rw (counted-persist, counted-add, counted-ensure_loaded env p e)

  abbrev pub realized : List Call → ℤ
  realized [] = pos 0
  realized (check is_open env ∷ cs) = realized cs
  realized (record_trade pnl env ∷ cs) = value pnl +ℤ realized cs

  -- Every call of the list is made on this date.
  abbrev pub SameDay : String → List Call → Type 0
  SameDay date = All (λ c. (env_of c).today ≡ date)

  date-report : (env : Env) (p : Portfolio) → (report_persist_failure env p).date_str ≡ p.date_str
  unfolding report_persist_failure
  date-report env p = ground arith

  date-persist : (env : Env) (p : Portfolio) → (persist env p).date_str ≡ p.date_str
  unfolding persist
  date-persist env p = ground (arith, date-report env (record p { persist_pending = true }))

  date-ensure_loaded : (env : Env) (p : Portfolio) → (ensure_loaded env p).date_str ≡ env.today
  unfolding ensure_loaded
  date-ensure_loaded env p = ground (arith, eq_iff env.today p.date_str)

  date-flush : (env : Env) (p : Portfolio) → (flush env p).date_str ≡ p.date_str
  unfolding flush
  date-flush env p = elim (Bool-cases p.persist_pending) [
    | inl pend ↦ rw pend (date-persist env p)
    | inr settled ↦ rw settled
  ]

  date-kill_switch :
      (settings : Settings) (env : Env) (p : Portfolio)
      → (kill_switch_active settings env p).0.date_str ≡ p.date_str
  unfolding kill_switch_active
  date-kill_switch settings env p = ground arith

  pub date-call :
      (settings : Settings) (c : Call) (p : Portfolio)
      → (call settings c p).date_str ≡ (env_of c).today
  unfolding call record_pnl
  date-call settings (check is_open env) p =
      let today = date-flush env (ensure_loaded env p) ∙ date-ensure_loaded env p in
      check_cases (λ q. q.date_str ≡ env.today) settings is_open env p today
        (date-kill_switch settings env (flush env (ensure_loaded env p)) ∙ today)
  date-call settings (record_trade pnl env) p = rw date-persist (date-ensure_loaded env p)

  counted-call :
      (settings : Settings) (c : Call) (p : Portfolio)
      → (env_of c).today ≡ p.date_str
      → counted (call settings c p) ≡ counted p +ℤ realized (c ∷ [])
  unfolding call
  counted-call settings (check is_open env) p e =
      rw (counted-check settings is_open env p e) (omega int_laws)
  counted-call settings (record_trade pnl env) p e =
      rw (counted-record_pnl pnl env p e) (omega int_laws)

  realized-cons : (c : Call) (cs : List Call) → realized (c ∷ cs) ≡ realized (c ∷ []) +ℤ realized cs
  realized-cons (check is_open env) cs = omega int_laws
  realized-cons (record_trade pnl env) cs = omega int_laws

  -- With exact arithmetic, over any calls of one UTC day, however the reads and writes of Redis
  -- fail and recover, the day's counted PnL grows by exactly the PnL of the trades that were
  -- recorded: nothing is dropped by an outage and nothing is counted twice when one ends.
  pub run-counted :
      (settings : Settings) (cs : List Call) (p : Portfolio)
      → SameDay p.date_str cs
      → counted (run settings cs p) ≡ counted p +ℤ realized cs
  unfolding run
  run-counted settings [] p day = omega int_laws
  run-counted settings (c ∷ cs) p day =
      let same_day : SameDay (call settings c p).date_str cs =
        rw (date-call settings c p, day.0) day.1 in
      omega (
        int_laws,
        parts (run-counted settings cs (call settings c p) same_day),
        parts (counted-call settings c p day.0),
        parts (realized-cons c cs),
      )
