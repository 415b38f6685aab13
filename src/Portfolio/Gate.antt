-- ===== src/Portfolio/Gate.antt =====
-- engine/portfolio.py: what `check_risk_limits` decides, from the state it meets.
use xupertrade.Float.{Floats, Number, ◌≺◌, ◌⊕◌}
use xupertrade.Portfolio.{
  Call, Env, Portfolio, Settings, call, check, check_risk_limits, ensure_loaded, flush, is_held,
  kill_switch_active, persist, read_switch, record_pnl, record_trade, report_persist_failure,
}
use xupertrade.Portfolio.Accounting.{check_cases, flush_cases}
use xupertrade.Prelude.{
  Bool, Bool-cases, Option, arith, eq_iff, false, inl, inr, none, not, refl, some, true, ◌&&◌, ◌∙◌,
  ◌≡◌,
}

module _ ⦃N : Floats⦄ where
  abbrev flag_blocks : Settings → Option (Option Bool) → Bool
  flag_blocks settings none = true
  flag_blocks settings (some none) = settings.kill_switch
  flag_blocks settings (some (some active)) = active

  -- Whether the kill switch blocks an open: with Redis wired, an unreadable switch does; without,
  -- the setting decides.
  abbrev pub blocked : Settings → Env → Bool → Bool
  blocked settings env true = flag_blocks settings env.kill_flag
  blocked settings env false = settings.kill_switch

  -- The parts of the state that a read or a write of the totals leaves alone.
  abbrev pub SameGate : Portfolio → Portfolio → Type 0
  SameGate p q = (q.has_control ≡ p.has_control) × (q.opens_held ≡ p.opens_held)

  SameGate-report :
      (env : Env) (p : Portfolio)
      → SameGate p (report_persist_failure env p)
        × ((report_persist_failure env p).daily_pnl ≡ p.daily_pnl)
  unfolding report_persist_failure
  SameGate-report env p = ground arith

  SameGate-persist :
      (env : Env) (p : Portfolio)
      → SameGate p (persist env p) × ((persist env p).daily_pnl ≡ p.daily_pnl)
  unfolding persist
  SameGate-persist env p = ground (arith, SameGate-report env (record p { persist_pending = true }))

  SameGate-flush :
      (env : Env) (p : Portfolio)
      → SameGate p (flush env p) × ((flush env p).daily_pnl ≡ p.daily_pnl)
  SameGate-flush env p =
      flush_cases (λ q. SameGate p q × (q.daily_pnl ≡ p.daily_pnl)) env p (SameGate-persist env p)
        ((refl, refl), refl)

  SameGate-ensure_loaded : (env : Env) (p : Portfolio) → SameGate p (ensure_loaded env p)
  unfolding ensure_loaded
  SameGate-ensure_loaded env p = ground (arith, eq_iff env.today p.date_str)

  read_switch-reads :
      (settings : Settings) (flag : Option (Option Bool)) (q : Portfolio)
      → ((read_switch settings flag q).1 ≡ flag_blocks settings flag)
        × SameGate q (read_switch settings flag q).0
        × ((read_switch settings flag q).0.daily_pnl ≡ q.daily_pnl)
  read_switch-reads settings none q = (refl, (refl, refl), refl)
  read_switch-reads settings (some none) q = (refl, (refl, refl), refl)
  read_switch-reads settings (some (some active)) q = (refl, (refl, refl), refl)

  -- The kill switch as `check_risk_limits` reads it, and what reading it leaves alone.
  kill_switch-reads :
      (settings : Settings) (env : Env) (q : Portfolio)
      → ((kill_switch_active settings env q).1 ≡ blocked settings env q.has_control)
        × SameGate q (kill_switch_active settings env q).0
        × ((kill_switch_active settings env q).0.daily_pnl ≡ q.daily_pnl)
  unfolding kill_switch_active
  kill_switch-reads settings env q = elim (Bool-cases q.has_control) [
    | inl wired ↦
        let reads = read_switch-reads settings env.kill_flag q in
        simp wired (reads.0, (reads.1.0 ∙ wired, reads.1.1), reads.2)
    | inr bare ↦ simp bare (refl, (refl, refl), refl)
  ]

  open_decision :
      (settings : Settings) (env : Env) (p : Portfolio)
      → (let k = kill_switch_active settings env (flush env (ensure_loaded env p)) in
          (check_risk_limits settings true env p).1 ≡ (
            not k.1
            && not (is_held k.0.opens_held)
            && not (k.0.daily_pnl ≺ N.neg settings.max_daily_loss_usd)))
  unfolding check_risk_limits
  open_decision settings env p =
      let k = kill_switch_active settings env (flush env (ensure_loaded env p)) in
      elim (Bool-cases k.1) [
        | inl active ↦ rw active refl
        | inr off ↦ elim (Bool-cases (is_held k.0.opens_held)) [
          | inl held ↦ rw (off, held) refl
          | inr free ↦ rw (off, free) refl
        ]
      ]

  SameGate-loaded : (env : Env) (p : Portfolio) → SameGate p (flush env (ensure_loaded env p))
  SameGate-loaded env p =
      let one = SameGate-ensure_loaded env p in
      let two = (SameGate-flush env (ensure_loaded env p)).0 in (two.0 ∙ one.0, two.1 ∙ one.1)

  -- A close is always allowed. An open is allowed exactly when the kill switch reads inactive (an
  -- unreadable Redis switch counts as active; without Redis or an override the setting decides),
  -- opens are not held, and the day's total, the stored part loaded where it can be read, is not
  -- below the loss cap.
  pub check_risk_limits-decides :
      (settings : Settings) (env : Env) (p : Portfolio)
      → ((check_risk_limits settings false env p).1 ≡ true)
        × ((check_risk_limits settings true env p).1 ≡ (
            not (blocked settings env p.has_control)
            && not (is_held p.opens_held)
            && not ((ensure_loaded env p).daily_pnl ≺ N.neg settings.max_daily_loss_usd)))
  unfolding check_risk_limits
  check_risk_limits-decides settings env p =
      let q = flush env (ensure_loaded env p) in
      let reads = kill_switch-reads settings env q in
      let same = SameGate-loaded env p in
      let daily = (SameGate-flush env (ensure_loaded env p)).1 in
      (
        refl,
        open_decision settings env p ∙ rw (reads.0, reads.1.1, reads.2, same.0, same.1, daily) refl,
      )

  pub SameGate-trans : (p q r : Portfolio) → SameGate p q → SameGate q r → SameGate p r
  SameGate-trans p q r one two = (two.0 ∙ one.0, two.1 ∙ one.1)

  -- No call on the manager changes whether Redis is wired, or whether opens are held.
  record_pnl-SameGate :
      (pnl : Number) (env : Env) (p : Portfolio) → SameGate p (record_pnl pnl env p)
  unfolding record_pnl
  record_pnl-SameGate pnl env p =
      let q = ensure_loaded env p in
      let added = record q { daily_pnl = q.daily_pnl ⊕ pnl } in
      SameGate-trans p q (persist env added) (SameGate-ensure_loaded env p)
        (SameGate-persist env added).0

  pub call-SameGate :
      (settings : Settings) (c : Call) (p : Portfolio) → SameGate p (call settings c p)
  unfolding call
  call-SameGate settings (check is_open env) p =
      let q = flush env (ensure_loaded env p) in
      check_cases (SameGate p) settings is_open env p (SameGate-loaded env p) (
        SameGate-trans p q (kill_switch_active settings env q).0 (SameGate-loaded env p)
          (kill_switch-reads settings env q).1)
  call-SameGate settings (record_trade pnl env) p = record_pnl-SameGate pnl env p

  pub record_pnl-opens_held :
      (pnl : Number) (env : Env) (p : Portfolio) → (record_pnl pnl env p).opens_held ≡ p.opens_held
  record_pnl-opens_held pnl env p = (record_pnl-SameGate pnl env p).1

  pub call-opens_held :
      (settings : Settings) (c : Call) (p : Portfolio)
      → (call settings c p).opens_held ≡ p.opens_held
  call-opens_held settings c p = (call-SameGate settings c p).1

  -- While opens are held, no open is allowed.
  pub held-refuses :
      (settings : Settings) (env : Env) (p : Portfolio)
      → is_held p.opens_held ≡ true
      → (check_risk_limits settings true env p).1 ≡ false
  held-refuses settings env p held = rw (check_risk_limits-decides settings env p).1 (ground arith)
