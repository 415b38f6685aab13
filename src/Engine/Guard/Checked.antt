-- ===== src/Engine/Guard/Checked.antt =====
-- runner.py: one check of the control state.
use xupertrade.Control.{
  BotControl, is_reconcile_hold_active, sentinel_present, set_hold, set_reconcile_hold,
  write_sentinel,
}
use xupertrade.Control.Lock.{Locked}
use xupertrade.Engine.Guard.{
  Guarded, Reason, Runner, Weather, check_control_state, check_with, conclude, either, first_pass,
  hold_set, no_connection, note_cleared, on_sentinel, pass_after_clear, publish_alert,
  read_control_state, read_hold, retry_hold, secure_lost_control_state, shown, text, unreadable,
  write_hold,
}
use xupertrade.Float.{Floats}
use xupertrade.Portfolio.{Portfolio, is_held}
use xupertrade.Prelude.{
  Bool, Bool-cases, Option, String, ap, arith, false, if-cases, if◌then◌else◌, inl, inr, is_some,
  none, not, refl, some, subst, sym, true, ◌&&◌, ◌∙◌, ◌≡◌,
}

module _ ⦃N : Floats⦄ where
  -- What a read of a locked control leaves: it is locked, and there is a reason to hold.
  abbrev Holds : Guarded × Option Reason → Type 0
  Holds r = Locked r.0.0 × (is_some r.1 ≡ true)

  secure-Locked :
      (w : Weather) (c : BotControl) (g : Runner)
      → c.connected ≡ true
      → c.sentinel_key ≡ none
      → Locked (secure_lost_control_state w c g).0
  unfolding secure_lost_control_state write_hold set_reconcile_hold set_hold write_sentinel
      is_reconcile_hold_active
  secure-Locked w c g on missing = elim (Bool-cases w.hold_lands) [
    | inl lands ↦ elim (Bool-cases w.sentinel_lands) [
      | inl written ↦ simp (on, lands, written) (refl, refl)
      | inr unwritten ↦ simp (on, lands, unwritten) (refl, refl)
    ]
    | inr fails ↦ simp (on, fails) (refl, refl)
  ]

  read_hold-Holds :
      (w : Weather) (c : BotControl) (g : Runner)
      → Locked c
      → is_some c.sentinel_key ≡ true
      → Holds (read_hold w c g)
  unfolding is_reconcile_hold_active
  read_hold-Holds w c g h present = ground arith

  retry_hold-Holds :
      (w : Weather) (c : BotControl) (g : Runner)
      → Locked c
      → is_some c.sentinel_key ≡ true
      → Holds (retry_hold w c g)
  unfolding write_hold set_reconcile_hold set_hold is_reconcile_hold_active
  retry_hold-Holds w c g h present = ground arith

  abbrev answer : BotControl → Bool → Bool → Bool → BotControl × Option Bool
  answer c connected readable present =
      if not connected
      then (c, some true)
      else if not readable
      then (c, none)
      else (record c { sentinel_unwritten = not present }, some present)

  answer-cases {ℓ} :
      (P : BotControl × Option Bool → Type ℓ) (c : BotControl) (connected readable present : Bool)
      → connected ≡ true
      → (readable ≡ false → P (c, none))
      → (readable ≡ true → present ≡ false → P (record c { sentinel_unwritten = true }, some false))
      → (readable ≡ true → present ≡ true → P (record c { sentinel_unwritten = false }, some true))
      → P (answer c connected readable present)
  answer-cases P c false readable present on unread missing there = cc
  answer-cases P c true false present on unread missing there = unread refl
  answer-cases P c true true false on unread missing there = missing refl refl
  answer-cases P c true true true on unread missing there = there refl refl

  -- How the read of the sentinel ends, with Redis.
  pub sentinel_present-cases {ℓ} :
      (P : BotControl × Option Bool → Type ℓ) (readable : Bool) (c : BotControl)
      → c.connected ≡ true
      → (readable ≡ false → P (c, none))
      → (readable ≡ true
          → is_some c.sentinel_key ≡ false
          → P (record c { sentinel_unwritten = true }, some false))
      → (readable ≡ true
          → is_some c.sentinel_key ≡ true
          → P (record c { sentinel_unwritten = false }, some true))
      → P (sentinel_present readable c)
  unfolding sentinel_present
  sentinel_present-cases P readable c on unread missing there =
      answer-cases P c c.connected readable (is_some c.sentinel_key) on unread missing there

  read_control_state-Holds :
      (w : Weather) (c : BotControl) (g : Runner) → Locked c → Holds (read_control_state w c g)
  unfolding read_control_state is_reconcile_hold_active
  read_control_state-Holds w c g h =
      sentinel_present-cases (λ a. Holds (on_sentinel w g a)) w.sentinel_readable c h.0
        (λ blind. (h, refl))
        (λ reads missing. (
          secure-Locked w (record c { sentinel_unwritten = true }) g h.0
              (no_value c.sentinel_key missing),
          refl,
        ))
        (λ reads present.
          with_sentinel (record c { sentinel_unwritten = false })
            (record g { lost_state_alerted = false }) h present)
    where
      no_value : (o : Option String) → is_some o ≡ false → o ≡ none
      no_value none e = refl
      no_value (some x) e = cc

      with_sentinel :
          (c : BotControl) (g : Runner)
          → Locked c
          → is_some c.sentinel_key ≡ true
          → Holds (if c.hold_unwritten then retry_hold w c g else read_hold w c g)
      with_sentinel c g h present =
          if-cases Holds c.hold_unwritten (retry_hold w c g) (read_hold w c g)
            (λ unwritten. retry_hold-Holds w c g h present)
            (λ clean. read_hold-Holds w c g h present)

  -- What the alert leaves alone, and what the note of a cleared hold does.
  abbrev pub SameRunner : Runner → Runner → Type 0
  SameRunner g h =
      (h.control ≡ g.control)
      × (h.portfolio ≡ g.portfolio)
      × (h.awaiting ≡ g.awaiting)
      × (h.control_hold ≡ g.control_hold)
      × (h.has_repo ≡ g.has_repo)

  pub publish_alert-keeps :
      (w : Weather) (why : Option Reason) (g : Runner) → SameRunner g (publish_alert w why g)
  unfolding publish_alert
  publish_alert-keeps w why g =
      if-cases (SameRunner g) (is_some g.lost_state_alert && w.published) _ _
        (λ e. (refl, refl, refl, refl, refl)) (λ e. (refl, refl, refl, refl, refl))

  pub note_cleared-control :
      (w : Weather) (why : Option Reason) (g : Runner) → (note_cleared w why g).control ≡ g.control
  unfolding note_cleared
  note_cleared-control w why g = ground arith

  pub either-held :
      (why awaiting : Option Reason)
      → is_some (either why awaiting) ≡ true
      → is_held (shown (either why awaiting)) ≡ true
  either-held why awaiting h = reason_held (either why awaiting) h
    where
      reason_held : (r : Option Reason) → is_some r ≡ true → is_held (shown r) ≡ true
      reason_held none e = cc
      reason_held (some no_connection) e = refl
      reason_held (some unreadable) e = refl
      reason_held (some hold_set) e = refl
      reason_held (some first_pass) e = refl
      reason_held (some pass_after_clear) e = refl

  -- A runner whose control is locked and whose manager holds opens.
  abbrev pub LockedRunner : Runner → Type 0
  LockedRunner g =
      (c : BotControl) × (g.control ≡ some c) × Locked c × (is_held g.portfolio.opens_held ≡ true)

  conclude-LockedRunner :
      (w : Weather) (why : Option Reason) (g : Runner) (c : BotControl)
      → is_some why ≡ true
      → g.control ≡ some c
      → Locked c
      → LockedRunner (conclude w true why g)
  unfolding conclude
  conclude-LockedRunner w none g c held wired h = cc
  conclude-LockedRunner w (some why) g c held wired h =
      let noted = note_cleared w (some why) g in
      let keeps = publish_alert-keeps w (some why) (record noted {
        control_hold = some why;
        portfolio = record noted.portfolio { opens_held = some (text why) };
      }) in
      (
        c,
        keeps.0 ∙ note_cleared-control w (some why) g ∙ wired,
        h,
        ap (λ (p : Portfolio). is_held p.opens_held) keeps.1 ∙ either-held (some why) none refl,
      )

  -- A check of a locked control leaves it locked and opens held, and answers a reason.
  pub check_control_state-LockedRunner :
      (w : Weather) (g : Runner) (c : BotControl)
      → g.control ≡ some c
      → Locked c
      → LockedRunner (check_control_state w g).0 × (is_some (check_control_state w g).1 ≡ true)
  unfolding check_control_state
  check_control_state-LockedRunner w g c wired h =
      let r = read_control_state w c g in
      let holds = read_control_state-Holds w c g h in
      subst
        (λ (o : Option BotControl).
          LockedRunner (check_with w g o).0 × (is_some (check_with w g o).1 ≡ true))
        (sym wired)
        (
          conclude-LockedRunner w r.1 (record r.0.1 { control = some r.0.0 }) r.0.0 holds.1 refl
              holds.0,
          holds.1,
        )
