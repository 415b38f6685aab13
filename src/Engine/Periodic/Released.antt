-- ===== src/Engine/Periodic/Released.antt =====
-- runner.py and control.py together: a runner for which nothing holds opens back.
use xupertrade.Control.{
  BotControl, clear_hold, is_reconcile_hold_active, sentinel_present, set_reconcile_hold, state_of,
}
use xupertrade.Engine.Guard.{
  Guarded, Reason, Runner, Weather, check_control_state, check_with, conclude, note_cleared,
  publish_alert, read_control_state,
}
use xupertrade.Engine.Periodic.{after_pass, check_and_pass, options_of}
use xupertrade.Float.{Floats, Number}
use xupertrade.Portfolio.{Env}
use xupertrade.Prelude.{
  List, Option, String, [], ap, arith, contains, false, filter, is_some, none, refl, some, subst,
  sym, true, ◌||◌, ◌∙◌, ◌≡◌,
}
use xupertrade.Repository.Reconciler.{Options, ReconcileResult}

module _ ⦃N : Floats⦄ where
  -- A control that Redis answers for, with its sentinel and without a hold.
  abbrev pub IsFree : BotControl → Type 0
  IsFree c =
      (c.connected ≡ true)
      × (c.hold_unwritten ≡ false)
      × (is_some c.reconcile_hold_key ≡ false)
      × (is_some c.sentinel_key ≡ true)

  -- Every read answers.
  abbrev pub IsReadable : Weather → Type 0
  IsReadable w = (w.sentinel_readable ≡ true) × (w.hold_readable ≡ true)

  abbrev pub cleared : String → BotControl → BotControl
  cleared now c = state_of (set_reconcile_hold true true now false c)

  pub cleared-IsFree :
      (now : String) (c : BotControl)
      → c.connected ≡ true
      → (c.hold_unwritten || c.sentinel_unwritten || is_some c.sentinel_key) ≡ true
      → IsFree (cleared now c)
  unfolding set_reconcile_hold clear_hold
  cleared-IsFree now c on acknowledged = ground arith

  -- The control as a readable check leaves it.
  abbrev acknowledged : BotControl → BotControl
  acknowledged c = record c { sentinel_unwritten = false }

  read_control_state-free :
      (w : Weather) (c : BotControl) (g : Runner)
      → IsReadable w
      → IsFree c
      → read_control_state w c g ≡ ((acknowledged c, record g { lost_state_alerted = false }), none)
  unfolding read_control_state sentinel_present is_reconcile_hold_active
  read_control_state-free w c g readable free =
      simp (readable.0, readable.1, free.0, free.1, free.2, free.3) refl

  -- A runner whose control is free and for which nothing holds opens back.
  pub record IsReleased (g : Runner) : Type 0 where
    pub c : BotControl
    pub wired : g.control ≡ some c
    pub free : IsFree c
    pub no_hold : g.control_hold ≡ none
    pub passed : g.awaiting ≡ none
    pub opened : g.portfolio.opens_held ≡ none

  -- A readable check of a free control finds no reason to hold.
  check-free :
      (w : Weather) (g : Runner) (c : BotControl)
      → g.control ≡ some c
      → IsReadable w
      → IsFree c
      → check_control_state w g ≡ (
        conclude w true none
            (record g { lost_state_alerted = false; control = some (acknowledged c) }),
        none,
      )
  unfolding check_control_state
  check-free w g c wired readable free =
      ap (check_with w g) wired
      ∙ ap
          (λ (k : Guarded × Option Reason).
            (conclude w true k.1 (record k.0.1 { control = some k.0.0 }), k.1))
          (read_control_state-free w c g readable free)

  -- It leaves a released runner released.
  pub check-IsReleased :
      (w : Weather) (g : Runner)
      → IsReadable w
      → IsReleased g
      → IsReleased (check_control_state w g).0
  unfolding conclude note_cleared publish_alert
  check-IsReleased w g readable r =
      subst (λ k. IsReleased k.0) (sym (check-free w g r.c r.wired readable r.free))
        (record {
          c = acknowledged r.c;
          wired = ground (arith, r.no_hold);
          free = r.free;
          no_hold = ground arith;
          passed = ground (arith, r.no_hold, r.passed);
          opened = ground (arith, r.no_hold, r.passed);
        })

  -- After a pass that counts, without a reason to hold and without a held orphan on a traded coin.
  after_pass-IsReleased :
      (w : Weather) (env : Env) (traded : List String) (g : Runner) (c : BotControl)
      (r : ReconcileResult) (closed : List (String × Number))
      → g.control ≡ some c
      → IsFree c
      → g.control_hold ≡ none
      → r.skipped ≡ none
      → r.unresolved_orphans ≡ []
      → filter (λ s. contains s r.held_orphans) traded ≡ []
      → IsReleased (after_pass w env traded false none g (some (r, closed))).0
  unfolding after_pass
  after_pass-IsReleased w env traded g c r closed wired free no_hold read_all settled none_held =
      simp (read_all, settled, none_held)
        (record {
          c = c;
          wired = wired;
          free = free;
          no_hold = no_hold;
          passed = refl;
          opened = refl;
        })

  -- The check of the pass, from any state with a free control.
  pub check_and_pass-IsReleased :
      (w : Weather) (env : Env) (traded : List String)
      (pass : Options → Option (ReconcileResult × List (String × Number))) (g : Runner)
      (c : BotControl) (r : ReconcileResult) (closed : List (String × Number))
      → g.control ≡ some c
      → IsReadable w
      → IsFree c
      → ((opts : Options) → pass opts ≡ some (r, closed))
      → r.skipped ≡ none
      → r.unresolved_orphans ≡ []
      → filter (λ s. contains s r.held_orphans) traded ≡ []
      → IsReleased (check_and_pass w env traded pass false g).0
  unfolding check_and_pass conclude note_cleared publish_alert
  check_and_pass-IsReleased w env traded pass g c r closed wired readable free answers read_all
        settled none_held =
      let back : Runner = record g {
        lost_state_alerted = false;
        control = some (acknowledged c);
      } in
      subst
        (λ (k : Runner × Option Reason).
          IsReleased
            (after_pass w env traded false k.1 k.0
              (pass (options_of false k.1 k.0.awaiting traded))).0)
        (sym (check-free w g c wired readable free))
        (rw answers (
          after_pass-IsReleased w env traded (conclude w true none back) (acknowledged c) r closed
            (ground arith) free (ground arith) read_all settled none_held))
