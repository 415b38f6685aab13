-- ===== src/Tests/Switches.antt =====
-- engine/control.py on one state of Redis.
use xupertrade.Control.{
  BotControl, Command, acknowledge_flat, acknowledge_flat_request, get_pending_flat_request, hold,
  is_reconcile_hold_active, pause, request_flat, request_flat_all, rewrite_sentinel,
  set_reconcile_hold, state_of,
}
use xupertrade.Control.Hold.{Cleared, clear-Cleared, hold-stays, perform_all}
use xupertrade.Control.Requests.{request_flat_all-pending}
use xupertrade.Float.Whole.{whole_floats}
use xupertrade.Prelude.{List, [], false, none, refl, some, true, ◌∷◌, ◌≡◌}

abbrev control : BotControl
control = record {
  connected = true;
  hold_unwritten = false;
  sentinel_unwritten = true;
  paused_key = none;
  disabled_key = "b" ∷ [];
  flat_req_key = none;
  flat_done_key = none;
  kill_switch_key = some "1";
  sentinel_key = none;
  reconcile_hold_key = none;
}

-- The hold's own write raises, and so does a pause; the sentinel is written back.
abbrev commands : List Command
commands = pause false true ∷ rewrite_sentinel true "9" ∷ hold true false "10" true ∷ []

hold-stays_example :
    is_reconcile_hold_active
      (perform_all commands (state_of (set_reconcile_hold true false "8" true control)))
    ≡ true
hold-stays_example = hold-stays true false "8" control commands (refl, (refl, (refl, tt)))

clear-Cleared_example : Cleared "8" control (set_reconcile_hold true true "8" false control)
clear-Cleared_example = clear-Cleared true true "8" control

-- An older token is acknowledged late, and the acknowledgement of the token fails once.
abbrev before_done : List Command
before_done =
    acknowledge_flat true "t1"
    ∷ acknowledge_flat false "t2"
    ∷ pause true true
    ∷ request_flat false "t3"
    ∷ []

abbrev after_done : List Command
after_done = acknowledge_flat true "t2" ∷ request_flat false "t3" ∷ pause true false ∷ []

abbrev waiting : BotControl
waiting = perform_all before_done (state_of (request_flat_all true "t2" control))

request_flat_all-pending_example :
    (get_pending_flat_request waiting ≡ some "t2")
    × (get_pending_flat_request
          (perform_all after_done (state_of (acknowledge_flat_request true "t2" waiting)))
        ≡ none)
request_flat_all-pending_example =
    request_flat_all-pending "t2" before_done after_done control refl refl refl
      (refl, (refl, (refl, (refl, tt)))) (refl, (refl, (refl, tt)))
