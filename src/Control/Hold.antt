-- ===== src/Control/Hold.antt =====
-- engine/control.py: the reconcile hold over sequences of commands.
use xupertrade.Control.{
  BotControl, Command, Result, acknowledge_flat, acknowledge_flat_request, clear_hold,
  clear_kill_switch_override, disable, disable_strategy, enable, enable_strategy, hold,
  is_reconcile_hold_active, kill, pause, perform, raised, read_sentinel, request_flat,
  request_flat_all, returned, rewrite_sentinel, sentinel_present, set_hold, set_kill_switch,
  set_paused, set_reconcile_hold, state_of, unkill, write_sentinel,
}
use xupertrade.Prelude.{
  All, Bool, List, String, [], arith, false, if◌then◌else◌, not, some, true, ◌&&◌, ◌||◌, ◌∷◌, ◌≡◌,
}

-- Every command but a clear of the hold.
abbrev pub keeps : Command → Bool
keeps (pause lands b) = true
keeps (enable lands name) = true
keeps (disable lands name) = true
keeps (request_flat lands token) = true
keeps (acknowledge_flat lands token) = true
keeps (kill lands active) = true
keeps (unkill lands) = true
keeps (read_sentinel readable) = true
keeps (rewrite_sentinel lands now) = true
keeps (hold sentinel_lands lands now active) = active

Held-perform :
    (command : Command) (c : BotControl)
    → is_reconcile_hold_active c ≡ true
    → keeps command ≡ true
    → is_reconcile_hold_active (state_of (perform command c)) ≡ true
unfolding is_reconcile_hold_active perform set_paused enable_strategy disable_strategy
    request_flat_all acknowledge_flat_request set_kill_switch clear_kill_switch_override
    sentinel_present write_sentinel set_reconcile_hold set_hold
Held-perform (pause lands b) c h k = ground arith
Held-perform (enable lands name) c h k = ground arith
Held-perform (disable lands name) c h k = ground arith
Held-perform (request_flat lands token) c h k = ground arith
Held-perform (acknowledge_flat lands token) c h k = ground arith
Held-perform (kill lands active) c h k = ground arith
Held-perform (unkill lands) c h k = ground arith
Held-perform (read_sentinel readable) c h k = ground arith
Held-perform (rewrite_sentinel lands now) c h k = ground arith
Held-perform (hold sentinel_lands lands now true) c h k = ground arith
Held-perform (hold sentinel_lands lands now false) c h k = ground arith

-- Setting the hold makes it active, even where the write raises.
set-Held :
    (sentinel_lands lands : Bool) (now : String) (c : BotControl)
    → is_reconcile_hold_active (state_of (set_reconcile_hold sentinel_lands lands now true c))
      ≡ true
unfolding is_reconcile_hold_active set_reconcile_hold set_hold
set-Held sentinel_lands lands now c = ground arith

abbrev pub perform_all : List Command → BotControl → BotControl
perform_all [] c = c
perform_all (command ∷ commands) c = perform_all commands (state_of (perform command c))

Held-perform_all :
    (commands : List Command) (c : BotControl)
    → All (λ command. keeps command ≡ true) commands
    → is_reconcile_hold_active c ≡ true
    → is_reconcile_hold_active (perform_all commands c) ≡ true
Held-perform_all [] c kept h = h
Held-perform_all (command ∷ commands) c kept h =
    Held-perform_all commands (state_of (perform command c)) kept.1
      (Held-perform command c h kept.0)

-- After the hold is set, whether or not the write landed, it stays active through every sequence
-- of commands without a clear, whichever of their reads and writes raise.
pub hold-stays :
    (sentinel_lands lands : Bool) (now : String) (c : BotControl) (commands : List Command)
    → All (λ command. keeps command ≡ true) commands
    → is_reconcile_hold_active
        (perform_all commands (state_of (set_reconcile_hold sentinel_lands lands now true c)))
      ≡ true
hold-stays sentinel_lands lands now c commands kept =
    Held-perform_all commands (state_of (set_reconcile_hold sentinel_lands lands now true c)) kept
      (set-Held sentinel_lands lands now c)

-- What a clear may leave: where it raised, the hold as it was; where it returned, no hold unless
-- there is no Redis, and the sentinel written exactly if an unwritten hold or sentinel is
-- acknowledged by it.
abbrev pub Cleared : String → BotControl → Result → Type 0
Cleared now c (raised d) = is_reconcile_hold_active d ≡ is_reconcile_hold_active c
Cleared now c (returned d) =
    (is_reconcile_hold_active d ≡ not c.connected)
    × (d.sentinel_key ≡ (
        if c.connected && (c.hold_unwritten || c.sentinel_unwritten)
        then some now
        else c.sentinel_key))

-- A clear that raises leaves the hold as it was. One that returns ends the hold if there is Redis,
-- and writes the sentinel exactly when the bot had seen the hold or the sentinel unwritten.
pub clear-Cleared :
    (sentinel_lands lands : Bool) (now : String) (c : BotControl)
    → Cleared now c (set_reconcile_hold sentinel_lands lands now false c)
unfolding is_reconcile_hold_active set_reconcile_hold clear_hold
clear-Cleared sentinel_lands lands now c = ground arith
