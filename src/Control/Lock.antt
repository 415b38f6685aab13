-- ===== src/Control/Lock.antt =====
-- engine/control.py: a control whose hold stands, or whose loss of state is yet to be noticed.
use xupertrade.Control.{
  BotControl, Command, acknowledge_flat, acknowledge_flat_request, clear_kill_switch_override,
  disable, disable_strategy, enable, enable_strategy, hold, is_reconcile_hold_active, kill, pause,
  perform, read_sentinel, request_flat, request_flat_all, rewrite_sentinel, sentinel_present,
  set_hold, set_kill_switch, set_paused, set_reconcile_hold, state_of, unkill, write_sentinel,
}
use xupertrade.Prelude.{Bool, arith, false, is_some, not, true, ◌||◌, ◌≡◌}

-- With Redis, the hold is active or the sentinel is missing.
abbrev pub Locked : BotControl → Type 0
Locked c =
    (c.connected ≡ true) × ((is_reconcile_hold_active c || not (is_some c.sentinel_key)) ≡ true)

-- Every command but a clear of the hold and a write of the sentinel.
abbrev pub locks : Command → Bool
locks (rewrite_sentinel lands now) = false
locks (pause lands b) = true
locks (enable lands name) = true
locks (disable lands name) = true
locks (request_flat lands token) = true
locks (acknowledge_flat lands token) = true
locks (kill lands active) = true
locks (unkill lands) = true
locks (read_sentinel readable) = true
locks (hold sentinel_lands lands now active) = active

pub perform-Locked :
    (command : Command) (c : BotControl)
    → locks command ≡ true
    → Locked c
    → Locked (state_of (perform command c))
unfolding is_reconcile_hold_active perform set_paused enable_strategy disable_strategy
    request_flat_all acknowledge_flat_request set_kill_switch clear_kill_switch_override
    sentinel_present write_sentinel set_reconcile_hold set_hold
perform-Locked (pause lands b) c k h = ground arith
perform-Locked (enable lands name) c k h = ground arith
perform-Locked (disable lands name) c k h = ground arith
perform-Locked (request_flat lands token) c k h = ground arith
perform-Locked (acknowledge_flat lands token) c k h = ground arith
perform-Locked (kill lands active) c k h = ground arith
perform-Locked (unkill lands) c k h = ground arith
perform-Locked (read_sentinel readable) c k h = ground arith
perform-Locked (rewrite_sentinel lands now) c k h = cc
perform-Locked (hold sentinel_lands lands now true) c k h = ground arith
perform-Locked (hold sentinel_lands lands now false) c k h = cc
