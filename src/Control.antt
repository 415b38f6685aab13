-- ===== src/Control.antt =====
-- engine/control.py: the switches in Redis, one bot's keys. Each key is a field; whether a command
-- lands is an argument, and one that does not land raises out of the method. The other keys
-- (leverage, heartbeat, multi-coin, daily PnL, opt-ins and strategy snapshots) are left out here.
pub mod Hold
pub mod Lock
pub mod Toggles
pub mod Requests
use xupertrade.Prelude.{
  Bool, List, Option, String, [], contains, false, filter, if◌then◌else◌, is_some, none, not, some,
  true, ◌==◌, ◌||◌, ◌∷◌,
}

pub record BotControl : Type 0 where
  -- `_redis is not None`
  pub connected : Bool
  pub hold_unwritten : Bool
  pub sentinel_unwritten : Bool
  -- the keys
  pub paused_key : Option String
  pub disabled_key : List String
  pub flat_req_key : Option String
  pub flat_done_key : Option String
  pub kill_switch_key : Option String
  pub sentinel_key : Option String
  pub reconcile_hold_key : Option String

-- What a method that may raise leaves behind.
pub data Result : Type 0 where
  returned raised : BotControl → Result

abbrev pub state_of : Result → BotControl
state_of (returned c) = c
state_of (raised c) = c

-- "1" if b else "0"
abbrev flag : Bool → String
flag true = "1"
flag false = "0"

-- val == "1"
abbrev is_one : Option String → Bool
is_one none = false
is_one (some v) = v == "1"

-- A write to one key.
abbrev write : Bool → BotControl → BotControl → Result
write lands old new =
    if not old.connected then returned old else if lands then returned new else raised old

pub is_paused : BotControl → Bool
is_paused c = if not c.connected then false else is_one c.paused_key

unfoldable pub set_paused : Bool → Bool → BotControl → Result
set_paused lands paused c = write lands c (record c { paused_key = some (flag paused) })

pub is_strategy_enabled : String → BotControl → Bool
is_strategy_enabled name c = if not c.connected then true else not (contains name c.disabled_key)

pub get_disabled_strategies : BotControl → List String
get_disabled_strategies c = if not c.connected then [] else c.disabled_key

-- SREM
pub enable_strategy : Bool → String → BotControl → Result
enable_strategy lands name c =
    write lands c (record c { disabled_key = filter (λ n. not (n == name)) c.disabled_key })

-- SADD
pub disable_strategy : Bool → String → BotControl → Result
disable_strategy lands name c = write lands c (record c {
  disabled_key = if contains name c.disabled_key then c.disabled_key else name ∷ c.disabled_key;
})

pub request_flat_all : Bool → String → BotControl → Result
request_flat_all lands token c = write lands c (record c { flat_req_key = some token })

-- `not req`, or `req == acked`
abbrev pub pending_of : Option String → Option String → Option String
pending_of none acked = none
pending_of (some req) none = if req == "" then none else some req
pending_of (some req) (some acked) = if req == "" || req == acked then none else some req

unfoldable pub get_pending_flat_request : BotControl → Option String
get_pending_flat_request c =
    if not c.connected then none else pending_of c.flat_req_key c.flat_done_key

unfoldable pub acknowledge_flat_request : Bool → String → BotControl → Result
acknowledge_flat_request lands token c = write lands c (record c { flat_done_key = some token })

abbrev override_of : Option String → Option Bool
override_of none = none
override_of (some v) = some (v == "1")

pub is_kill_switch_active : BotControl → Option Bool
is_kill_switch_active c = if not c.connected then none else override_of c.kill_switch_key

pub set_kill_switch : Bool → Bool → BotControl → Result
set_kill_switch lands active c = write lands c (record c { kill_switch_key = some (flag active) })

pub clear_kill_switch_override : Bool → BotControl → Result
clear_kill_switch_override lands c = write lands c (record c { kill_switch_key = none })

-- The answer, where the read succeeds; none where it raises.
unfoldable pub sentinel_present : Bool → BotControl → BotControl × Option Bool
sentinel_present readable c =
    if not c.connected
    then (c, some true)
    else if not readable
    then (c, none)
    else let present = is_some c.sentinel_key in
      (record c { sentinel_unwritten = not present }, some present)

unfoldable pub write_sentinel : Bool → String → BotControl → Result
write_sentinel lands now c =
    write lands c (record c { sentinel_key = some now; sentinel_unwritten = false })

unfoldable pub is_reconcile_hold_active : BotControl → Bool
is_reconcile_hold_active c =
    if c.hold_unwritten || not c.connected then true else is_some c.reconcile_hold_key

-- The branch that sets the hold: it holds in memory until its write lands.
unfoldable pub set_hold : Bool → String → BotControl → Result
set_hold lands now c =
    let unwritten = record c { hold_unwritten = true } in
    if not c.connected
    then returned (record c { hold_unwritten = false })
    else if lands
    then returned (record c { hold_unwritten = false; reconcile_hold_key = some now })
    else raised unwritten

abbrev delete_hold : Bool → BotControl → Result
delete_hold lands c =
    if lands
    then returned (record c { hold_unwritten = false; reconcile_hold_key = none })
    else raised c

-- The branch that clears it, acknowledging a lost state that was acted on.
unfoldable pub clear_hold : Bool → Bool → String → BotControl → Result
clear_hold sentinel_lands lands now c =
    if not c.connected
    then returned (record c { hold_unwritten = false })
    else if c.hold_unwritten || c.sentinel_unwritten
    then if sentinel_lands
      then delete_hold lands (record c { sentinel_key = some now; sentinel_unwritten = false })
      else raised c
    else delete_hold lands c

unfoldable pub set_reconcile_hold : Bool → Bool → String → Bool → BotControl → Result
unfolding set_hold clear_hold
set_reconcile_hold sentinel_lands lands now active c =
    if active then set_hold lands now c else clear_hold sentinel_lands lands now c

-- One call of a method, with what Redis does.
pub data Command : Type 0 where
  pause : Bool → Bool → Command
  enable : Bool → String → Command
  disable : Bool → String → Command
  request_flat : Bool → String → Command
  acknowledge_flat : Bool → String → Command
  kill : Bool → Bool → Command
  unkill : Bool → Command
  read_sentinel : Bool → Command
  rewrite_sentinel : Bool → String → Command
  hold : Bool → Bool → String → Bool → Command

pub perform : Command → BotControl → Result
unfolding set_paused enable_strategy disable_strategy request_flat_all acknowledge_flat_request
    set_kill_switch clear_kill_switch_override sentinel_present write_sentinel set_reconcile_hold
perform (pause lands b) c = set_paused lands b c
perform (enable lands name) c = enable_strategy lands name c
perform (disable lands name) c = disable_strategy lands name c
perform (request_flat lands token) c = request_flat_all lands token c
perform (acknowledge_flat lands token) c = acknowledge_flat_request lands token c
perform (kill lands active) c = set_kill_switch lands active c
perform (unkill lands) c = clear_kill_switch_override lands c
perform (read_sentinel readable) c = returned (sentinel_present readable c).0
perform (rewrite_sentinel lands now) c = write_sentinel lands now c
perform (hold sentinel_lands lands now active) c =
    set_reconcile_hold sentinel_lands lands now active c
