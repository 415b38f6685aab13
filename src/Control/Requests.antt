-- ===== src/Control/Requests.antt =====
-- engine/control.py: the flat request and its acknowledgement over sequences of commands.
-- val == token, where None is no token
use xupertrade.Control.{
  BotControl, Command, acknowledge_flat, acknowledge_flat_request, clear_hold,
  clear_kill_switch_override, disable, disable_strategy, enable, enable_strategy,
  get_pending_flat_request, hold, kill, pause, pending_of, perform, read_sentinel, request_flat,
  request_flat_all, rewrite_sentinel, sentinel_present, set_hold, set_kill_switch, set_paused,
  set_reconcile_hold, state_of, unkill, write_sentinel,
}
use xupertrade.Control.Hold.{perform_all}
use xupertrade.Prelude.{
  All, Bool, List, Option, String, [], arith, eq_iff, false, none, not, refl, some, true, ◌==◌,
  ◌||◌, ◌∷◌, ◌≡◌,
}

abbrev pub is_token : String → Option String → Bool
is_token token none = false
is_token token (some v) = v == token

-- Whether a command, with what Redis does, leaves a request for this token waiting: no other
-- request lands, and this token is not acknowledged.
abbrev pub leaves : String → Command → Bool
leaves token (pause lands b) = true
leaves token (enable lands name) = true
leaves token (disable lands name) = true
leaves token (request_flat lands other) = not lands || other == token
leaves token (acknowledge_flat lands other) = not lands || not (other == token)
leaves token (kill lands active) = true
leaves token (unkill lands) = true
leaves token (read_sentinel readable) = true
leaves token (rewrite_sentinel lands now) = true
leaves token (hold sentinel_lands lands now active) = true

-- Whether a command leaves an acknowledged request settled: no other request lands, and no other
-- token is acknowledged after it.
abbrev pub settles : String → Command → Bool
settles token (pause lands b) = true
settles token (enable lands name) = true
settles token (disable lands name) = true
settles token (request_flat lands other) = not lands || other == token
settles token (acknowledge_flat lands other) = not lands || other == token
settles token (kill lands active) = true
settles token (unkill lands) = true
settles token (read_sentinel readable) = true
settles token (rewrite_sentinel lands now) = true
settles token (hold sentinel_lands lands now active) = true

-- The token's request is the last one, and another token or none is the last acknowledged.
abbrev IsWaiting : String → BotControl → Type 0
IsWaiting token c =
    (c.connected ≡ true)
    × (is_token token c.flat_req_key ≡ true)
    × (is_token token c.flat_done_key ≡ false)

abbrev IsSettled : String → BotControl → Type 0
IsSettled token c =
    (c.connected ≡ true)
    × (is_token token c.flat_req_key ≡ true)
    × (is_token token c.flat_done_key ≡ true)

perform-IsWaiting :
    (token : String) (command : Command) (c : BotControl)
    → leaves token command ≡ true
    → IsWaiting token c
    → IsWaiting token (state_of (perform command c))
unfolding perform set_paused enable_strategy disable_strategy request_flat_all
    acknowledge_flat_request set_kill_switch clear_kill_switch_override sentinel_present
    write_sentinel set_reconcile_hold set_hold clear_hold
perform-IsWaiting token (pause lands b) c k h = ground arith
perform-IsWaiting token (enable lands name) c k h = ground arith
perform-IsWaiting token (disable lands name) c k h = ground arith
perform-IsWaiting token (request_flat lands other) c k h = ground arith
perform-IsWaiting token (acknowledge_flat lands other) c k h = ground arith
perform-IsWaiting token (kill lands active) c k h = ground arith
perform-IsWaiting token (unkill lands) c k h = ground arith
perform-IsWaiting token (read_sentinel readable) c k h = ground arith
perform-IsWaiting token (rewrite_sentinel lands now) c k h = ground arith
perform-IsWaiting token (hold sentinel_lands lands now active) c k h = ground arith

perform-IsSettled :
    (token : String) (command : Command) (c : BotControl)
    → settles token command ≡ true
    → IsSettled token c
    → IsSettled token (state_of (perform command c))
unfolding perform set_paused enable_strategy disable_strategy request_flat_all
    acknowledge_flat_request set_kill_switch clear_kill_switch_override sentinel_present
    write_sentinel set_reconcile_hold set_hold clear_hold
perform-IsSettled token (pause lands b) c k h = ground arith
perform-IsSettled token (enable lands name) c k h = ground arith
perform-IsSettled token (disable lands name) c k h = ground arith
perform-IsSettled token (request_flat lands other) c k h = ground arith
perform-IsSettled token (acknowledge_flat lands other) c k h = ground arith
perform-IsSettled token (kill lands active) c k h = ground arith
perform-IsSettled token (unkill lands) c k h = ground arith
perform-IsSettled token (read_sentinel readable) c k h = ground arith
perform-IsSettled token (rewrite_sentinel lands now) c k h = ground arith
perform-IsSettled token (hold sentinel_lands lands now active) c k h = ground arith

perform_all-keeps :
    (P : BotControl → Type 0) (test : Command → Bool)
    → ((command : Command) (c : BotControl)
        → test command ≡ true
        → P c
        → P (state_of (perform command c)))
    → (l : List Command) (c : BotControl) → All (λ command. test command ≡ true) l
    → P c
    → P (perform_all l c)
perform_all-keeps P test step [] c k h = h
perform_all-keeps P test step (command ∷ l) c k h =
    perform_all-keeps P test step l (state_of (perform command c)) k.1 (step command c k.0 h)

pending-waiting :
    (token : String) (req acked_token : Option String)
    → token == "" ≡ false
    → is_token token req ≡ true
    → is_token token acked_token ≡ false
    → pending_of req acked_token ≡ some token
pending-waiting token none acked_token given asked other = cc
pending-waiting token (some req) none given asked other =
    rw ((eq_iff req token).0 asked, given) refl
pending-waiting token (some req) (some acked_token) given asked other =
    rw ((eq_iff req token).0 asked)
      (ground (arith, eq_iff token acked_token, eq_iff acked_token token))

pending-settled :
    (token : String) (req acked_token : Option String)
    → is_token token req ≡ true
    → is_token token acked_token ≡ true
    → pending_of req acked_token ≡ none
pending-settled token none acked_token asked acked = cc
pending-settled token (some req) none asked acked = cc
pending-settled token (some req) (some acked_token) asked acked =
    ground (arith, eq_iff req token, eq_iff acked_token token, eq_iff req acked_token)

waiting_request :
    (token : String) (c : BotControl)
    → token == "" ≡ false
    → IsWaiting token c
    → get_pending_flat_request c ≡ some token
unfolding get_pending_flat_request
waiting_request token c given h =
    rw h.0 (pending-waiting token c.flat_req_key c.flat_done_key given h.1 h.2)

settled_request :
    (token : String) (c : BotControl) → IsSettled token c → get_pending_flat_request c ≡ none
unfolding get_pending_flat_request
settled_request token c h = rw h.0 (pending-settled token c.flat_req_key c.flat_done_key h.1 h.2)

-- With Redis, after a request that lands with a token that is not empty and not the last one
-- acknowledged, this token is pending through any commands, as long as no other request lands and
-- this token is not acknowledged: late acknowledgements of other tokens change nothing, nor do
-- any that do not land. Once it is acknowledged nothing is pending through any commands, as long as
-- no other request lands and no other token is acknowledged.
pub request_flat_all-pending :
    (token : String) (before after : List Command) (c : BotControl)
    → c.connected ≡ true
    → token == "" ≡ false
    → is_token token c.flat_done_key ≡ false
    → All (λ command. leaves token command ≡ true) before
    → All (λ command. settles token command ≡ true) after
    → let waiting = perform_all before (state_of (request_flat_all true token c)) in
      (get_pending_flat_request waiting ≡ some token)
      × (get_pending_flat_request
            (perform_all after (state_of (acknowledge_flat_request true token waiting)))
          ≡ none)
unfolding request_flat_all acknowledge_flat_request
request_flat_all-pending token before after c wired given fresh calm settled =
    let asked = state_of (request_flat_all true token c) in
    let waiting = perform_all before asked in
    let same = (eq_iff token token).1 refl in
    let waits : IsWaiting token waiting =
      perform_all-keeps (IsWaiting token) (leaves token) (perform-IsWaiting token) before asked calm
        (ground (arith, same)) in
    let acked_token = state_of (acknowledge_flat_request true token waiting) in
    let acked : IsSettled token acked_token = ground (arith, same) in
    (
      waiting_request token waiting given waits,
      settled_request token (perform_all after acked_token) (
          perform_all-keeps (IsSettled token) (settles token) (perform-IsSettled token) after
            acked_token settled acked),
    )
