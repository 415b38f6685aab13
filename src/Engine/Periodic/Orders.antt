-- ===== src/Engine/Periodic/Orders.antt =====
-- runner.py and repo.py together: the orders of a pass that runs while something holds the orphans.
use xupertrade.Engine.Guard.{
  Reason, first_pass, hold_set, no_connection, pass_after_clear, unreadable,
}
use xupertrade.Engine.Periodic.{hold_text, options_of}
use xupertrade.Float.{Floats}
use xupertrade.Prelude.{
  Bool, List, Option, String, [], arith, false, is_some, none, refl, some, true, ◌||◌, ◌∷◌, ◌≡◌,
}
use xupertrade.Repository.{Database}
use xupertrade.Repository.Closing.{Surroundings}
use xupertrade.Repository.Reconciler.{Exchange, Options, is_told}
use xupertrade.Repository.Reconciler.Run.{reconcile_positions}
use xupertrade.Repository.Reconciler.Run.Lone.{AtMostOne, Sent, reconcile_positions-AtMostOne}

module _ ⦃N : Floats⦄ where
  -- A reason of the guard, or the first pass since the start.
  abbrev is_first : Option Reason → Bool
  is_first (some first_pass) = true
  is_first _ = false

  hold_text-is_told :
      (why awaiting : Option Reason)
      → (is_some why || is_first awaiting) ≡ true
      → is_told (hold_text why awaiting) ≡ true
  hold_text-is_told (some no_connection) awaiting h = refl
  hold_text-is_told (some unreadable) awaiting h = refl
  hold_text-is_told (some hold_set) awaiting h = refl
  hold_text-is_told (some first_pass) awaiting h = refl
  hold_text-is_told (some pass_after_clear) awaiting h = refl
  hold_text-is_told none none h = cc
  hold_text-is_told none (some no_connection) h = cc
  hold_text-is_told none (some unreadable) h = cc
  hold_text-is_told none (some hold_set) h = cc
  hold_text-is_told none (some first_pass) h = refl
  hold_text-is_told none (some pass_after_clear) h = cc

  told-no_order :
      (opts : Options) (sent : List Sent)
      → is_told opts.hold_orphans ≡ true
      → AtMostOne opts sent
      → sent ≡ []
  told-no_order opts [] told_so h = refl
  told-no_order opts (s ∷ l) told_so h = ground (arith, h.1.0.2)

  -- A reconcile pass that the runner makes while its check answers a reason to hold, or as the
  -- first one since the start, sends no order, whatever the database and the exchange answer.
  pub held_pass-no_order :
      (paused : Bool) (why awaiting : Option Reason) (traded : List String) (mode : String)
      (env : Surroundings) (ex : Exchange) (db : Database)
      → (is_some why || is_first awaiting) ≡ true
      → (reconcile_positions mode env ex (options_of paused why awaiting traded) db).sent ≡ []
  held_pass-no_order paused why awaiting traded mode env ex db h =
      let opts : Options = options_of paused why awaiting traded in
      told-no_order opts (reconcile_positions mode env ex opts db).sent
        (hold_text-is_told why awaiting h) (reconcile_positions-AtMostOne mode env ex opts db)
