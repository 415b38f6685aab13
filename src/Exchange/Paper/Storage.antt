-- ===== src/Exchange/Paper/Storage.antt =====
-- paper.py: `_persist` and `load_state`, between the exchange and its Redis key.
use xupertrade.Dict.{Dict}
use xupertrade.Exchange.{Position, PositionSide}
use xupertrade.Exchange.Paper.{Json, PaperExchange, Saved, SavedPosition}
use xupertrade.Float.{Floats, Number, nil}
use xupertrade.Prelude.{
  Bool, Option, String, [], arith, false, if◌then◌else◌, none, refl, some, true, ◌++◌, ◌==◌, ◌∙◌,
  ◌∷◌, ◌≡◌, ◌⊎◌,
}

module _ ⦃N : Floats⦄ where
  abbrev pub save_position : Position → SavedPosition
  save_position p = record {
    symbol = some p.symbol;
    side = some p.side;
    size = some p.size;
    entry_price = some p.entry_price;
  }

  abbrev pub save_all : Dict Position → Dict SavedPosition
  save_all [] = []
  save_all ((k, p) ∷ d) = (k, save_position p) ∷ save_all d

  abbrev pub saved_of : PaperExchange → Saved
  saved_of s = record { balance = some (some s.balance); positions = some (save_all s.positions) }

  -- A failed write is logged and swallowed.
  unfoldable pub persist : Json → Bool → PaperExchange → PaperExchange
  persist json written s =
      if s.connected
      then if written
        then record s {
          stored = some (
              json.dumps (record {
                balance = some (some s.balance);
                positions = some (save_all s.positions);
              }));
        }
        else s
      else s

  module _ (json : Json) (written : Bool) (s : PaperExchange) where
    pub positions-persist : (persist json written s).positions ≡ s.positions
    unfolding persist
    positions-persist = ground arith

    pub balance-persist : (persist json written s).balance ≡ s.balance
    unfolding persist
    balance-persist = ground arith

    pub prices-persist : (persist json written s).prices ≡ s.prices
    unfolding persist
    prices-persist = ground arith

  restore_fields :
      Option String → Option PositionSide → Option Number → Option Number → Option Position
  restore_fields (some symbol) (some side) (some size) (some entry) = some (record {
    symbol = symbol;
    side = side;
    size = size;
    entry_price = entry;
    unrealized_pnl = nil;
    liquidation_price = none;
  })
  restore_fields _ _ _ _ = none

  -- The dict comprehension: the first entry that raises ends it.
  restore_all : Dict SavedPosition → Option (Dict Position)
  unfolding restore_fields
  restore_all [] = some []
  restore_all ((k, p) ∷ d) = elim (restore_fields p.symbol p.side p.size p.entry_price) [
    | none ↦ none
    | some q ↦ elim (restore_all d) [ none ↦ none | some r ↦ some ((k, q) ∷ r) ]
  ]

  -- `data.get("balance", self._initial_balance)` under `float`
  restore_balance : Option (Option Number) → Number → Option Number
  restore_balance none initial = some initial
  restore_balance (some b) initial = b

  restore_positions : Option (Dict SavedPosition) → PaperExchange → PaperExchange
  unfolding restore_all
  restore_positions none s = record s { positions = [] }
  restore_positions (some saved) s = elim (restore_all saved) [
    | none ↦ s
    | some d ↦ record s { positions = d }
  ]

  -- The balance is assigned before the positions are read.
  restore : Option Saved → PaperExchange → PaperExchange
  unfolding restore_balance restore_positions
  restore none s = s
  restore (some data') s = elim (restore_balance data'.balance s.initial_balance) [
    | none ↦ s
    | some b ↦ restore_positions data'.positions (record s { balance = b })
  ]

  -- How the read of the key went, at startup.
  pub load_state : Json → Bool → PaperExchange → PaperExchange
  unfolding restore
  load_state json reachable s =
      if reachable
      then elim s.stored [
        | none ↦ record s { connected = true }
        | some raw ↦
            if raw == ""
            then record s { connected = true }
            else restore (json.loads raw) (record s { connected = true })
      ]
      else record s { connected = false }

  -- A position as it comes back after a restart: its PnL and liquidation price are not stored.
  abbrev pub restart_position : Position → Position
  restart_position p = record p { unrealized_pnl = nil; liquidation_price = none }

  abbrev pub restart_positions : Dict Position → Dict Position
  restart_positions [] = []
  restart_positions ((k, p) ∷ d) = (k, restart_position p) ∷ restart_positions d

  restore_all-save_all : (d : Dict Position) → restore_all (save_all d) ≡ some (restart_positions d)
  unfolding restore_all
  restore_all-save_all [] = refl
  restore_all-save_all ((k, p) ∷ d) = rw (restore_all-save_all d)

  -- If the JSON text of an exchange's state reads back, then after a persist that was written, an
  -- exchange that starts from the same key, whatever its own balance and positions, has the saved
  -- balance and the saved positions with their PnL reset.
  pub load_state-persist :
      (json : Json) (s fresh : PaperExchange)
      → json.loads (json.dumps (saved_of s)) ≡ some (saved_of s)
      → json.dumps (saved_of s) == "" ≡ false
      → s.connected ≡ true
      → fresh.stored ≡ (persist json true s).stored
      → ((load_state json true fresh).balance ≡ s.balance)
        × ((load_state json true fresh).positions ≡ restart_positions s.positions)
        × ((load_state json true fresh).connected ≡ true)
  unfolding load_state persist
  load_state-persist json s fresh reads_back not_blank wired same =
      let e : fresh.stored ≡ some (json.dumps (saved_of s)) = same ∙ rw wired refl in
      rw (e, not_blank, reads_back) (ground (arith, restore_all-save_all s.positions))

  -- A saved position without one of its fields.
  abbrev pub IsIncomplete : SavedPosition → Type 0
  IsIncomplete p = (p.symbol ≡ none) ⊎ (p.side ≡ none) ⊎ (p.size ≡ none) ⊎ (p.entry_price ≡ none)

  restore_all_incomplete :
      (before after : Dict SavedPosition) (k : String) (p : SavedPosition)
      → IsIncomplete p
      → restore_all (before ++ (k, p) ∷ after) ≡ none
  unfolding restore_all
  restore_all_incomplete [] after k p h = ground arith
  restore_all_incomplete ((j, q) ∷ before) after k p h =
      ground (arith, restore_all_incomplete before after k p h)

  -- When the key's text parses with a readable balance and one saved position lacks a field, the
  -- load takes the saved balance and keeps the positions that the exchange had.
  pub load_state_malformed :
      (json : Json) (s : PaperExchange) (raw : String) (saved : Saved) (b : Number)
      (before after : Dict SavedPosition) (k : String) (p : SavedPosition)
      → s.stored ≡ some raw
      → raw == "" ≡ false
      → json.loads raw ≡ some saved
      → saved.balance ≡ some (some b)
      → saved.positions ≡ some (before ++ (k, p) ∷ after)
      → IsIncomplete p
      → load_state json true s ≡ record s { connected = true; balance = b }
  unfolding load_state
  load_state_malformed json s raw saved b before after k p e blank parsed eb ed bad =
      ground (arith, restore_all_incomplete before after k p bad)
