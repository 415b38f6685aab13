-- ===== src/Exchange/Paper/Funds.antt =====
-- paper.py: `get_balance`.
use xupertrade.Dict.{Dict, lookup}
use xupertrade.Exchange.{Balance, Position, is_long}
use xupertrade.Exchange.Paper.{PaperExchange, update_unrealized_pnl}
use xupertrade.Float.{Floats, Number, nil, ◌⊕◌, ◌⊖◌, ◌⊗◌}
use xupertrade.Prelude.{Option, [], if◌then◌else◌, none, some, ◌∷◌}

module _ ⦃N : Floats⦄ where
  abbrev or_entry : Option Number → Number → Number
  or_entry none entry = entry
  or_entry (some price) entry = price

  -- self._prices.get(pos.symbol, pos.entry_price)
  abbrev pub mark : Dict Number → Position → Number
  mark prices p = or_entry (lookup p.symbol prices) p.entry_price

  -- One round of the loop over the positions: the position equity so far.
  pub add_equity : Dict Number → Position → Number → Number
  add_equity prices p equity =
      if is_long p.side
      then equity ⊕ (p.size ⊗ mark prices p)
      else equity ⊖ (p.size ⊗ mark prices p)

  unfoldable pub position_equity : Dict Number → Dict Position → Number → Number
  unfolding add_equity
  position_equity prices [] equity = equity
  position_equity prices ((_, p) ∷ d) equity = position_equity prices d (add_equity prices p equity)

  total_unrealized : Dict Position → Number → Number
  total_unrealized [] acc = acc
  total_unrealized ((_, p) ∷ d) acc = total_unrealized d (acc ⊕ p.unrealized_pnl)

  unfoldable pub get_balance : PaperExchange → PaperExchange × Balance
  unfolding update_unrealized_pnl total_unrealized
  get_balance s =
      let s' = update_unrealized_pnl s in
      (
        s',
        record {
          total = s'.balance ⊕ position_equity s'.prices s'.positions nil;
          available = s'.balance;
          unrealized_pnl = total_unrealized s'.positions nil;
        },
      )
