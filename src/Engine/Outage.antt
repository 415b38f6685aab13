-- ===== src/Engine/Outage.antt =====
-- runner.py: `_settle_fetch_outage`. Instants are whole seconds; a clock that goes back counts as one
-- that stands still, which the test of the threshold cannot tell apart.
pub mod Alerts
use xupertrade.Prelude.{
  Bool, List, Option, String, [], contains, false, if◌then◌else◌, leb, ltb, none, not, some, true,
  ℕ, ◌&&◌, ◌++◌, ◌-◌, ◌∷◌,
}

pub record Outage : Type 0 where
  -- the strategies that failed in this tick
  pub tick_failures : List String
  pub start : Option ℕ
  pub affected : List String
  pub alerted : Bool
  -- the alerts handed to the bus: how long the window had lasted, and who was affected
  pub published : List (ℕ × List String)

abbrev pub new_outage : Outage
new_outage = record {
  tick_failures = [];
  start = none;
  affected = [];
  alerted = false;
  published = [];
}

-- self._outage_affected.update(failures)
abbrev update : List String → List String → List String
update [] names = names
update (f ∷ l) names = if contains f names then update l names else update l (f ∷ names)

abbrev close_window : Outage → Outage
close_window o = record o { start = none; affected = []; alerted = false }

-- The window after this tick's failures, opened if there was none.
abbrev start_of : ℕ → Option ℕ → ℕ
start_of now none = now
start_of now (some at) = at

abbrev pub join_at : Option ℕ → ℕ → List String → Outage → Outage
join_at none now failures o = record o {
  start = some now;
  affected = update failures [];
  alerted = false;
}
join_at (some at) now failures o = record o { affected = update failures o.affected }

abbrev pub join : ℕ → List String → Outage → Outage
join now failures o = join_at o.start now failures o

-- `threshold > 0 and not alerted and now - start >= threshold`
abbrev pub is_due : ℕ → ℕ → ℕ → Bool → Bool
is_due threshold now at alerted = ltb 0 threshold && (not alerted && leb threshold (now - at))

abbrev pub alert : ℕ → ℕ → Bool → Outage → Outage
alert threshold now has_bus o =
    if is_due threshold now (start_of now o.start) o.alerted
    then record o {
      alerted = true;
      published =
          if has_bus
          then o.published ++ (now - start_of now o.start, o.affected) ∷ []
          else o.published;
    }
    else o

abbrev settle_by : ℕ → ℕ → Bool → List String → Outage → Outage
settle_by threshold now has_bus [] o = close_window o
settle_by threshold now has_bus (f ∷ failures) o =
    alert threshold now has_bus (join now (f ∷ failures) o)

-- With the threshold, the clock, and whether there is a bus.
pub settle_fetch_outage : ℕ → ℕ → Bool → Outage → Outage
settle_fetch_outage threshold now has_bus o =
    settle_by threshold now has_bus o.tick_failures (record o { tick_failures = [] })

-- One tick: its failures, the first of which is given, and the settling at an instant.
pub record Tick : Type 0 where
  pub now : ℕ
  pub first : String
  pub others : List String

-- Ticks that all fail.
pub fail_ticks : ℕ → Bool → List Tick → Outage → Outage
unfolding settle_fetch_outage
fail_ticks threshold has_bus [] o = o
fail_ticks threshold has_bus (t ∷ ts) o =
    fail_ticks threshold has_bus ts (
      settle_fetch_outage threshold t.now has_bus (record o { tick_failures = t.first ∷ t.others }))
