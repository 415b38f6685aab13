-- ===== src/Tests/Notes.antt =====
-- runner.py: refusals of one market, noted once.
use xupertrade.Engine.Refusals.{RefusedSignal, forget_refusal, note_refusal}
use xupertrade.Engine.Refusals.Latest.{
  NoteEvent, after_history, filled_signal, is_new, latest, note_refusal-latest, refused,
}
use xupertrade.Float.Whole.{whole_floats}
use xupertrade.Prelude.{List, [], if◌then◌else◌, refl, some, true, ◌&&◌, ◌++◌, ◌∷◌, ◌≡◌}

abbrev too_large : RefusedSignal
too_large = record {
  strategy_name = "a";
  symbol = "BTC";
  category = "exposure";
  bar_time = some 60;
  message = "over the cap";
  publish = true;
  now = 100;
}

abbrev next_bar : RefusedSignal
next_bar = record too_large { bar_time = some 120; now = 170 }

abbrev history : List NoteEvent
history = refused too_large ∷ filled_signal ("b", "BTC") ∷ refused too_large ∷ []

told_once : (after_history history).published ≡ ("a", "over the cap") ∷ []
unfolding after_history note_refusal forget_refusal
told_once = refl

note_refusal-latest_example :
    ((note_refusal next_bar (after_history history)).1
      ≡ is_new next_bar (latest ("a", "BTC") history))
    × ((note_refusal next_bar (after_history history)).0.published ≡ (
        if is_new next_bar (latest ("a", "BTC") history) && true
        then (after_history history).published ++ ("a", "over the cap") ∷ []
        else (after_history history).published))
note_refusal-latest_example = note_refusal-latest history next_bar 120 refl
