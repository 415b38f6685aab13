-- ===== src/Engine/Refusals.antt =====
-- runner.py: `_note_refusal`, which reports a repeated refusal once. The clock is monotonic and in
-- whole seconds. Log lines are left out.
pub mod Latest
use xupertrade.Prelude.{
  Bool, List, Option, String, [], eqb, false, if◌then◌else◌, is_some, ltb, none, some, true, ℕ,
  ◌&&◌, ◌++◌, ◌-◌, ◌==◌, ◌||◌, ◌∷◌,
}

pub record Note : Type 0 where
  pub category : String
  pub bar : Option ℕ
  pub at : ℕ

-- One call: the signal's strategy and symbol, what is refused, and when.
pub record RefusedSignal : Type 0 where
  pub strategy_name : String
  pub symbol : String
  pub category : String
  pub bar_time : Option ℕ
  pub message : String
  pub publish : Bool
  pub now : ℕ

-- `_refusal_notes`, and what was handed to `_publish_error`, in order.
pub record Noted : Type 0 where
  pub notes : List ((String × String) × Note)
  pub published : List (String × String)

abbrev pub new_noted : Noted
new_noted = record { notes = []; published = [] }

abbrev note_ttl_seconds : ℕ
note_ttl_seconds = 3600

abbrev pub same_key : String × String → String × String → Bool
same_key (a, b) (c, d) = a == c && b == d

-- `_refusal_notes.get(key)`
abbrev pub note_of : String × String → List ((String × String) × Note) → Option Note
note_of whose [] = none
note_of whose ((j, n) ∷ l) = if same_key j whose then some n else note_of whose l

-- `_refusal_notes[key] = ...`
abbrev pub put_note :
    String × String → Note → List ((String × String) × Note) → List ((String × String) × Note)
put_note whose n [] = (whose, n) ∷ []
put_note whose n ((j, old) ∷ l) =
    if same_key j whose then (j, n) ∷ l else (j, old) ∷ put_note whose n l

-- `_refusal_notes.pop(key, None)`
abbrev pub pop_note :
    String × String → List ((String × String) × Note) → List ((String × String) × Note)
pop_note whose [] = []
pop_note whose ((j, old) ∷ l) =
    if same_key j whose then pop_note whose l else (j, old) ∷ pop_note whose l

abbrev pub key_of : RefusedSignal → String × String
key_of r = (r.strategy_name, r.symbol)

abbrev pub same_bar : Option ℕ → Option ℕ → Bool
same_bar none none = true
same_bar (some a) (some b) = eqb a b
same_bar _ _ = false

-- Whether the note that was found makes this refusal a repeat.
abbrev pub repeats : RefusedSignal → Option Note → Bool
repeats r none = false
repeats r (some n) =
    (n.category == r.category)
    && (same_bar n.bar r.bar_time && (is_some r.bar_time || ltb (r.now - n.at) note_ttl_seconds))

abbrev pub note_for : RefusedSignal → Note
note_for r = record { category = r.category; bar = r.bar_time; at = r.now }

unfoldable pub note_refusal : RefusedSignal → Noted → Noted × Bool
note_refusal r s = if repeats r (note_of (key_of r) s.notes) then (s, false) else (
  record {
    notes = put_note (key_of r) (note_for r) s.notes;
    published = if r.publish then s.published ++ (r.strategy_name, r.message) ∷ [] else s.published;
  },
  true,
)

-- A signal that filled forgets the note of its strategy and symbol.
unfoldable pub forget_refusal : String × String → Noted → Noted
forget_refusal whose s = record s { notes = pop_note whose s.notes }
