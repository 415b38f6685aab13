-- ===== src/Engine/Refusals/Latest.antt =====
-- runner.py: the notes of refusals against the history of refusals and fills.
use xupertrade.Engine.Refusals.{
  Note, Noted, RefusedSignal, forget_refusal, key_of, new_noted, note_for, note_of, note_refusal,
  note_ttl_seconds, pop_note, put_note, repeats, same_bar, same_key,
}
use xupertrade.Prelude.{
  Bool, Bool-cases, List, Option, String, [], ap, arith, eq_iff, false, if◌then◌else◌, inl, inr,
  is_some, ltb, none, not, refl, some, subst, sym, true, ℕ, ◌&&◌, ◌++◌, ◌-◌, ◌==◌, ◌||◌, ◌∙◌, ◌∷◌,
  ◌≡◌,
}

-- What can happen to the notes.
pub data NoteEvent : Type 0 where
  refused : RefusedSignal → NoteEvent
  filled_signal : String × String → NoteEvent

abbrev happen : NoteEvent → Noted → Noted
happen (refused r) s = (note_refusal r s).0
happen (filled_signal whose) s = forget_refusal whose s

-- A history is told from its latest event back.
unfoldable pub after_history : List NoteEvent → Noted
after_history [] = new_noted
after_history (e ∷ es) = happen e (after_history es)

-- The category and the bar of the latest refusal of a strategy and symbol since their last fill.
abbrev pub latest : String × String → List NoteEvent → Option (String × Option ℕ)
latest whose [] = none
latest whose (refused r ∷ es) =
    if same_key (r.strategy_name, r.symbol) whose
    then some (r.category, r.bar_time)
    else latest whose es
latest whose (filled_signal k ∷ es) = if same_key k whose then none else latest whose es

-- The refusal differs from the latest one.
abbrev pub is_new : RefusedSignal → Option (String × Option ℕ) → Bool
is_new r none = true
is_new r (some (category, bar)) = not ((category == r.category) && same_bar bar r.bar_time)

abbrev seen : Option Note → Option (String × Option ℕ)
seen none = none
seen (some n) = some (n.category, n.bar)

same_key_iff : (a b : String × String) → same_key a b ≡ true → a ≡ b
same_key_iff (a, b) (c, d) h = ground (arith, eq_iff a c, eq_iff b d)

note_of-put_note :
    (k j : String × String) (n : Note) (l : List ((String × String) × Note))
    → note_of j (put_note k n l) ≡ (if same_key k j then some n else note_of j l)
note_of-put_note k j n [] = refl
note_of-put_note (a, b) (c, d) n (((x, y), old) ∷ l) = ground (
  arith,
  eq_iff a c,
  eq_iff b d,
  eq_iff x a,
  eq_iff y b,
  eq_iff x c,
  eq_iff y d,
  note_of-put_note (a, b) (c, d) n l,
)

note_of-pop_note :
    (k j : String × String) (l : List ((String × String) × Note))
    → note_of j (pop_note k l) ≡ (if same_key k j then none else note_of j l)
note_of-pop_note k j [] = ground arith
note_of-pop_note (a, b) (c, d) (((x, y), old) ∷ l) = ground (
  arith,
  eq_iff a c,
  eq_iff b d,
  eq_iff x a,
  eq_iff y b,
  eq_iff x c,
  eq_iff y d,
  note_of-pop_note (a, b) (c, d) l,
)

same_bar_iff : (a b : Option ℕ) → same_bar a b ≡ true → a ≡ b
same_bar_iff none none h = refl
same_bar_iff none (some b) h = cc
same_bar_iff (some a) none h = cc
same_bar_iff (some a) (some b) h = ap some (ground arith)

-- A repeat has the category and the bar of the note that was found.
repeats-seen :
    (r : RefusedSignal) (n : Option Note)
    → repeats r n ≡ true
    → seen n ≡ some (r.category, r.bar_time)
repeats-seen r none h = cc
repeats-seen r (some n) h =
    let parts =
      and_parts (n.category == r.category) (same_bar n.bar r.bar_time)
        (is_some r.bar_time || ltb (r.now - n.at) note_ttl_seconds) h in
    ap (λ x. some (x, n.bar)) ((eq_iff n.category r.category).0 parts.0)
    ∙ ap (λ y. some (r.category, y)) (same_bar_iff n.bar r.bar_time parts.1)
  where
    and_parts : (a b c : Bool) → a && (b && c) ≡ true → (a ≡ true) × (b ≡ true)
    and_parts a b c h = ground arith

seen_if :
    (b : Bool) (n m : Option Note) → seen (if b then n else m) ≡ (if b then seen n else seen m)
seen_if true n m = refl
seen_if false n m = refl

-- The notes after one refusal.
notes_after :
    (r : RefusedSignal) (s : Noted)
    → (note_refusal r s).0.notes ≡ (
        if repeats r (note_of (key_of r) s.notes)
        then s.notes
        else put_note (key_of r) (note_for r) s.notes)
unfolding note_refusal
notes_after r s = elim (Bool-cases (repeats r (note_of (key_of r) s.notes))) [
  | inl again ↦ simp again refl
  | inr news ↦ simp news refl
]

latest_of_key :
    (whose : String × String) (es : List NoteEvent)
    → seen (note_of whose (after_history es).notes) ≡ latest whose es
unfolding after_history note_refusal forget_refusal
latest_of_key whose [] = refl
latest_of_key whose (filled_signal k ∷ es) =
    ap seen (note_of-pop_note k whose (after_history es).notes)
    ∙ seen_if (same_key k whose) none (note_of whose (after_history es).notes)
    ∙ ap (λ x. if same_key k whose then none else x) (latest_of_key whose es)
latest_of_key whose (refused r ∷ es) =
    let before = (after_history es).notes in
    ap (λ l. seen (note_of whose l)) (notes_after r (after_history es))
    ∙ elim (Bool-cases (repeats r (note_of (key_of r) before))) [
      | inl again ↦ rw again (elim (Bool-cases (same_key (key_of r) whose)) [
        | inl same ↦ rw same (
            subst (λ k. seen (note_of k before) ≡ some (r.category, r.bar_time))
              (same_key_iff (key_of r) whose same)
              (repeats-seen r (note_of (key_of r) before) again))
        | inr other ↦ rw other (latest_of_key whose es)
      ])
      | inr news ↦ rw news (
          ap seen (note_of-put_note (key_of r) whose (note_for r) before)
          ∙ seen_if (same_key (key_of r) whose) (some (note_for r)) (note_of whose before)
          ∙ ap (λ x. if same_key (key_of r) whose then some (r.category, r.bar_time) else x)
              (latest_of_key whose es))
    ]

-- After any history of refusals and fills, a refusal with a bar is news exactly when its strategy
-- and symbol have no refusal since their last fill, or the latest one has another category or
-- another bar; then, and only then, one that is to be published is handed to the bus.
pub note_refusal-latest :
    (es : List NoteEvent) (r : RefusedSignal) (bar : ℕ)
    → r.bar_time ≡ some bar
    → ((note_refusal r (after_history es)).1 ≡ is_new r (latest (r.strategy_name, r.symbol) es))
      × ((note_refusal r (after_history es)).0.published ≡ (
          if is_new r (latest (r.strategy_name, r.symbol) es) && r.publish
          then (after_history es).published ++ (r.strategy_name, r.message) ∷ []
          else (after_history es).published))
unfolding note_refusal
note_refusal-latest es r bar on_bar =
    let s = after_history es in
    let new = judged (note_of (key_of r) s.notes) ∙ ap (is_new r) (latest_of_key (key_of r) es) in
    elim (Bool-cases (repeats r (note_of (key_of r) s.notes))) [
      | inl again ↦
          let old : is_new r (latest (key_of r) es) ≡ false = sym new ∙ ap not again in
          simp (again, old) (refl, refl)
      | inr news ↦
          let fresh : is_new r (latest (key_of r) es) ≡ true = sym new ∙ ap not news in
          simp (news, fresh) (refl, refl)
    ]
  where
    judged : (n : Option Note) → not (repeats r n) ≡ is_new r (seen n)
    judged none = refl
    judged (some n) = simp on_bar (ground arith)
