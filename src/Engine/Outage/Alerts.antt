-- ===== src/Engine/Outage/Alerts.antt =====
-- runner.py: the alerts of one outage window.
use xupertrade.Engine.Outage.{Outage, Tick, alert, fail_ticks, join, join_at, settle_fetch_outage}
use xupertrade.Prelude.{
  Bool, Bool-cases, List, Option, String, [], arith, false, if◌then◌else◌, inl, inr, leb, length,
  length-append, ltb, none, not, refl, some, subst, sym, true, ℕ, ◌&&◌, ◌+◌, ◌-◌, ◌||◌, ◌∙◌, ◌∷◌,
  ◌≡◌,
}

-- Whether some tick comes at least the threshold after an instant.
abbrev pub lasts : ℕ → ℕ → List Tick → Bool
lasts threshold at [] = false
lasts threshold at (t ∷ ts) = leb threshold (t.now - at) || lasts threshold at ts

-- What one failing tick makes of an open window.
abbrev Joined : ℕ → ℕ → ℕ → Outage → Outage → Type 0
Joined threshold at now o after =
    (after.start ≡ some at)
    × (after.alerted ≡ (o.alerted || leb threshold (now - at)))
    × (length after.published
        ≡ length o.published + (if not o.alerted && leb threshold (now - at) then 1 else 0))

alert-Joined :
    (threshold at now : ℕ) (o : Outage)
    → ltb 0 threshold ≡ true
    → o.start ≡ some at
    → Joined threshold at now o (alert threshold now true o)
alert-Joined threshold at now o set begun = elim (Bool-cases o.alerted) [
  | inl told_once ↦ simp (set, told_once) (begun, refl, omega arith)
  | inr fresh ↦ elim (Bool-cases (leb threshold (now - at))) [
    | inl due ↦ simp (set, fresh, begun, due) (refl, refl, length-append o.published _)
    | inr early ↦ simp (set, fresh, begun, early) (refl, refl, omega arith)
  ]
]

join-start :
    (at now : ℕ) (failures : List String) (o : Outage)
    → o.start ≡ some at
    → ((join now failures o).start ≡ some at)
      × ((join now failures o).alerted ≡ o.alerted)
      × ((join now failures o).published ≡ o.published)
join-start at now failures o begun =
    subst
      (λ (s : Option ℕ).
        s ≡ some at
        → ((join_at s now failures o).start ≡ some at)
          × ((join_at s now failures o).alerted ≡ o.alerted)
          × ((join_at s now failures o).published ≡ o.published))
      (sym begun) (λ e. (begun, refl, refl)) begun

join-opens :
    (now : ℕ) (failures : List String) (o : Outage)
    → o.start ≡ none
    → ((join now failures o).start ≡ some now)
      × ((join now failures o).alerted ≡ false)
      × ((join now failures o).published ≡ o.published)
join-opens now failures o closed =
    subst
      (λ (s : Option ℕ).
        ((join_at s now failures o).start ≡ some now)
        × ((join_at s now failures o).alerted ≡ false)
        × ((join_at s now failures o).published ≡ o.published))
      (sym closed) (refl, refl, refl)

fail_ticks-later :
    (threshold at : ℕ) (ts : List Tick) (o : Outage)
    → ltb 0 threshold ≡ true
    → o.start ≡ some at
    → length (fail_ticks threshold true ts o).published
      ≡ length o.published + (if not o.alerted && lasts threshold at ts then 1 else 0)
unfolding fail_ticks settle_fetch_outage
fail_ticks-later threshold at [] o set begun = ground arith
fail_ticks-later threshold at (t ∷ ts) o set begun =
    let joined = join t.now (t.first ∷ t.others) (record o { tick_failures = [] }) in
    let kept = join-start at t.now (t.first ∷ t.others) (record o { tick_failures = [] }) begun in
    let after = alert-Joined threshold at t.now joined set kept.0 in
    let rest = fail_ticks-later threshold at ts (alert threshold t.now true joined) set after.0 in
    rest ∙ rw (after.1, after.2, kept.1, kept.2) (ground arith)

-- From a closed window, ticks that all fail publish one alert if some tick comes at least the
-- threshold after the first, and none otherwise, however many they are.
pub fail_ticks-one_alert :
    (threshold : ℕ) (t : Tick) (ts : List Tick) (o : Outage)
    → ltb 0 threshold ≡ true
    → o.start ≡ none
    → length (fail_ticks threshold true (t ∷ ts) o).published
      ≡ length o.published + (if lasts threshold t.now ts then 1 else 0)
unfolding fail_ticks settle_fetch_outage
fail_ticks-one_alert threshold t ts o set closed =
    let joined = join t.now (t.first ∷ t.others) (record o { tick_failures = [] }) in
    let opened = join-opens t.now (t.first ∷ t.others) (record o { tick_failures = [] }) closed in
    let after = alert-Joined threshold t.now t.now joined set opened.0 in
    let rest =
      fail_ticks-later threshold t.now ts (alert threshold t.now true joined) set after.0 in
    rest ∙ rw (after.1, after.2, opened.1, opened.2) (ground arith)
