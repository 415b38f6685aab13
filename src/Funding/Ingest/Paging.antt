-- ===== src/Funding/Ingest/Paging.antt =====
-- engine/funding.py: the cursor of the page loop.
use xupertrade.Float.{Floats}
use xupertrade.Funding.{FundingEvent, Position, Raw, has_key, key, to_ms}
use xupertrade.Funding.Ingest.{
  Column, End, Ingest, Scan, Step, done, failed, go_on, incomplete, ingest_funding, ingest_page,
  next_step, on_answer, on_step, page_limit, parse_event, ran_out, read_page, scan, scan_event,
  stop,
}
use xupertrade.Prelude.{
  All, Bool, Bool-cases, List, Option, [], arith, false, inl, inr, leb, length, ltb, none, refl,
  some, suc, true, zero, ℕ, ◌+◌, ◌<◌, ◌∷◌, ◌≡◌, ◌≤◌,
}

module _ ⦃N : Floats⦄ (c : Column) (positions : List Position) (apply : Bool) (max_pages : Option ℕ)
    (fetch : ℕ → ℕ → Option (List (Option Raw))) where
  -- The time of an event in milliseconds, 0 for a record that is none.
  abbrev pub time_of : Option FundingEvent → ℕ
  time_of none = 0
  time_of (some e) = to_ms e.ts

  -- No event of a page is later.
  abbrev pub NoLater : ℕ → List (Option Raw) → Type 0
  NoLater bound = All (λ r. time_of (parse_event c r) ≤ bound)

  newest-scan_event :
      (bound : ℕ) (s : Scan) (o : Option FundingEvent)
      → s.newest_ms ≤ bound
      → time_of o ≤ bound
      → (scan_event s o).newest_ms ≤ bound
  newest-scan_event bound s none h k = h
  newest-scan_event bound s (some e) h k = elim (Bool-cases (has_key (key e) s.keys)) [
    | inl again ↦ simp again (ground arith)
    | inr first ↦ simp first (ground arith)
  ]

  newest-scan :
      (bound : ℕ) (page : List (Option Raw)) (s : Scan)
      → s.newest_ms ≤ bound
      → NoLater bound page
      → (scan c page s).newest_ms ≤ bound
  unfolding scan
  newest-scan bound [] s h late = h
  newest-scan bound (r ∷ rs) s h late =
      newest-scan bound rs (scan_event s (parse_event c r))
        (newest-scan_event bound s (parse_event c r) h late.0) late.1

  newest-read_page :
      (bound : ℕ) (page : List (Option Raw)) (st : Ingest)
      → NoLater bound page
      → (read_page c positions apply max_pages fetch page st).1 ≤ bound
  unfolding read_page ingest_page
  newest-read_page bound page st late =
      newest-scan bound page (record { keys = st.seen; found = []; unreadable = 0; newest_ms = 0 })
        (omega arith) late

  -- The run came to an end before the fuel did.
  abbrev pub ended : End → Bool
  ended done = true
  ended failed = true
  ended incomplete = true
  ended ran_out = false

  -- The loop goes on only past its cursor.
  next_step_cases :
      (P : Step → Type 0) (pages size cursor newest : ℕ)
      → ((how : End) → ended how ≡ true → P (stop how))
      → (cursor < newest → P go_on)
      → P (next_step max_pages pages size cursor newest)
  unfolding next_step
  next_step_cases P pages size cursor newest stopped later = elim (Bool-cases (ltb size 500)) [
    | inl short_page ↦ rw short_page (stopped done refl)
    | inr full ↦ elim (Bool-cases (leb newest cursor)) [
      | inl stuck ↦ rw (full, stuck) (stopped incomplete refl)
      | inr further ↦ elim (Bool-cases (page_limit max_pages pages)) [
        | inl enough ↦ rw (full, further, enough) (stopped incomplete refl)
        | inr more ↦ rw (full, further, more) (later (ground arith))
      ]
    ]
  ]

  -- Every page that HL answers is free of events after this time.
  abbrev pub AnswersUpTo : ℕ → Type 0
  AnswersUpTo bound =
      (i cursor : ℕ) (page : List (Option Raw)) → fetch i cursor ≡ some page → NoLater bound page

  abbrev loop : ℕ → ℕ → Ingest → Ingest × End
  loop = ingest_funding c positions apply max_pages fetch

  answer-ends :
      (rest : ℕ → Ingest → Ingest × End) (bound cursor : ℕ) (st : Ingest)
      (answer : Option (List (Option Raw)))
      → ((page : List (Option Raw)) → answer ≡ some page → NoLater bound page)
      → ((newest : ℕ) (later : Ingest)
          → cursor < newest
          → newest ≤ bound
          → ended (rest newest later).1 ≡ true)
      → ended (on_answer c positions apply max_pages fetch rest cursor st answer).1 ≡ true
  unfolding on_answer
  answer-ends rest bound cursor st none late go = refl
  answer-ends rest bound cursor st (some []) late go = refl
  answer-ends rest bound cursor st (some (r ∷ rs)) late go =
      let out = read_page c positions apply max_pages fetch (r ∷ rs) st in
      next_step_cases (λ s. ended (on_step c positions apply max_pages fetch rest out s).1 ≡ true)
        out.0.result.pages (length (r ∷ rs)) cursor out.1 (λ how h. h)
        (λ further.
          go out.1 out.0 further (newest-read_page bound (r ∷ rs) st (late (r ∷ rs) refl)))

  -- If no event that HL answers is later than a bound, the page loop ends by itself, whatever
  -- else the pages hold: fuel for one page more than the milliseconds from the cursor to the
  -- bound is enough, since the cursor moves on with every page.
  pub ingest_funding-ends :
      (bound fuel cursor : ℕ) (st : Ingest)
      → AnswersUpTo bound
      → 1 ≤ fuel
      → bound < cursor + fuel
      → ended (ingest_funding c positions apply max_pages fetch fuel cursor st).1 ≡ true
  unfolding ingest_funding
  ingest_funding-ends bound zero cursor st late some_fuel enough = ground arith
  ingest_funding-ends bound (suc fuel) cursor st late some_fuel enough =
      answer-ends (loop fuel) bound cursor st (fetch st.result.pages cursor)
        (late st.result.pages cursor)
        (λ newest later further known.
          ingest_funding-ends bound fuel newest later late (omega arith) (omega arith))
