-- ===== src/Funding/Ingest/Once.antt =====
-- engine/funding.py: the events of a run, the stored payments and the count of new ones.
use xupertrade.Float.{Floats}
use xupertrade.Funding.{
  FundingEvent, Key, Payment, Position, Raw, get_positions_covering, has_key,
  insert_funding_payments, key, payment_key, same_key,
}
use xupertrade.Funding.Ingest.{
  Column, End, Ingest, IngestResult, Scan, Step, coin_of, count_new, count_read, count_row, done,
  failed, first_ts, go_on, incomplete, ingest_funding, ingest_page, keep_page, last_ts, next_step,
  on_answer, on_step, parse_event, payment_of, ran_out, read_event, read_page, scan, scan_event,
  stop, store_rows,
}
use xupertrade.Prelude.{
  Bool-cases, List, Option, [], ap, arith, eq_iff, false, if◌then◌else◌, inl, inr, length,
  length-append, map, none, refl, some, subst, suc, sym, true, zero, ℕ, ◌++◌, ◌+◌, ◌||◌, ◌∙◌, ◌∷◌,
  ◌≡◌,
}

abbrev DistinctKeys : List Key → Type 0
DistinctKeys [] = Unit
DistinctKeys (k ∷ ks) = (has_key k ks ≡ false) × DistinctKeys ks

same_key-sym : (a b : Key) → same_key a b ≡ same_key b a
same_key-sym a b = ground (arith, eq_iff a.0 b.0, eq_iff b.0 a.0)

has_key-append :
    (k : Key) (xs ys : List Key) → has_key k (xs ++ ys) ≡ (has_key k xs || has_key k ys)
has_key-append k [] ys = refl
has_key-append k (x ∷ xs) ys = ground (arith, has_key-append k xs ys)

DistinctKeys-snoc :
    (xs : List Key) (y : Key) → DistinctKeys xs → has_key y xs ≡ false → DistinctKeys (xs ++ y ∷ [])
DistinctKeys-snoc [] y h new = (refl, tt)
DistinctKeys-snoc (x ∷ xs) y h new = (
  has_key-append x xs (y ∷ []) ∙ ground (arith, h.0, same_key-sym x y),
  DistinctKeys-snoc xs y h.1 (ground arith),
)

module _ ⦃N : Floats⦄ where
  hits : List Key → List Payment → ℕ
  hits ks [] = 0
  hits ks (row ∷ rows) =
      let rest = hits ks rows in if has_key (payment_key row) ks then suc rest else rest

  hits-nil : (ks : List Key) → hits ks [] ≡ 0
  unfolding hits
  hits-nil ks = refl

  count_new-hits :
      (ks : List Key) (r : IngestResult) (rows : List Payment)
      → (count_new ks r rows).new ≡ r.new + hits ks rows
  unfolding hits
  count_new-hits ks r [] = omega arith
  count_new-hits ks r (row ∷ rows) =
      ground (arith, count_new-hits ks (count_row r row) rows, count_new-hits ks r rows)

  count_read-new : (r : IngestResult) (es : List FundingEvent) → (count_read r es).new ≡ r.new
  count_read-new r [] = refl
  count_read-new r (e ∷ es) = count_read-new (read_event r e) es

  insert-length :
      (rows table : List Payment)
      → length (insert_funding_payments rows table).0
        ≡ length table + length (insert_funding_payments rows table).1
  unfolding insert_funding_payments
  insert-length [] table = omega arith
  insert-length (row ∷ rows) table =
      elim (Bool-cases (has_key (payment_key row) (map payment_key table))) [
        | inl present ↦ rw present (insert-length rows table)
        | inr fresh ↦
            rw fresh (
              omega (arith, insert-length rows (table ++ row ∷ []), length-append table (row ∷ [])))
      ]

  insert-absent :
      (k : Key) (rows table : List Payment)
      → has_key k (map payment_key rows) ≡ false
      → has_key k (insert_funding_payments rows table).1 ≡ false
  unfolding insert_funding_payments
  insert-absent k [] table h = refl
  insert-absent k (row ∷ rows) table h =
      elim (Bool-cases (has_key (payment_key row) (map payment_key table))) [
        | inl present ↦ rw present (insert-absent k rows table (ground arith))
        | inr fresh ↦ rw fresh (
            ground
              (arith, insert-absent k rows (table ++ row ∷ []), same_key-sym k (payment_key row)))
      ]

  hits-absent :
      (k : Key) (ks : List Key) (rows : List Payment)
      → has_key k (map payment_key rows) ≡ false
      → hits (k ∷ ks) rows ≡ hits ks rows
  unfolding hits
  hits-absent k ks [] h = refl
  hits-absent k ks (row ∷ rows) h =
      ground (arith, hits-absent k ks rows, same_key-sym k (payment_key row))

  hits-head :
      (row : Payment) (ks : List Key) (rows : List Payment)
      → hits (payment_key row ∷ ks) (row ∷ rows) ≡ suc (hits (payment_key row ∷ ks) rows)
  unfolding hits
  hits-head row ks rows = ground (arith, eq_iff row.coin row.coin)

  hits-skip :
      (row : Payment) (ks : List Key) (rows : List Payment)
      → has_key (payment_key row) ks ≡ false
      → hits ks (row ∷ rows) ≡ hits ks rows
  unfolding hits
  hits-skip row ks rows h = rw h refl

  -- Of rows with distinct keys, those that are inserted are those that are counted.
  insert-hits :
      (rows table : List Payment)
      → DistinctKeys (map payment_key rows)
      → hits (insert_funding_payments rows table).1 rows
        ≡ length (insert_funding_payments rows table).1
  unfolding insert_funding_payments
  insert-hits [] table d = hits-nil []
  insert-hits (row ∷ rows) table d =
      elim (Bool-cases (has_key (payment_key row) (map payment_key table))) [
        | inl present ↦ rw present (
            hits-skip row (insert_funding_payments rows table).1 rows
              (insert-absent (payment_key row) rows table d.0)
            ∙ insert-hits rows table d.1)
        | inr fresh ↦
            let keys = (insert_funding_payments rows (table ++ row ∷ [])).1 in
            rw fresh (
              hits-head row keys rows
              ∙ ap suc (
                  hits-absent (payment_key row) keys rows d.0
                  ∙ insert-hits rows (table ++ row ∷ []) d.1))
      ]

  keys_of :
      (ps : List Position) (es : List FundingEvent)
      → map payment_key (map (payment_of ps) es) ≡ map key es
  unfolding payment_of
  keys_of ps [] = refl
  keys_of ps (e ∷ es) = ap (◌∷◌ (key e)) (keys_of ps es)

  -- What was found has distinct keys, all of them seen.
  abbrev Scanned : Scan → Type 0
  Scanned s =
      DistinctKeys (map key s.found)
      × ((k : Key) → has_key k s.keys ≡ false → has_key k (map key s.found) ≡ false)

  keys-snoc :
      (es : List FundingEvent) (e : FundingEvent)
      → map key (es ++ e ∷ []) ≡ map key es ++ key e ∷ []
  keys-snoc [] e = refl
  keys-snoc (x ∷ es) e = ap (◌∷◌ (key x)) (keys-snoc es e)

  Scanned-scan_event : (s : Scan) (o : Option FundingEvent) → Scanned s → Scanned (scan_event s o)
  Scanned-scan_event s none h = h
  Scanned-scan_event s (some e) h = elim (Bool-cases (has_key (key e) s.keys)) [
    | inl again ↦ simp again h
    | inr first ↦ simp first (
      subst DistinctKeys (sym (keys-snoc s.found e))
          (DistinctKeys-snoc (map key s.found) (key e) h.0 (h.1 (key e) first)),
      λ k absent.
          ap (has_key k) (keys-snoc s.found e)
          ∙ has_key-append k (map key s.found) (key e ∷ [])
          ∙ ground (arith, h.1 k, same_key-sym k (key e)),
    )
  ]

  Scanned-scan :
      (c : Column) (page : List (Option Raw)) (s : Scan) → Scanned s → Scanned (scan c page s)
  unfolding scan
  Scanned-scan c [] s h = h
  Scanned-scan c (r ∷ rs) s h =
      Scanned-scan c rs (scan_event s (parse_event c r)) (Scanned-scan_event s (parse_event c r) h)

  -- The payments counted as new, less those stored.
  abbrev Balanced : Ingest → Ingest → Type 0
  Balanced before later =
      later.result.new + length before.table ≡ before.result.new + length later.table

  Balanced-keep_page :
      (positions : List Position) (es : List FundingEvent) (st : Ingest)
      → DistinctKeys (map key es)
      → Balanced st (keep_page true positions es st)
  unfolding keep_page store_rows
  Balanced-keep_page positions [] st d = refl
  Balanced-keep_page positions (e ∷ es) st d =
      let covering =
        get_positions_covering (map coin_of (e ∷ es)) (first_ts e es) (last_ts e es) positions in
      let rows = map (payment_of covering) (e ∷ es) in
      let stored = insert_funding_payments rows st.table in
      let read = count_read st.result (e ∷ es) in
      let distinct : DistinctKeys (map payment_key rows) =
        subst DistinctKeys (sym (keys_of covering (e ∷ es))) d in
      omega (
        arith,
        count_new-hits stored.1 read rows,
        count_read-new st.result (e ∷ es),
        insert-hits rows st.table distinct,
        insert-length rows st.table,
      )

  Balanced-ingest_page :
      (c : Column) (positions : List Position) (page : List (Option Raw)) (st : Ingest)
      → Balanced st (ingest_page c positions true page st).0
  unfolding ingest_page
  Balanced-ingest_page c positions page st =
      let s = scan c page (record { keys = st.seen; found = []; unreadable = 0; newest_ms = 0 }) in
      Balanced-keep_page positions s.found
        (record st {
          seen = s.keys;
          result = record st.result { skipped = st.result.skipped + s.unreadable };
        })
        (Scanned-scan c page (record { keys = st.seen; found = []; unreadable = 0; newest_ms = 0 })
          (tt, λ k absent. refl)).0

  module _ (c : Column) (positions : List Position) (max_pages : Option ℕ)
      (fetch : ℕ → ℕ → Option (List (Option Raw))) where
    abbrev loop : ℕ → ℕ → Ingest → Ingest × End
    loop = ingest_funding c positions true max_pages fetch

    Balanced-on_step :
        (rest : ℕ → Ingest → Ingest × End) (out : Ingest × ℕ) (s : Step)
        → ((cursor : ℕ) (st : Ingest) → Balanced st (rest cursor st).0)
        → Balanced out.0 (on_step c positions true max_pages fetch rest out s).0
    Balanced-on_step rest out (stop done) h = refl
    Balanced-on_step rest out (stop failed) h = refl
    Balanced-on_step rest out (stop incomplete) h = refl
    Balanced-on_step rest out (stop ran_out) h = refl
    Balanced-on_step rest out go_on h = h out.1 out.0

    Balanced-on_answer :
        (rest : ℕ → Ingest → Ingest × End) (cursor : ℕ) (st : Ingest)
        (answer : Option (List (Option Raw)))
        → ((cursor : ℕ) (st : Ingest) → Balanced st (rest cursor st).0)
        → Balanced st (on_answer c positions true max_pages fetch rest cursor st answer).0
    unfolding on_answer read_page
    Balanced-on_answer rest cursor st none h = refl
    Balanced-on_answer rest cursor st (some []) h = refl
    Balanced-on_answer rest cursor st (some (r ∷ rs)) h =
        let bumped = record st { result = record st.result { pages = suc st.result.pages } } in
        let out = ingest_page c positions true (r ∷ rs) bumped in
        let step = next_step max_pages out.0.result.pages (length (r ∷ rs)) cursor out.1 in
        omega (
          arith,
          Balanced-ingest_page c positions (r ∷ rs) bumped,
          Balanced-on_step rest out step h,
        )

    -- Over a whole run that stores, with overlapping pages, failing requests and early stops, and
    -- at any fuel: the payments that the report counts as new are as many as the table has grown by.
    pub ingest_funding-new :
        (fuel cursor : ℕ) (st : Ingest)
        → (ingest_funding c positions true max_pages fetch fuel cursor st).0.result.new
            + length st.table
          ≡ st.result.new
            + length (ingest_funding c positions true max_pages fetch fuel cursor st).0.table
    unfolding ingest_funding
    ingest_funding-new zero cursor st = refl
    ingest_funding-new (suc fuel) cursor st =
        Balanced-on_answer (loop fuel) cursor st (fetch st.result.pages cursor)
          (ingest_funding-new fuel)
