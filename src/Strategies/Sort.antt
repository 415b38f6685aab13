-- ===== src/Strategies/Sort.antt =====
-- `sorted(names, key=...)`: a stable sort by a number.
use xupertrade.Prelude.{
  All, Bool, Bool-cases, List, String, [], arith, contains, drop, eq_iff, eqb, false, filter,
  if◌then◌else◌, inl, inr, leb, length, refl, subst, suc, true, zero, ℕ, ◌==◌, ◌∙◌, ◌∷◌, ◌≡◌, ◌≤◌,
}

-- How many names pass a test.
abbrev pub count : (String → Bool) → List String → ℕ
count p ns = length (filter p ns)

module _ (key : String → ℕ) where
  abbrev place : String → List String → List String
  place n [] = n ∷ []
  place n (m ∷ ms) = if leb (key n) (key m) then n ∷ m ∷ ms else m ∷ place n ms

  unfoldable pub sorted : List String → List String
  sorted [] = []
  sorted (n ∷ ns) = place n (sorted ns)

  count-place :
      (p : String → Bool) (n : String) (ms : List String) → count p (place n ms) ≡ count p (n ∷ ms)
  count-place p n [] = refl
  count-place p n (m ∷ ms) = ground (arith, count-place p n ms)

  pub count-sorted : (p : String → Bool) (ns : List String) → count p (sorted ns) ≡ count p ns
  unfolding sorted
  count-sorted p [] = refl
  count-sorted p (n ∷ ns) = count-place p n (sorted ns) ∙ ground (arith, count-sorted p ns)

  -- In the order of the key.
  abbrev pub Ascending : List String → Type 0
  Ascending [] = Unit
  Ascending (n ∷ ns) = All (λ m. key n ≤ key m) ns × Ascending ns

  All-trans :
      (a b : ℕ) (ms : List String) → a ≤ b → All (λ m. b ≤ key m) ms → All (λ m. a ≤ key m) ms
  All-trans a b [] h below = tt
  All-trans a b (m ∷ ms) h below = (omega arith, All-trans a b ms h below.1)

  All-place :
      (a : ℕ) (n : String) (ms : List String)
      → a ≤ key n
      → All (λ m. a ≤ key m) ms
      → All (λ m. a ≤ key m) (place n ms)
  All-place a n [] h below = (h, tt)
  All-place a n (m ∷ ms) h below = elim (Bool-cases (leb (key n) (key m))) [
    | inl first ↦ rw first (h, below)
    | inr after ↦ rw after (below.0, All-place a n ms h below.1)
  ]

  Ascending-place : (n : String) (ms : List String) → Ascending ms → Ascending (place n ms)
  Ascending-place n [] asc = (tt, tt)
  Ascending-place n (m ∷ ms) asc = elim (Bool-cases (leb (key n) (key m))) [
    | inl first ↦ rw first (
      (
        leb_le (key n) (key m) first,
        All-trans (key n) (key m) ms (leb_le (key n) (key m) first) asc.0,
      ),
      asc,
    )
    | inr after ↦ rw after (
      All-place (key m) n ms (omega (arith, not_leb (key n) (key m) after)) asc.0,
      Ascending-place n ms asc.1,
    )
  ]
    where
      leb_le : (a b : ℕ) → leb a b ≡ true → a ≤ b
      leb_le a b h = ground arith

      not_leb : (a b : ℕ) → leb a b ≡ false → b ≤ a
      not_leb a b h = ground arith

  pub sorted-Ascending : (ns : List String) → Ascending (sorted ns)
  unfolding sorted
  sorted-Ascending [] = tt
  sorted-Ascending (n ∷ ns) = Ascending-place n (sorted ns) (sorted-Ascending ns)

contains-drop :
    (a : String) (k : ℕ) (ns : List String) → contains a (drop k ns) ≡ true → contains a ns ≡ true
contains-drop a zero ns h = h
contains-drop a (suc k) [] h = h
contains-drop a (suc k) (n ∷ ns) h = ground (arith, contains-drop a k ns h)

module _ (key : String → ℕ) where
  least_key :
      (a : String) (least : ℕ) (ns : List String)
      → All (λ m. least ≤ key m) ns
      → contains a ns ≡ true
      → least ≤ key a
  least_key a least [] all h = ground arith
  least_key a least (n ∷ ns) all h = elim (Bool-cases (n == a)) [
    | inl same ↦ subst (λ m. least ≤ key m) ((eq_iff n a).0 same) all.0
    | inr other ↦ least_key a least ns all.1 (ground arith)
  ]

  count_none : (ns : List String) → count (λ n. eqb (key n) 0) ns ≡ 0 → All (λ m. 1 ≤ key m) ns
  count_none [] none_first = tt
  count_none (n ∷ ns) none_first = elim (Bool-cases (eqb (key n) 0)) [
    | inl first ↦ ground arith
    | inr after ↦ (ground arith, count_none ns (ground arith))
  ]

  -- Where at most k names have the key 0, no name with the key 0 comes after the first k.
  pub late_key :
      (a : String) (k : ℕ) (ns : List String)
      → Ascending key ns
      → count (λ n. eqb (key n) 0) ns ≤ k
      → contains a (drop k ns) ≡ true
      → 1 ≤ key a
  late_key a zero ns asc few h = least_key a 1 ns (count_none ns (omega arith)) h
  late_key a (suc k) [] asc few h = ground arith
  late_key a (suc k) (n ∷ ns) asc few h = elim (Bool-cases (eqb (key n) 0)) [
    | inl first ↦ late_key a k ns asc.1 (ground arith) h
    | inr after ↦ let lower = least_key a (key n) ns asc.0 (contains-drop a k ns h) in ground arith
  ]
