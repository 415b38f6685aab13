-- ===== src/Float/Exact.antt =====
-- Comparisons of floats read as comparisons of their values, when arithmetic is exact.
use xupertrade.Float.{ExactLaws, Floats, Number, max_f, min_f, ◌≺◌, ◌≼◌}
use xupertrade.Prelude.{Bool-cases, arith, false, inl, inr, not, sym, true, ◌∙◌, ◌≡◌}
use xupertrade.Prelude.Int.{ltb_ℤ, ℤ, ◌≤ℤ◌}

ltb_ℤ_false : (x y : ℤ) → ltb_ℤ x y ≡ false → y ≤ℤ x
ltb_ℤ_false x y h = ground arith

ltb_ℤ_true : (x y : ℤ) → ltb_ℤ x y ≡ true → x ≤ℤ y
ltb_ℤ_true x y h = ground arith

not_ltb_ℤ : (x y : ℤ) → not (ltb_ℤ y x) ≡ true → x ≤ℤ y
not_ltb_ℤ x y h = ground arith

le_not-ltb_ℤ : (x y : ℤ) → x ≤ℤ y → not (ltb_ℤ y x) ≡ true
le_not-ltb_ℤ x y h = ground arith

module _ ⦃N : Floats⦄ (exact : ExactLaws) where
  open exact use {value, value-lt, value-le}

  pub lt_value : (a b : Number) → a ≺ b ≡ true → value a ≤ℤ value b
  lt_value a b h = ltb_ℤ_true (value a) (value b) (sym (value-lt a b) ∙ h)

  pub not_lt_value : (a b : Number) → a ≺ b ≡ false → value b ≤ℤ value a
  not_lt_value a b h = ltb_ℤ_false (value a) (value b) (sym (value-lt a b) ∙ h)

  pub le_value : (a b : Number) → a ≼ b ≡ true → value a ≤ℤ value b
  le_value a b h = not_ltb_ℤ (value a) (value b) (sym (value-le a b) ∙ h)

  pub le_of_value : (a b : Number) → value a ≤ℤ value b → a ≼ b ≡ true
  le_of_value a b h = rw value-le (le_not-ltb_ℤ (value a) (value b) h)

  pub not_le_value : (a b : Number) → a ≼ b ≡ false → value b ≤ℤ value a
  not_le_value a b h = above (value a) (value b) (sym (value-le a b) ∙ h)
    where
      above : (x y : ℤ) → not (ltb_ℤ y x) ≡ false → y ≤ℤ x
      above x y h = ground arith

  pub min_f-le_right : (a b : Number) → value (min_f a b) ≤ℤ value b
  min_f-le_right a b = elim (Bool-cases (b ≺ a)) [
    | inl less ↦ rw less (omega arith)
    | inr not_less ↦ rw not_less (not_lt_value b a not_less)
  ]

  pub max_f-ge_right : (a b : Number) → value b ≤ℤ value (max_f a b)
  max_f-ge_right a b = elim (Bool-cases (a ≺ b)) [
    | inl less ↦ rw less (omega arith)
    | inr not_less ↦ rw not_less (not_lt_value a b not_less)
  ]
