-- ===== src/Float.antt =====
-- Python's `float`, as an interface.
pub mod Exact
pub mod Whole
use xupertrade.Prelude.{Bool, false, if◌then◌else◌, not, true, ℕ, ◌≡◌}
use xupertrade.Prelude.Int.{ltb_ℤ, pos, ℤ, ◌+ℤ◌, ◌-ℤ◌}

-- The type of floats with the operations that the program uses. `decimal m e` is the literal
-- m / 10 ^ e, `fixed10 x` is the float that the text f"{x:.10f}" reads back as,
-- `finite` is `math.isfinite`. `div` is total: where Python raises ZeroDivisionError, it answers
-- some number.
pub record Floats : Type 1 where
  pub Carrier : Type 0
  pub add : Carrier → Carrier → Carrier
  pub sub : Carrier → Carrier → Carrier
  pub mul : Carrier → Carrier → Carrier
  pub div : Carrier → Carrier → Carrier
  pub neg : Carrier → Carrier
  pub lt : Carrier → Carrier → Bool
  pub le : Carrier → Carrier → Bool
  pub eq : Carrier → Carrier → Bool
  pub decimal : ℕ → ℕ → Carrier
  pub fixed10 : Carrier → Carrier
  pub finite : Carrier → Bool

module _ ⦃N : Floats⦄ where
  abbrev pub Number : Type 0
  Number = N.Carrier

  infixl 65 ◌⊕◌ ◌⊖◌
  infixl 70 ◌⊗◌ ◌⊘◌
  infix 50 ◌≺◌ ◌≼◌
  abbrev pub ◌⊕◌ : Number → Number → Number
  a ⊕ b = N.add a b

  abbrev pub ◌⊖◌ : Number → Number → Number
  a ⊖ b = N.sub a b

  abbrev pub ◌⊗◌ : Number → Number → Number
  a ⊗ b = N.mul a b

  abbrev pub ◌⊘◌ : Number → Number → Number
  a ⊘ b = N.div a b

  abbrev pub ◌≺◌ : Number → Number → Bool
  a ≺ b = N.lt a b

  abbrev pub ◌≼◌ : Number → Number → Bool
  a ≼ b = N.le a b

  abbrev pub nil : Number
  nil = N.decimal 0 0

  -- max(a, b) returns its first argument unless the second is greater.
  abbrev pub max_f : Number → Number → Number
  max_f a b = if a ≺ b then b else a

  -- min(a, b) returns its first argument unless the second is less.
  abbrev pub min_f : Number → Number → Number
  min_f a b = if b ≺ a then b else a

module _ ⦃N : Floats⦄ where
  -- What the program relies on. Each law holds of all IEEE 754 doubles: an order comparison with
  -- NaN is false, subtraction of unequal finite numbers is never 0 (gradual underflow), and
  -- rounding is monotone.
  pub record FloatLaws : Type 0 where
    pub lt_irrefl : (a : Number) → a ≺ a ≡ false
    pub lt_asymm : (a b : Number) → a ≺ b ≡ true → b ≺ a ≡ false
    pub sub_pos : (a b : Number) → nil ≺ a ⊖ b ≡ b ≺ a
    pub sub_neg : (a b : Number) → a ⊖ b ≺ nil ≡ a ≺ b
    pub add_pos : (a b : Number) → nil ≺ a ≡ true → nil ≺ b ≡ true → nil ≺ a ⊕ b ≡ true
    pub sub_le : (a b : Number) → nil ≺ b ≡ true → a ≺ a ⊖ b ≡ false

  -- No rounding: every number is an integer count of some unit, sums are exact, and a product is
  -- exact in each factor. Statements about sums of money are made under this hypothesis.
  pub record ExactLaws : Type 0 where
    pub value : Number → ℤ
    pub value-add : (a b : Number) → value (a ⊕ b) ≡ value a +ℤ value b
    pub value-sub : (a b : Number) → value (a ⊖ b) ≡ value a -ℤ value b
    pub value_injective : (a b : Number) → value a ≡ value b → a ≡ b
    pub value-nil : value nil ≡ pos 0
    pub mul-sub : (p a b : Number) → value (p ⊗ (a ⊖ b)) ≡ value (p ⊗ a) -ℤ value (p ⊗ b)
    pub mul-add : (p a b : Number) → value (p ⊗ (a ⊕ b)) ≡ value (p ⊗ a) +ℤ value (p ⊗ b)
    pub mul_comm : (a b : Number) → value (a ⊗ b) ≡ value (b ⊗ a)
    pub value-lt : (a b : Number) → a ≺ b ≡ ltb_ℤ (value a) (value b)
    pub value-le : (a b : Number) → a ≼ b ≡ not (ltb_ℤ (value b) (value a))
    pub value_of_eq : (a b : Number) → N.eq a b ≡ true → value a ≡ value b
    pub value-fixed10 : (a : Number) → value (N.fixed10 a) ≡ value a
    pub all_finite : (a : Number) → N.finite a ≡ true
