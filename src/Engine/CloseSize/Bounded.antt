-- ===== src/Engine/CloseSize/Bounded.antt =====
-- runner.py: how much a close of a strategy's row is sent for.
use mathlib.Core.Option.{some-injective}
use xupertrade.Engine.CloseSize.{
  Beliefs, CloseSize, Methods, clamped, close_at, eps, held_on_side, resolve_close_size,
}
use xupertrade.Exchange.{Position, PositionSide, same_side}
use xupertrade.Float.{ExactLaws, Floats, Number, nil, ◌≺◌, ◌⊕◌}
use xupertrade.Prelude.{
  Bool-cases, Option, String, ap, arith, false, if◌then◌else◌, inl, inr, none, refl, some, subst,
  sym, true, ◌&&◌, ◌∙◌, ◌≡◌,
}
use xupertrade.Prelude.Int.{ltb_ℤ, pos, ℤ, ◌+ℤ◌}
use xupertrade.Repository.{Database, Row, get_open_position, one_row}

module _ ⦃N : Floats⦄ (exact : ExactLaws) where
  open exact use {value, value-add, value-lt, value-nil}

  -- The close is sent, for the row, and the beliefs stay. The size is at most the row's, and
  -- where the exchange was read and holds more than the tolerance on that side, it is at most
  -- that holding with the tolerance.
  pub record IsSent {S R : Type 0} (r : Row) (side : PositionSide)
      (answer : Option (Option Position)) (b : Beliefs S R) (out : CloseSize × Beliefs S R)
      : Type 0 where
    pub size : Number
    pub sent : out ≡ (close_at size (some r), b)
    pub within_row : r.size ≺ size ≡ false
    pub within_exchange :
        (p : Option Position)
        → answer ≡ some p
        → eps ≺ held_on_side p side ≡ true
        → held_on_side p side ⊕ eps ≺ size ≡ false

  ltb_ℤ_irrefl : (x : ℤ) → ltb_ℤ x x ≡ false
  ltb_ℤ_irrefl x = ground arith

  raised_not_lt : (x y : ℤ) → ltb_ℤ y (pos 0) ≡ false → ltb_ℤ (x +ℤ y) x ≡ false
  unfolding ◌+ℤ◌
  raised_not_lt x y h = ground arith

  raised_lt : (x y z : ℤ) → ltb_ℤ y (pos 0) ≡ false → ltb_ℤ (x +ℤ y) z ≡ true → ltb_ℤ z x ≡ false
  unfolding ◌+ℤ◌
  raised_lt x y z h k = ground arith

  irrefl : (a : Number) → a ≺ a ≡ false
  irrefl a = value-lt a a ∙ ltb_ℤ_irrefl (value a)

  eps_value : eps ≺ nil ≡ false → ltb_ℤ (value eps) (pos 0) ≡ false
  eps_value h = ap (ltb_ℤ (value eps)) (sym value-nil) ∙ sym (value-lt eps nil) ∙ h

  add_eps : (a : Number) → eps ≺ nil ≡ false → a ⊕ eps ≺ a ≡ false
  add_eps a h =
      value-lt (a ⊕ eps) a
      ∙ ap (λ x. ltb_ℤ x (value a)) (value-add a eps)
      ∙ raised_not_lt (value a) (value eps) (eps_value h)

  lt_add_eps : (a b : Number) → eps ≺ nil ≡ false → a ⊕ eps ≺ b ≡ true → b ≺ a ≡ false
  lt_add_eps a b h less =
      value-lt b a
      ∙ raised_lt (value a) (value eps) (value b) (eps_value h)
          (ap (λ x. ltb_ℤ x (value b)) (sym (value-add a eps)) ∙ sym (value-lt (a ⊕ eps) b) ∙ less)

  -- The size that is chosen, where `size` is what the exchange holds on the side.
  abbrev chosen : Row → Number → Number
  chosen r size = if (eps ≺ size) && (size ⊕ eps ≺ r.size) then size else r.size

  chosen_within_row : (r : Row) (size : Number) → eps ≺ nil ≡ false → r.size ≺ chosen r size ≡ false
  chosen_within_row r size h = elim (Bool-cases (eps ≺ size)) [
    | inl some_held ↦ elim (Bool-cases (size ⊕ eps ≺ r.size)) [
      | inl less ↦ simp (some_held, less) (lt_add_eps size r.size h less)
      | inr not_less ↦ simp (some_held, not_less) (irrefl r.size)
    ]
    | inr none_held ↦ simp none_held (irrefl r.size)
  ]

  chosen_within_exchange :
      (r : Row) (size : Number)
      → eps ≺ nil ≡ false
      → eps ≺ size ≡ true
      → size ⊕ eps ≺ chosen r size ≡ false
  chosen_within_exchange r size h some_held = elim (Bool-cases (size ⊕ eps ≺ r.size)) [
    | inl less ↦ simp (some_held, less) (add_eps size h)
    | inr not_less ↦ simp (some_held, not_less) refl
  ]

  module _ {S R : Type 0} (m : Methods S) where
    -- With exact arithmetic and a tolerance that is not negative: a close of a strategy's one open
    -- row on the side that the signal names is sent, whatever the exchange answers and whether
    -- it answers, for at most the row's size, and for at most what the exchange is read to hold
    -- on that side with the tolerance, if that is more than the tolerance.
    pub resolve_close_size-IsSent :
        (mode strategy_name symbol : String) (side : PositionSide) (db : Database) (r : Row)
        (answer : Option (Option Position)) (b : Beliefs S R)
        → eps ≺ nil ≡ false
        → get_open_position mode strategy_name symbol db ≡ one_row r
        → same_side r.side side ≡ true
        → IsSent r side answer b
            (resolve_close_size m (some (mode, db)) answer strategy_name symbol side b)
    unfolding resolve_close_size
    resolve_close_size-IsSent mode strategy_name symbol side db r none b h found on_side = record {
      size = r.size;
      sent = simp (found, on_side) refl;
      within_row = irrefl r.size;
      within_exchange = λ p e _. cc;
    }
    resolve_close_size-IsSent mode strategy_name symbol side db r (some p) b h found on_side =
        record {
          size = clamped r side (some p);
          sent = simp (found, on_side) refl;
          within_row = chosen_within_row r (held_on_side p side) h;
          within_exchange = λ q e some_held.
              subst (λ q. held_on_side q side ⊕ eps ≺ clamped r side (some p) ≡ false)
                (some-injective p q e)
                (chosen_within_exchange r (held_on_side p side) h (
                  subst (λ q. eps ≺ held_on_side q side ≡ true) (sym (some-injective p q e))
                    some_held));
        }
