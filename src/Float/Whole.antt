-- ===== src/Float/Whole.antt =====
-- A concrete `Floats`: whole numbers. Literals and quotients are rounded towards zero.
use Prim.Native.Nat.{◌^◌}
use xupertrade.Float.{ExactLaws, FloatLaws, Floats}
use xupertrade.Prelude.{arith, false, not, refl, true, ◌&&◌, ◌+◌, ◌/◌, ◌≡◌}
use xupertrade.Prelude.Int.{
  *ℤ-+ℤ, *ℤ-sub, *ℤ_comm, ltb_ℤ, neg_part, pos, pos_part, sub_ℕ, ℤ, ◌*ℤ◌, ◌+ℤ◌, ◌-ℤ◌,
}

abbrev div_ℤ : ℤ → ℤ → ℤ
div_ℤ a b =
    sub_ℕ (pos_part a / pos_part b + neg_part a / neg_part b)
      (pos_part a / neg_part b + neg_part a / pos_part b)

instance abbrev pub whole_floats : Floats
whole_floats = record {
  Carrier = ℤ;
  add = ◌+ℤ◌;
  sub = ◌-ℤ◌;
  mul = ◌*ℤ◌;
  div = div_ℤ;
  neg = λ a. pos 0 -ℤ a;
  lt = ltb_ℤ;
  le = λ a b. not (ltb_ℤ b a);
  eq = λ a b. not (ltb_ℤ a b) && not (ltb_ℤ b a);
  decimal = λ m e. pos (m / 10 ^ e);
  fixed10 = λ a. a;
  finite = λ a. true;
}

sub_pos : (a b : ℤ) → ltb_ℤ (pos 0) (a -ℤ b) ≡ ltb_ℤ b a
unfolding ◌-ℤ◌
sub_pos a b = ground arith

sub_neg : (a b : ℤ) → ltb_ℤ (a -ℤ b) (pos 0) ≡ ltb_ℤ a b
unfolding ◌-ℤ◌
sub_neg a b = ground arith

add_pos :
    (a b : ℤ) → ltb_ℤ (pos 0) a ≡ true → ltb_ℤ (pos 0) b ≡ true → ltb_ℤ (pos 0) (a +ℤ b) ≡ true
unfolding ◌+ℤ◌
add_pos a b h k = ground arith

sub_le : (a b : ℤ) → ltb_ℤ (pos 0) b ≡ true → ltb_ℤ a (a -ℤ b) ≡ false
unfolding ◌-ℤ◌
sub_le a b h = ground arith

pub eq_ℤ : (a b : ℤ) → (not (ltb_ℤ a b) && not (ltb_ℤ b a)) ≡ true → a ≡ b
eq_ℤ a b h = ground arith

pub whole_laws : FloatLaws
whole_laws = record {
  lt_irrefl = λ a. ground arith;
  lt_asymm = λ a b h. ground arith;
  sub_pos = sub_pos;
  sub_neg = sub_neg;
  add_pos = add_pos;
  sub_le = sub_le;
}

abbrev pub whole_exact : ExactLaws
whole_exact = record {
  value = λ a. a;
  value-add = λ a b. refl;
  value-sub = λ a b. refl;
  value_injective = λ a b e. e;
  value-nil = refl;
  mul-sub = *ℤ-sub;
  mul-add = *ℤ-+ℤ;
  mul_comm = *ℤ_comm;
  value-lt = λ a b. refl;
  value-le = λ a b. refl;
  value_of_eq = eq_ℤ;
  value-fixed10 = λ a. refl;
  all_finite = λ a. refl;
}
