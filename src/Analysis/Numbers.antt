-- ===== src/Analysis/Numbers.antt =====
-- A JavaScript number: the operations of IEEE 754 and of `Math` that the analysis calls, with the
-- laws that some theorems need. NaN is the value that is not equal to itself.
use kab23_motorsport_telemet.Prelude.{ℕ, suc, ◌≤◌, ◌≡◌, Bool, true, false}

pub record Numbers (F : Type 0) : Type 0 where
  -- `literal m k` is the number that the text of m / 10 ^ k denotes.
  pub literal : ℕ → ℕ → F
  pub pi : F
  pub negate : F → F
  pub plus : F → F → F
  pub minus : F → F → F
  pub times : F → F → F
  pub over : F → F → F
  pub less : F → F → Bool
  pub at_most : F → F → Bool
  pub same : F → F → Bool
  pub is_finite : F → Bool
  pub abs : F → F
  pub cos : F → F
  pub hypot : F → F → F
  pub max : F → F → F
  pub min : F → F → F
  -- `Math.round`
  pub nearest : F → F
  pub floor : F → F
  pub infinity : F
  -- `%`
  pub rem : F → F → F

module _ {F : Type 0} ⦃num : Numbers F⦄ where
  infixl 65 ◌⊕◌ ◌⊖◌
  infixl 70 ◌⊗◌ ◌⊘◌
  infixl 70 ◌%?◌
  infix 50 ◌<?◌ ◌≤?◌ ◌=?◌
  abbrev pub ◌⊕◌ : F → F → F
  a ⊕ b = num.plus a b

  abbrev pub ◌⊖◌ : F → F → F
  a ⊖ b = num.minus a b

  abbrev pub ◌⊗◌ : F → F → F
  a ⊗ b = num.times a b

  abbrev pub ◌⊘◌ : F → F → F
  a ⊘ b = num.over a b

  abbrev pub ◌%?◌ : F → F → F
  a %? b = num.rem a b

  abbrev pub ◌<?◌ : F → F → Bool
  a <? b = num.less a b

  abbrev pub ◌≤?◌ : F → F → Bool
  a ≤? b = num.at_most a b

  abbrev pub ◌=?◌ : F → F → Bool
  a =? b = num.same a b

  -- A whole literal.
  abbrev pub whole : ℕ → F
  whole n = num.literal n 0

-- What holds of the comparisons, also with NaN, and of sums of numbers that are not negative, also
-- where they overflow.
pub record IsOrdered (F : Type 0) ⦃num : Numbers F⦄ : Type 0 where
  pub lt_irrefl : (x : F) → num.less x x ≡ false
  pub lt_trans : (x y z : F) → num.less x y ≡ true → num.less y z ≡ true → num.less x z ≡ true
  pub lt-eq : (x y z : F) → num.less x y ≡ true → num.same y z ≡ true → num.less x z ≡ true
  pub eq-lt : (x y z : F) → num.same x y ≡ true → num.less y z ≡ true → num.less x z ≡ true
  pub eq_sym : (x y : F) → num.same x y ≡ true → num.same y x ≡ true
  pub eq_trans : (x y z : F) → num.same x y ≡ true → num.same y z ≡ true → num.same x z ≡ true
  pub le_refl : (x : F) → num.same x x ≡ true → num.at_most x x ≡ true
  pub not_lt :
      (x y : F)
      → num.same x x ≡ true
      → num.same y y ≡ true
      → num.less x y ≡ false
      → num.at_most y x ≡ true
  pub finite_eq : (x : F) → num.is_finite x ≡ true → num.same x x ≡ true
  pub zero_le : num.at_most (num.literal 0 0) (num.literal 0 0) ≡ true
  pub lt_le : (x y : F) → num.less x y ≡ true → num.at_most x y ≡ true
  pub sum_le :
      (a b c d : F)
      → num.at_most (num.literal 0 0) a ≡ true
      → num.at_most (num.literal 0 0) c ≡ true
      → num.at_most a b ≡ true
      → num.at_most c d ≡ true
      → num.at_most (num.plus a c) (num.plus b d) ≡ true
  pub sum_positive :
      (a b : F)
      → num.at_most (num.literal 0 0) a ≡ true
      → num.at_most (num.literal 0 0) b ≡ true
      → num.at_most (num.literal 0 0) (num.plus a b) ≡ true

-- What holds of an axis that is cut into at most 5000 steps: also where a product or a quotient is
-- rounded or overflows.
pub record IsScaled (F : Type 0) ⦃num : Numbers F⦄ : Type 0 where
  pub lt-le : (x y z : F) → num.less x y ≡ true → num.at_most y z ≡ true → num.less x z ≡ true
  pub times_mono :
      (d : F) (i : ℕ)
      → num.is_finite d ≡ true
      → num.at_most (num.literal 0 0) d ≡ true
      → suc i ≤ 5000
      → num.at_most (num.times d (num.literal i 0)) (num.times d (num.literal (suc i) 0)) ≡ true
  pub over_mono :
      (x y : F) (n : ℕ)
      → suc n ≤ 5000
      → num.at_most x y ≡ true
      → num.at_most (num.over x (num.literal (suc n) 0)) (num.over y (num.literal (suc n) 0)) ≡ true
