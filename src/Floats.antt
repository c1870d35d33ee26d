-- ===== src/Floats.antt =====
-- Go's float64 as the source uses it: the type and its operations are a parameter. The three laws hold
-- of IEEE 754 comparisons, NaN included.
use Prim.Native.Nat.{suc, ◌*◌, ◌-◌}
use rapid_proxy.Prelude.{ℕ, ◌≡◌, Bool, true, false, Int64, ◌==◌, leb, ltb, arith}

pub record Float64 (F : Type 0) : Type 0 where
  pub of_int : Int64 → F
  -- the constant n / d of the source
  pub literal : ℕ → ℕ → F
  pub sub : F → F → F
  pub div : F → F → F
  pub ltb : F → F → Bool
  pub leb : F → F → Bool
  pub eqb : F → F → Bool
  pub not_le_of_lt : (a b : F) → ltb a b ≡ true → leb b a ≡ false
  pub not_lt_of_le : (a b : F) → leb a b ≡ true → ltb b a ≡ false
  pub le_of_eq : (a b : F) → eqb a b ≡ true → leb a b ≡ true

-- Fractions with a positive denominator, stored less one, stand in for floats in tests.
pub record Fraction : Type 0 where
  pub top : ℕ
  pub below : ℕ

abbrev bottom : Fraction → ℕ
bottom f = suc f.below

pub fraction_lt-le :
    (a b : Fraction)
    → ltb (a.top * bottom b) (b.top * bottom a) ≡ true
    → leb (b.top * bottom a) (a.top * bottom b) ≡ false
fraction_lt-le a b h = ground arith

pub fraction_le-lt :
    (a b : Fraction)
    → leb (a.top * bottom b) (b.top * bottom a) ≡ true
    → ltb (b.top * bottom a) (a.top * bottom b) ≡ false
fraction_le-lt a b h = ground arith

pub fraction_eq-le :
    (a b : Fraction)
    → (a.top * bottom b == b.top * bottom a) ≡ true
    → leb (a.top * bottom b) (b.top * bottom a) ≡ true
fraction_eq-le a b h = ground arith

abbrev pub fractions : Float64 Fraction
fractions = record {
  of_int = λ n. record { top = n; below = 0 };
  literal = λ n d. record { top = n; below = d - 1 };
  sub =
      λ a b. record { top = a.top * bottom b - b.top * bottom a; below = bottom a * bottom b - 1 };
  div = λ a b. record { top = a.top * bottom b; below = bottom a * b.top - 1 };
  ltb = λ a b. ltb (a.top * bottom b) (b.top * bottom a);
  leb = λ a b. leb (a.top * bottom b) (b.top * bottom a);
  eqb = λ a b. a.top * bottom b == b.top * bottom a;
  not_le_of_lt = fraction_lt-le;
  not_lt_of_le = fraction_le-lt;
  le_of_eq = fraction_eq-le;
}
