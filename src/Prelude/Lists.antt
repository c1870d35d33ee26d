-- ===== src/Prelude/Lists.antt =====
-- Lists measured and indexed by native numbers, under the library's names.
use Prim.Native.Nat.{ℕ, zero, suc, ◌+◌, ◌≤◌, ◌<◌}
use native.Mathlib.Decide.{ℕ_discrete}
use mathlib.Core.Path.{◌≡◌, refl, sym, ap, subst}
use mathlib.Core.Logic.{◌≢◌, ◌⊎◌, inl, inr}
use mathlib.Core.List.{List, [], ◌∷◌, ◌++◌}
use mathlib.Core.Option.{Option, none, some}
use native.Mathlib.Omega.{arith}

module _ {ℓ} {A : Type ℓ} where
  abbrev pub length : List A → ℕ
  length [] = 0
  length (x ∷ xs) = suc (length xs)

  abbrev pub get_elem? : List A → ℕ → Option A
  get_elem? [] i = none
  get_elem? (x ∷ xs) zero = some x
  get_elem? (x ∷ xs) (suc i) = get_elem? xs i

  -- A write out of bounds changes nothing.
  abbrev pub set : List A → ℕ → A → List A
  set [] i v = []
  set (x ∷ xs) zero v = v ∷ xs
  set (x ∷ xs) (suc i) v = x ∷ set xs i v

  -- A predicate of every element, computed to a tuple.
  abbrev pub All {κ} : (A → Type κ) → List A → Type κ
  All P [] = Unit
  All P (x ∷ xs) = P x × All P xs

module _ {ℓ} {A : Type ℓ} where
  pub length-append : (xs ys : List A) → length (xs ++ ys) ≡ length xs + length ys
  length-append [] ys = omega arith
  length-append (x ∷ xs) ys = omega (arith, length-append xs ys)

  pub length-set : (xs : List A) (i : ℕ) (v : A) → length (set xs i v) ≡ length xs
  length-set [] i v = refl
  length-set (x ∷ xs) zero v = refl
  length-set (x ∷ xs) (suc i) v = ap suc (length-set xs i v)

  pub get_elem?-set_self :
      (xs : List A) (i : ℕ) (v : A) → i < length xs → get_elem? (set xs i v) i ≡ some v
  get_elem?-set_self [] i v h = elim h [ ]
  get_elem?-set_self (x ∷ xs) zero v h = refl
  get_elem?-set_self (x ∷ xs) (suc i) v h = get_elem?-set_self xs i v (omega arith)

  pub get_elem?-set_ne :
      (xs : List A) {i j : ℕ} (v : A) → i ≢ j → get_elem? (set xs i v) j ≡ get_elem? xs j
  get_elem?-set_ne [] v h = refl
  get_elem?-set_ne (x ∷ xs) {i = zero} {j = zero} v h = absurd (h refl)
  get_elem?-set_ne (x ∷ xs) {i = zero} {j = suc j} v h = refl
  get_elem?-set_ne (x ∷ xs) {i = suc i} {j = zero} v h = refl
  get_elem?-set_ne (x ∷ xs) {i = suc i} {j = suc j} v h = get_elem?-set_ne xs v (λ e. h (ap suc e))

  -- What a read after a write can have found.
  pub get_elem?-set_cases :
      (xs : List A) (i j : ℕ) (v y : A)
      → get_elem? (set xs i v) j ≡ some y
      → ((i ≡ j) × (y ≡ v)) ⊎ ((i ≢ j) × (get_elem? xs j ≡ some y))
  get_elem?-set_cases [] i j v y e = cc
  get_elem?-set_cases (x ∷ xs) zero zero v y e = inl (refl, ground arith)
  get_elem?-set_cases (x ∷ xs) zero (suc j) v y e = inr (omega arith, e)
  get_elem?-set_cases (x ∷ xs) (suc i) zero v y e = inr (omega arith, e)
  get_elem?-set_cases (x ∷ xs) (suc i) (suc j) v y e =
      ground (arith, get_elem?-set_cases xs i j v y e)

  -- What a read of a list with one more element can have found.
  pub get_elem?-append_cases :
      (xs : List A) (x : A) (k : ℕ) (y : A)
      → get_elem? (xs ++ x ∷ []) k ≡ some y
      → (get_elem? xs k ≡ some y) ⊎ ((k ≡ length xs) × (x ≡ y))
  get_elem?-append_cases [] x zero y e = inr (refl, ground arith)
  get_elem?-append_cases [] x (suc k) y e = cc
  get_elem?-append_cases (z ∷ xs) x zero y e = inl e
  get_elem?-append_cases (z ∷ xs) x (suc k) y e = elim (get_elem?-append_cases xs x k y e) [
    | inl g ↦ inl g
    | inr (p, q) ↦ inr (ap suc p, q)
  ]

  pub some_injective : (x y : A) → some x ≡ some y → x ≡ y
  some_injective x y e = cc

  pub All-append {κ} :
      (P : A → Type κ) (xs : List A) (x : A) → All P xs → P x → All P (xs ++ x ∷ [])
  All-append P [] x a p = (p, tt)
  All-append P (y ∷ ys) x a p = (a.0, All-append P ys x a.1 p)

  pub All-get_elem? {κ} :
      (P : A → Type κ) (xs : List A) (i : ℕ) (x : A) → All P xs → get_elem? xs i ≡ some x → P x
  All-get_elem? P [] i x a e = cc
  All-get_elem? P (y ∷ xs) zero x a e = let q : y ≡ x = ground arith in subst P q a.0
  All-get_elem? P (y ∷ xs) (suc i) x a e = All-get_elem? P xs i x a.1 e

  abbrev pub sum_by : (A → ℕ) → List A → ℕ
  sum_by w [] = 0
  sum_by w (x ∷ xs) = w x + sum_by w xs

  pub sum_by-append :
      (w : A → ℕ) (xs : List A) (x : A) → sum_by w (xs ++ x ∷ []) ≡ sum_by w xs + w x
  sum_by-append w [] x = omega arith
  sum_by-append w (z ∷ xs) x = omega (arith, sum_by-append w xs x)

  pub sum_by-set :
      (w : A → ℕ) (xs : List A) (i : ℕ) (x y : A)
      → get_elem? xs i ≡ some x
      → sum_by w (set xs i y) + w x ≡ sum_by w xs + w y
  sum_by-set w [] i x y e = cc
  sum_by-set w (z ∷ xs) zero x y e = let q = ap w (sym (some_injective z x e)) in omega arith
  sum_by-set w (z ∷ xs) (suc i) x y e = omega (arith, sum_by-set w xs i x y e)

  -- The weight of one element.
  pub get_elem?-sum_by :
      (w : A → ℕ) (xs : List A) (i : ℕ) (x : A) → get_elem? xs i ≡ some x → w x ≤ sum_by w xs
  get_elem?-sum_by w [] i x e = cc
  get_elem?-sum_by w (z ∷ xs) zero x e = let q = ap w (sym (some_injective z x e)) in omega arith
  get_elem?-sum_by w (z ∷ xs) (suc i) x e = omega (arith, get_elem?-sum_by w xs i x e)

  pub sum_by-one :
      (w : A → ℕ) (xs : List A)
      → ((i : ℕ) (x : A) → get_elem? xs i ≡ some x → w x ≡ 1)
      → sum_by w xs ≡ length xs
  sum_by-one w [] h = refl
  sum_by-one w (x ∷ xs) h = omega (arith, h 0 x refl, sum_by-one w xs (λ i. h (suc i)))

  pub sum_by-plus :
      (v w : A → ℕ) (xs : List A) → sum_by (λ x. v x + w x) xs ≡ sum_by v xs + sum_by w xs
  sum_by-plus v w [] = refl
  sum_by-plus v w (x ∷ xs) = omega (arith, sum_by-plus v w xs)

  -- Weights that bound each other bound the sums.
  pub sum_by_mono : (v w : A → ℕ) (xs : List A) → ((x : A) → v x ≤ w x) → sum_by v xs ≤ sum_by w xs
  sum_by_mono v w [] h = omega arith
  sum_by_mono v w (x ∷ xs) h = omega (arith, h x, sum_by_mono v w xs h)

  -- A sum that is not zero has an element of that kind.
  pub sum_by-some :
      (w : A → ℕ) (xs : List A)
      → 0 < sum_by w xs
      → (i : ℕ) × (x : A) × (get_elem? xs i ≡ some x) × (0 < w x)
  sum_by-some w [] h = absurd (omega arith)
  sum_by-some w (x ∷ xs) h = elim (ℕ_discrete (w x) 0) [
    | yes z ↦ let (i, y, e, p) = sum_by-some w xs (omega arith) in (suc i, y, e, p)
    | no z ↦ (0, x, refl, omega arith)
  ]

  -- The weight of two elements.
  pub get_elem?-sum_by_two :
      (w : A → ℕ) (xs : List A) (i j : ℕ) (x y : A)
      → i ≢ j
      → get_elem? xs i ≡ some x
      → get_elem? xs j ≡ some y
      → w x + w y ≤ sum_by w xs
  get_elem?-sum_by_two w [] i j x y ne e g = cc
  get_elem?-sum_by_two w (z ∷ xs) zero zero x y ne e g = absurd (ne refl)
  get_elem?-sum_by_two w (z ∷ xs) zero (suc j) x y ne e g =
      let q = ap w (sym (some_injective z x e)) in omega (arith, get_elem?-sum_by w xs j y g, q)
  get_elem?-sum_by_two w (z ∷ xs) (suc i) zero x y ne e g =
      let q = ap w (sym (some_injective z y g)) in omega (arith, get_elem?-sum_by w xs i x e, q)
  get_elem?-sum_by_two w (z ∷ xs) (suc i) (suc j) x y ne e g =
      omega (arith, get_elem?-sum_by_two w xs i j x y (λ p. ne (ap suc p)) e g)

  pub get_elem?-none : (xs : List A) (i : ℕ) → get_elem? xs i ≡ none → length xs ≤ i
  get_elem?-none [] i e = omega arith
  get_elem?-none (x ∷ xs) zero e = cc
  get_elem?-none (x ∷ xs) (suc i) e = omega (arith, get_elem?-none xs i e)
