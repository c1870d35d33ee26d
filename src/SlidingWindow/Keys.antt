-- ===== src/SlidingWindow/Keys.antt =====
-- Sums over the buckets, and what `cleanup` may delete.
use rapid_proxy.Prelude.{
  ℕ, ◌+◌, ◌*◌, ◌-◌, ◌/◌, ◌%◌, ◌^◌, ◌≤◌, ◌<◌, ◌≡◌, refl, ap, Bool, true, false, List, [], ◌∷◌, Int64,
  arith, add64, sub64, div64, ltb64, IsNonneg, IsPositive, All, if◌then◌else◌,
}
use rapid_proxy.SlidingWindow.{add_to, delete_before, in_window, count_loop}

-- The sum of the counts whose key passes the test, with no wrap-around.
unfoldable pub tally : (Int64 → Bool) → List (Int64 × Int64) → ℕ
tally inside [] = 0
tally inside ((k, c) ∷ rest) = (if inside k then c else 0) + tally inside rest

pub count_loop-tally :
    (inside : Int64 → Bool) (total : Int64) (m : List (Int64 × Int64))
    → total < 2 ^ 64
    → count_loop inside total m ≡ (total + tally inside m) % 2 ^ 64
unfolding count_loop tally
count_loop-tally inside total [] h = omega arith
count_loop-tally inside total ((k, c) ∷ rest) h =
    ground (arith, count_loop-tally inside (if inside k then add64 total c else total) rest)

pub tally-add_to :
    (inside : Int64 → Bool) (key delta : Int64) (m : List (Int64 × Int64))
    → tally inside (add_to key delta m) % 2 ^ 64
      ≡ (tally inside m + (if inside key then delta else 0)) % 2 ^ 64
unfolding tally add_to
tally-add_to inside key delta [] = omega arith
tally-add_to inside key delta ((k, c) ∷ rest) =
    ground (arith, tally-add_to inside key delta rest, ap inside)

-- Deleting keys that the test refuses does not change the sum.
pub tally-delete_before :
    (inside : Int64 → Bool) (cutoff_key : Int64) (m : List (Int64 × Int64))
    → All (λ b. inside b.0 ≡ true → ltb64 b.0 cutoff_key ≡ false) m
    → tally inside (delete_before cutoff_key m) ≡ tally inside m
unfolding tally delete_before
tally-delete_before inside c [] h = refl
tally-delete_before inside c ((k, n) ∷ rest) h =
    ground (arith, h.0, tally-delete_before inside c rest h.1)

div_mul : (k c b : ℕ) → 0 < b → k < c / b → k * b ≤ c
div_mul k c b hb h = grind arith

-- A bucket that still lies in the window of a later count is never deleted.
key_of :
    (t window b : Int64)
    → IsPositive b
    → IsNonneg t
    → window ≤ t
    → (div64 (sub64 t window) b ≡ (t - window) / b) × ((t - window) / b ≤ t)
key_of t window b hb ht hw = ground (arith, div-le (t - window) b hb.0)
  where
    div-le : (c b : ℕ) → 0 < b → c / b ≤ c
    div-le c b h = grind arith

pub inside_kept :
    (window b t asked now k : Int64)
    → IsPositive b
    → IsPositive window
    → window ≤ t
    → t ≤ asked
    → IsNonneg asked
    → IsNonneg k
    → in_window b (sub64 asked window) now k ≡ true
    → ltb64 k (div64 (sub64 t window) b) ≡ false
inside_kept window b t asked now k hb hw ht ha hn hk h =
    let (key, small) = key_of t window b hb (omega arith) ht in
    ground (arith, div_mul k (t - window) b hb.0)
