-- ===== src/Double.antt =====
-- The C++ type double (IEEE 754 binary64), as far as the server computes with it: it copies priorities
-- and values, and compares priorities by `<` and `!=`. A double is its sign bit and the other 63 bits,
-- which order the values of one sign as numbers. Those past the pattern of infinity are the NaNs.
use ds_service.Base.{ℕ, ◌≡◌, ◌+◌, Bool, true, false, not, ◌&&◌, ltb, eqb, arith}

pub record Double : Type 0 where
  pub negative : Bool
  pub magnitude : ℕ

abbrev infinity_bits : ℕ
infinity_bits = 0x7ff0000000000000

unfoldable pub is_nan : Double → Bool
is_nan a = ltb infinity_bits a.magnitude

-- `a < b` for two numbers; -0 and +0 are equal.
abbrev lt_number : Bool → Bool → ℕ → ℕ → Bool
lt_number false false m n = ltb m n
lt_number true true m n = ltb n m
lt_number true false m n = ltb 0 (m + n)
lt_number false true m n = false

abbrev eq_number : Bool → Bool → ℕ → ℕ → Bool
eq_number false false m n = eqb m n
eq_number true true m n = eqb m n
eq_number true false m n = eqb (m + n) 0
eq_number false true m n = eqb (m + n) 0

-- Every comparison with a NaN but `!=` is false.
unfoldable pub lt : Double → Double → Bool
unfolding is_nan
lt a b =
    not (is_nan a) && (not (is_nan b) && lt_number a.negative b.negative a.magnitude b.magnitude)

unfoldable pub eq : Double → Double → Bool
unfolding is_nan
eq a b =
    not (is_nan a) && (not (is_nan b) && eq_number a.negative b.negative a.magnitude b.magnitude)

pub lt_irrefl : (a : Double) → lt a a ≡ false
unfolding lt
lt_irrefl a = ground arith

pub lt_trans : (a b c : Double) → lt a b ≡ true → lt b c ≡ true → lt a c ≡ true
unfolding lt
lt_trans a b c p q = ground arith

pub eq_symm : (a b : Double) → eq a b ≡ eq b a
unfolding eq
eq_symm a b = ground arith

pub eq_trans : (a b c : Double) → eq a b ≡ true → eq b c ≡ true → eq a c ≡ true
unfolding eq
eq_trans a b c p q = ground arith

pub lt-eq : (a b c : Double) → lt a b ≡ true → eq b c ≡ true → lt a c ≡ true
unfolding lt eq
lt-eq a b c p q = ground arith

pub eq-lt : (a b c : Double) → eq a b ≡ true → lt b c ≡ true → lt a c ≡ true
unfolding lt eq
eq-lt a b c p q = ground arith

-- Two numbers are equal or one is the smaller.
pub eq-lt_total :
    (a b : Double) → is_nan a ≡ false → is_nan b ≡ false → eq a b ≡ not (lt a b) && not (lt b a)
unfolding lt eq
eq-lt_total a b p q = ground arith

abbrev pub zero_double : Double
zero_double = record { negative = false; magnitude = 0 }
