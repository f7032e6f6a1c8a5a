-- ===== src/Calendar/Fields.antt =====
-- The numeric fields of std::chrono::parse and std::format: a number of digits, at most or exactly.
use Prim.Native.Char.{Char, code}
use Prim.Native.String.{String}
use ds_service.Base.{
  ℕ, zero, suc, ◌+◌, ◌-◌, ◌*◌, ◌/◌, ◌%◌, ◌<◌, ◌≡◌, refl, subst, ap, ◌∙◌, Bool, ◌&&◌, Option, none,
  some, List, [], ◌∷◌, leb, eqb, if◌then◌else◌, arith,
}

unfoldable pub chars : String → List Char
chars String.[] = []
chars (String.◌∷◌ c text) = c ∷ chars text

abbrev pub text_of : List Char → String
text_of [] = String.[]
text_of (c ∷ text) = String.◌∷◌ c (text_of text)

pub chars-text_of : (text : List Char) → chars (text_of text) ≡ text
unfolding chars
chars-text_of [] = refl
chars-text_of (c ∷ text) = ap (λ cs. c ∷ cs) (chars-text_of text)

-- A parser takes a beginning of the text, or fails.
abbrev pub Parser : Type 0 → Type 0
Parser A = List Char → Option (A × List Char)

infixl 5 ◌>>=◌ ◌>>◌
abbrev pub ◌>>=◌ : {A B : Type 0} → Parser A → (A → Parser B) → Parser B
◌>>=◌ m f text = elim (m text) [ none ↦ none | some (a, rest) ↦ f a rest ]

abbrev pub ◌>>◌ : {B : Type 0} → Parser (Unit {0}) → Parser B → Parser B
m >> k = m >>= λ _. k

abbrev pub pure : {A : Type 0} → A → Parser A
pure a text = some (a, text)

abbrev pub guard : Bool → Parser (Unit {0})
guard test text = if test then some (tt, text) else none

-- The value of a digit
unfoldable pub digit_value : Char → Option ℕ
digit_value c = if leb 48 (code c) && leb (code c) 57 then some (code c - 48) else none

-- The digits that a text begins with, at most `max` of them: their value and their count, after those
-- before.
unfoldable pub digits : ℕ → ℕ → ℕ → List Char → (ℕ × ℕ) × List Char
unfolding digit_value
digits zero value count text = ((value, count), text)
digits (suc max) value count [] = ((value, count), [])
digits (suc max) value count (c ∷ text) = elim (digit_value c) [
  | none ↦ ((value, count), c ∷ text)
  | some d ↦ digits max (value * 10 + d) (count + 1) text
]

-- A number of at least one and at most `max` digits
unfoldable pub number : ℕ → Parser ℕ
unfolding digits
number max text =
    let ((value, count), rest) = digits max 0 0 text in
    if eqb count 0 then none else some (value, rest)

-- A number of exactly `size` digits
unfoldable pub exactly : ℕ → Parser ℕ
unfolding digits
exactly size text =
    let ((value, count), rest) = digits size 0 0 text in
    if eqb count size then some (value, rest) else none

unfoldable pub literal : Char → Parser (Unit {0})
literal c [] = none
literal c (d ∷ text) = if eqb (code d) (code c) then some (tt, text) else none

abbrev pub digit : ℕ → Char
digit zero = "0"
digit (suc zero) = "1"
digit (suc (suc zero)) = "2"
digit (suc (suc (suc zero))) = "3"
digit (suc (suc (suc (suc zero)))) = "4"
digit (suc (suc (suc (suc (suc zero))))) = "5"
digit (suc (suc (suc (suc (suc (suc zero)))))) = "6"
digit (suc (suc (suc (suc (suc (suc (suc zero))))))) = "7"
digit (suc (suc (suc (suc (suc (suc (suc (suc zero)))))))) = "8"
digit (suc (suc (suc (suc (suc (suc (suc (suc (suc n))))))))) = "9"

unfoldable pub power_of_ten : ℕ → ℕ
power_of_ten zero = 1
power_of_ten (suc n) = power_of_ten n * 10

-- The last `size` digits of a number, in front of a text
unfoldable pub print : ℕ → ℕ → List Char → List Char
print zero n rest = rest
print (suc size) n rest = print size (n / 10) (digit (n % 10) ∷ rest)

digit_value-digit : (d : ℕ) → d < 10 → digit_value (digit d) ≡ some d
unfolding digit_value
digit_value-digit zero h = refl
digit_value-digit (suc zero) h = refl
digit_value-digit (suc (suc zero)) h = refl
digit_value-digit (suc (suc (suc zero))) h = refl
digit_value-digit (suc (suc (suc (suc zero)))) h = refl
digit_value-digit (suc (suc (suc (suc (suc zero))))) h = refl
digit_value-digit (suc (suc (suc (suc (suc (suc zero)))))) h = refl
digit_value-digit (suc (suc (suc (suc (suc (suc (suc zero))))))) h = refl
digit_value-digit (suc (suc (suc (suc (suc (suc (suc (suc zero)))))))) h = refl
digit_value-digit (suc (suc (suc (suc (suc (suc (suc (suc (suc zero))))))))) h = refl
digit_value-digit (suc (suc (suc (suc (suc (suc (suc (suc (suc (suc n)))))))))) h =
    elim (above n h) [ ]
  where
    above : (k : ℕ) → ¬ (suc (suc (suc (suc (suc (suc (suc (suc (suc (suc k))))))))) < 10)
    above k = omega arith

digits-digit :
    (more n size : ℕ) (rest : List Char)
    → digits (suc more) (n / 10) size (digit (n % 10) ∷ rest) ≡ digits more n (suc size) rest
unfolding digits
digits-digit more n size rest =
    let value : n / 10 * 10 + n % 10 ≡ n = omega arith in
    let count : size + 1 ≡ suc size = omega arith in
    rw (digits, digit_value-digit (n % 10) (omega arith), value, count) refl

-- What is printed is read again, and the rest is left.
pub digits-print :
    (size more n : ℕ) (rest : List Char)
    → n < power_of_ten size
    → digits (size + more) 0 0 (print size n rest) ≡ digits more n size rest
unfolding print power_of_ten
digits-print zero more n rest small =
    let none_more : 0 + more ≡ more = omega arith in
    let is_zero : n ≡ 0 = omega arith in rw (none_more, is_zero) refl
digits-print (suc size) more n rest small =
    let more_last : size + suc more ≡ suc size + more = omega arith in
    subst
      (λ k.
        digits k 0 0 (print size (n / 10) (digit (n % 10) ∷ rest)) ≡ digits more n (suc size) rest)
      more_last
      (digits-print size (suc more) (n / 10) (digit (n % 10) ∷ rest) (omega arith)
        ∙ digits-digit more n size rest)

pub number-print :
    (size n : ℕ) (rest : List Char)
    → 0 < size
    → n < power_of_ten size
    → number size (print size n rest) ≡ some (n, rest)
unfolding number
number-print size n rest filled small =
    let whole : size + 0 ≡ size = omega arith in
    let read =
      subst (λ k. digits k 0 0 (print size n rest) ≡ digits 0 n size rest) whole
        (digits-print size 0 n rest small) in
    rw read (ground arith)

pub exactly-print :
    (size n : ℕ) (rest : List Char)
    → n < power_of_ten size
    → exactly size (print size n rest) ≡ some (n, rest)
unfolding exactly
exactly-print size n rest small =
    let whole : size + 0 ≡ size = omega arith in
    let read =
      subst (λ k. digits k 0 0 (print size n rest) ≡ digits 0 n size rest) whole
        (digits-print size 0 n rest small) in
    rw read (ground arith)
