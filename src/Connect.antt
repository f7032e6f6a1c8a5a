-- ===== src/Connect.antt =====
-- cpp/client/connect.cpp: the choice of the transport by the scheme of an address.
use ds_service.Base.{
  ℕ, suc, ◌+◌, String, Bool, true, false, ◌≡◌, ◌≢◌, ◌⊎◌, inl, inr, refl, sym, ap, ◌∙◌, ◌==◌, eqb,
  eq_iff, Bool-cases, if◌then◌else◌, arith,
}
use ds_service.Error.{Error, Result, ok, unexpected, invalid_argument}
use Prim.Native.String.{◌++◌, ◌∷◌, begins, find, slice, len}
use Prim.Native.Char.{Char, len_utf8}
use Prim.Native.String.append
use Prim.Native.String.find
use text.Mathlib.TextFind.{find_cases}
use text.Mathlib.TextPositions.{slice-append_left, slice-append_right, len-append}
use text.Mathlib.TextLemmas.{append_assoc}

-- A text that `find` does not meet is one past its end.
abbrev pub is_npos : String → ℕ → Bool
is_npos s position = eqb position (suc (len s))

-- The scheme and the target of an address
unfoldable pub split_address : String → String × String
split_address address =
    let separator = find address "://" in
    if is_npos address separator
    then ("grpc", address)
    else (slice address 0 separator, slice address (separator + len "://") (len address))

abbrev pub unknown_transport : String → String → Error
unknown_transport scheme address = record {
  code = invalid_argument;
  message = "Unknown transport '" ++ (scheme ++ ("' in address '" ++ (address ++ "'.")));
}

abbrev pub address_empty : Error
address_empty = record { code = invalid_argument; message = "The address is empty." }

module _ {A : Type 0} (make_transport : String → A) where
  -- `connect`, once the address is split
  unfoldable pub select : String → String → String → Result A
  select address scheme target =
      if target == ""
      then unexpected address_empty
      else if scheme == "grpc"
      then ok (make_transport target)
      else unexpected (unknown_transport scheme address)

  unfoldable pub connect : String → Result A
  unfolding split_address select
  connect address = let (scheme, target) = split_address address in select address scheme target

-- Which addresses choose gRPC, and the target of each.
abbrev pub Selects : String → String → Type 0
Selects address target =
    (target ≢ "")
    × (((find address "://" ≡ suc (len address)) × (target ≡ address))
        ⊎ (address ≡ "grpc://" ++ target))

find_past :
    (c : Char) (s target : String)
    → find ((c ∷ s) ++ target) "://"
      ≡ begins (c ∷ (s ++ target)) "://" 0 (len_utf8 c + find (s ++ target) "://")
find_past c s target =
    ap (λ w. find w "://") (append.cons c s target) ∙ find.cons c (s ++ target) "://"

separator_first : (target : String) → "://" ++ target ≡ ":" ∷ ("/" ∷ ("/" ∷ target))
separator_first target =
    append.cons ":" "//" target
    ∙ ap (λ w. ":" ∷ w) (append.cons "/" "/" target)
    ∙ ap (λ w. ":" ∷ ("/" ∷ w)) (append.cons "/" "" target)
    ∙ ap (λ w. ":" ∷ ("/" ∷ ("/" ∷ w))) (append.nil target)

find_separator : (target : String) → find ("://" ++ target) "://" ≡ 0
find_separator target =
    ap (λ w. find w "://") (separator_first target) ∙ find.cons ":" ("/" ∷ ("/" ∷ target)) "://"

find_grpc : (target : String) → find ("grpc://" ++ target) "://" ≡ 4
find_grpc target =
    find_past "g" "rpc://" target
    ∙ ap (λ n. 1 + n)
        (find_past "r" "pc://" target
          ∙ ap (λ n. 1 + n)
              (find_past "p" "c://" target
                ∙ ap (λ n. 1 + n)
                    (find_past "c" "://" target ∙ ap (λ n. 1 + n) (find_separator target))))

len_parts : (u v address : String) → address ≡ u ++ ("://" ++ v) → len address ≡ len u + (3 + len v)
len_parts u v address e =
    ap len e ∙ len-append u ("://" ++ v) ∙ ap (λ n. len u + n) (len-append "://" v)

split-parts :
    (u v address : String)
    → address ≡ u ++ ("://" ++ v)
    → find address "://" ≡ len u
    → split_address address ≡ (u, v)
unfolding split_address
split-parts u v address e at =
    let long = len_parts u v address e in
    let inside : is_npos address (find address "://") ≡ false = ground (arith, at, long) in
    let scheme : slice address 0 (find address "://") ≡ u =
      ap (λ n. slice address 0 n) at
      ∙ ap (λ w. slice w 0 (len u)) e
      ∙ slice-append_left u ("://" ++ v) in
    let whole : address ≡ (u ++ "://") ++ v = e ∙ sym (append_assoc u "://" v) in
    let cut : find address "://" + 3 ≡ len (u ++ "://") = ground (arith, at, len-append u "://") in
    let end : len address ≡ len (u ++ "://") + len v = ground (arith, long, len-append u "://") in
    let target : slice address (find address "://" + 3) (len address) ≡ v =
      ap (λ n. slice address n (len address)) cut
      ∙ ap (λ n. slice address (len (u ++ "://")) n) end
      ∙ ap (λ w. slice w (len (u ++ "://")) (len (u ++ "://") + len v)) whole
      ∙ slice-append_right (u ++ "://") v in
    rw (inside) (λ i. (scheme i, target i))

split-grpc : (target : String) → split_address ("grpc://" ++ target) ≡ ("grpc", target)
split-grpc target =
    split-parts "grpc" target ("grpc://" ++ target) (append_assoc "grpc" "://" target)
      (find_grpc target)

split-bare :
    (address : String)
    → find address "://" ≡ suc (len address)
    → split_address address ≡ ("grpc", address)
unfolding split_address
split-bare address miss = ground (arith, miss)

Selects-split :
    (address target : String) → Selects address target → split_address address ≡ ("grpc", target)
Selects-split address target (filled, inl (miss, e)) =
    split-bare address miss ∙ ap (λ w. ("grpc", w)) (sym e)
Selects-split address target (filled, inr e) = ap split_address e ∙ split-grpc target

split-Selects :
    (address target : String)
    → target ≢ ""
    → split_address address ≡ ("grpc", target)
    → Selects address target
split-Selects address target filled e = elim (find_cases address "://") [
  | inr miss ↦ (filled, inl (miss, ap (λ p. p.1) (sym e ∙ split-bare address miss)))
  | inl (u, v, parts, at) ↦
      let s = sym (split-parts u v address parts at) ∙ e in
      (
        filled,
        inr (parts ∙ (λ i. (s i).0 ++ ("://" ++ (s i).1)) ∙ sym (append_assoc "grpc" "://" target)),
      )
]

module _ {A : Type 0} (make_transport : String → A) where
  select-empty :
      (address scheme target : String)
      → (target == "") ≡ true
      → select make_transport address scheme target ≡ unexpected address_empty
  unfolding select
  select-empty address scheme target empty = rw empty refl

  select-grpc :
      (address scheme target : String)
      → (target == "") ≡ false
      → (scheme == "grpc") ≡ true
      → select make_transport address scheme target ≡ ok (make_transport target)
  unfolding select
  select-grpc address scheme target filled grpc = rw (filled, grpc) refl

  select-other :
      (address scheme target : String)
      → (target == "") ≡ false
      → (scheme == "grpc") ≡ false
      → select make_transport address scheme target ≡ unexpected (unknown_transport scheme address)
  unfolding select
  select-other address scheme target filled other = rw (filled, other) refl

  -- `connect` on every address
  abbrev pub Connects : String → Type 0
  Connects address =
      ((target : String) × Selects address target
        × (connect make_transport address ≡ ok (make_transport target)))
      ⊎ (((target : String) → ¬ Selects address target)
          × ((e : Error) × (connect make_transport address ≡ unexpected e)
              × (e.code ≡ invalid_argument)))

  -- An address chooses gRPC with a target that is not empty exactly if it is the target and has no
  -- "://", or is "grpc://" and then the target; every other address is refused with InvalidArgument.
  pub connect-Connects : (address : String) → Connects address
  unfolding connect
  connect-Connects address =
      let scheme = (split_address address).0 in
      let target = (split_address address).1 in
      elim (Bool-cases (target == "")) [
        | inl empty ↦ inr (
          (λ t s.
              s.0 (sym (ap (λ p. p.1) (Selects-split address t s)) ∙ (eq_iff target "").0 empty)),
          (address_empty, select-empty address scheme target empty, refl),
        )
        | inr filled ↦ elim (Bool-cases (scheme == "grpc")) [
          | inl grpc ↦ inl (
            target,
            split-Selects address target (λ e. cc (filled, (eq_iff target "").1 e))
                (λ i. ((eq_iff scheme "grpc").0 grpc i, target)),
            select-grpc address scheme target filled grpc,
          )
          | inr other ↦ inr (
            (λ t s. cc (other, ap (λ p. p.0 == "grpc") (Selects-split address t s))),
            (
              unknown_transport scheme address,
              select-other address scheme target filled other,
              refl,
            ),
          )
        ]
      ]
