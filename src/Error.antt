-- ===== src/Error.antt =====
-- cpp/common/include/ds-service/error.hpp: the error codes, and what an operation of the core returns.
use ds_service.Base.{String, ◌≡◌, refl, ◌⊎◌, inl, inr}

pub data ErrorCode : Type 0 where
  not_found already_exists invalid_argument failed_precondition : ErrorCode
  message_too_large unavailable deadline_exceeded cancelled closed transport : ErrorCode

pub record Error : Type 0 where
  pub code : ErrorCode
  pub message : String

-- std::expected<A, Error>
pub data Result {ℓ} (A : Type ℓ) : Type ℓ where
  ok : A → Result A
  unexpected : Error → Result A

abbrev pub make_error {ℓ} : {A : Type ℓ} → ErrorCode → String → Result A
make_error code message = unexpected (record { code = code; message = message })

-- To split on a computed result and keep the equation.
pub Result-cases {ℓ} :
    {A : Type ℓ} (r : Result A) → ((a : A) × (r ≡ ok a)) ⊎ ((e : Error) × (r ≡ unexpected e))
Result-cases (ok a) = inl (a, refl)
Result-cases (unexpected e) = inr (e, refl)
