-- ===== src/Failure.antt =====
-- The values of Go's `error` that the code tells apart: the sentinel errors of pkg/store/store.go,
-- pkg/account/account.go and pkg/security/security.go, the validation error of
-- pkg/identity/error.go, and the error response of pkg/oauth/error.go. `other` stands for every
-- error that comes from outside, such as a database that cannot be reached.
use go_identity.Common.{ℕ, String, ◌≡◌, refl, Bool, true, false}

pub data StoreError : Type 0 where
  not_found duplicate conflict : StoreError

pub data AccountError : Type 0 where
  invalid_credentials not_activated locked_out disabled invalid_token user_exists no_such_user :
      AccountError

pub data SecurityError : Type 0 where
  mismatch secret_too_long : SecurityError

-- `Error` of pkg/oauth/error.go
pub record OauthError : Type 0 where
  pub code : String
  pub description : String
  pub uri : String
  pub status : ℕ

pub data Error : Type 0 where
  store : StoreError → Error
  account : AccountError → Error
  security : SecurityError → Error
  validation : String → String → Error
  oauth : OauthError → Error
  other : String → Error

-- A result with its error: `(T, error)` in the source.
pub data Result {ℓ} (A : Type ℓ) : Type ℓ where
  ok : A → Result A
  err : Error → Result A

-- `NewValidationError`
abbrev pub new_validation_error : String → String → Error
new_validation_error field message = validation field message

-- `IsValidationError`
abbrev pub is_validation_error : Error → Bool
is_validation_error (validation f m) = true
is_validation_error (store e) = false
is_validation_error (account e) = false
is_validation_error (security e) = false
is_validation_error (oauth e) = false
is_validation_error (other m) = false

module _ {ℓ κ} {T : Type ℓ} {U : Type κ} where
  infixl 10 ◌>>=◌
  -- `value, failure := first; if failure != nil { return nil, failure }`
  abbrev pub ◌>>=◌ : Result T → (T → Result U) → Result U
  ok value >>= next = next value
  err failure >>= next = err failure

  -- The first result of a sequence that returned.
  pub bind_returns :
      (first : Result T) (next : T → Result U) {done : U}
      → first >>= next ≡ ok done
      → (value : T) × (first ≡ ok value) × (next value ≡ ok done)
  bind_returns (ok value) next returned = (value, refl, returned)
  bind_returns (err failure) next returned = cc

module _ {κ} {U : Type κ} where
  infixl 10 ◌>>◌
  abbrev pub ◌>>◌ : Result (Unit {0}) → Result U → Result U
  test >> next = test >>= λ passed. next

  -- Both parts of a sequence return exactly when the sequence does.
  pub >>-eq-ok :
      (test : Result (Unit {0})) (next : Result U) {done : U}
      → test >> next ≡ ok done
      → (test ≡ ok tt) × (next ≡ ok done)
  >>-eq-ok (ok tt) next returned = (refl, returned)
  >>-eq-ok (err failure) next returned = cc

-- `if refused { return e }`
abbrev pub refuse : Bool → Error → Result (Unit {0})
refuse true e = err e
refuse false e = ok tt
