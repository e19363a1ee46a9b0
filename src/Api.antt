-- ===== src/Api.antt =====
-- pkg/api/api.go: what the handlers of the management API share. The parsing of media types and of
-- JSON bodies is outside the repository: a request carries its outcome.
pub mod ClientRequest
pub mod Clients
pub mod Users
pub mod Tokens
pub mod Duration
pub mod Created
use go_identity.Common.{
  ℕ, suc, ◌+◌, ◌-◌, ◌*◌, ◌%◌, ◌^◌, String, Bool, true, false, List, [], ◌∷◌, Option, none, some,
  ◌==◌, ◌!=◌, get_value, ltb, ℤ, pos, negsuc, quot, text_append, if◌then◌else◌,
}
use go_identity.Failure.{
  StoreError, AccountError, SecurityError, Error, Result, ok, err, store, account, validation,
  security, oauth, other,
}
use go_identity.Effect.{Env, M, ◌>>=◌, pure, recover, now}
use go_identity.Security.{Hasher}
use go_identity.Store.{ListOptions, normalize}
use go_identity.Account.Service.{Service}

-- `API` with its options. `atoi` is `strconv.Atoi`, `is_absolute_uri` what `Client.Validate` asks
-- of `url.Parse`.
pub record Api (S : Type 0) : Type 0 where
  pub accounts : Service S
  pub hasher : Hasher
  pub env : Env
  pub atoi : String → Option ℤ
  pub is_absolute_uri : String → Bool

-- A request without its body: the path, the `id` of the route, the query, and the order in which
-- `range` visits the two names of `listOptions`.
pub record Target : Type 0 where
  pub path : String
  pub id : String
  pub query : List (String × String)
  pub limit_first : Bool

-- The outcome of `decoder.Decode`: an error, or a value and whether nothing follows it.
pub data Decoded (A : Type 0) : Type 0 where
  malformed : String → Decoded A
  parsed : A → Bool → Decoded A

-- The parsed media type of a request and its decoded body.
pub record Payload (A : Type 0) : Type 0 where
  pub media_type : Option String
  pub decoded : Decoded A

-- `Error`
pub record ApiError : Type 0 where
  pub code : String
  pub description : String
  pub field : String

-- A response: a JSON value with its status, the same with a Location header, an error, or no body.
pub data Response (B : Type 0) : Type 0 where
  json : ℕ → B → Response B
  created : String → B → Response B
  failure : ℕ → ApiError → Response B
  no_body : ℕ → Response B

-- `writeError`
abbrev pub write_error : {B : Type 0} → ℕ → String → String → Response B
write_error status code description =
    failure status (record { code = code; description = description; field = "" })

abbrev pub invalid_request : String
invalid_request = "invalid_request"

abbrev not_found_response : {B : Type 0} → Response B
not_found_response = write_error 404 "not_found" "the resource doesn't exist"

abbrev conflict_response : {B : Type 0} → Response B
conflict_response =
    write_error 409 "conflict" "a resource with the same unique value already exists"

abbrev server_error_response : {B : Type 0} → Response B
server_error_response = write_error 500 "server_error" "an unexpected error occurred"

-- `handleError`
unfoldable pub handle_error : {B : Type 0} → Error → Response B
handle_error (validation name message) = failure 400 (record {
  code = "validation_failed";
  description = text_append name (text_append " " message);
  field = name;
})
handle_error (store StoreError.not_found) = not_found_response
handle_error (store StoreError.duplicate) = conflict_response
handle_error (store StoreError.conflict) = server_error_response
handle_error (account AccountError.no_such_user) = not_found_response
handle_error (account AccountError.user_exists) = conflict_response
handle_error (account AccountError.invalid_credentials) = server_error_response
handle_error (account AccountError.not_activated) = server_error_response
handle_error (account AccountError.locked_out) = server_error_response
handle_error (account AccountError.disabled) = server_error_response
handle_error (account AccountError.invalid_token) = server_error_response
handle_error (security e) = server_error_response
handle_error (oauth e) = server_error_response
handle_error (other message) = server_error_response

-- `if err != nil { a.handleError(w, r, err); return }`, for every call of a handler.
unfoldable pub handled : {S B : Type 0} → M S (Response B) → M S (Response B)
unfolding handle_error
handled m = recover m (λ e. pure (handle_error e))

abbrev pub with_decoded : {S A B : Type 0} → Decoded A → (A → M S (Response B)) → M S (Response B)
with_decoded (malformed reason) f =
    pure (write_error 400 invalid_request (text_append "the request body is invalid: " reason))
with_decoded (parsed value false) f =
    pure (write_error 400 invalid_request "the request body must contain a single JSON object")
with_decoded (parsed value true) f = f value

abbrev pub is_json : Option String → Bool
is_json none = false
is_json (some media_type) = media_type == "application/json"

-- `decode`, with what follows it when it returns true.
unfoldable pub decode : {S A B : Type 0} → Payload A → (A → M S (Response B)) → M S (Response B)
decode p f =
    if is_json p.media_type
    then with_decoded p.decoded f
    else pure (write_error 415 invalid_request "the content type must be application/json")

-- `ListResponse`
pub record ListResponse (T : Type 0) : Type 0 where
  pub items : List T
  pub total : ℕ
  pub offset : ℤ
  pub limit : ℤ

-- The number of a parameter that is not empty; a negative one is refused.
abbrev parsed_number : Option ℤ → Option ℤ
parsed_number none = none
parsed_number (some (pos n)) = some (pos n)
parsed_number (some (negsuc n)) = none

-- What follows once every element is converted.
unfoldable pub convert_all : {S A B : Type 0} → (A → M S B) → List A → M S (List B)
convert_all f [] = pure []
convert_all f (a ∷ more) = do b ← f a; rest ← convert_all f more; pure (b ∷ rest)

module _ {S : Type 0} (a : Api S) where
  unfoldable pub number_param : Target → String → Option ℤ
  number_param r name =
      let v = get_value r.query name in if v == "" then some (pos 0) else parsed_number (a.atoi v)

  abbrev pub with_number :
      {B : Type 0} → String → Option ℤ → (ℤ → M S (Response B)) → M S (Response B)
  with_number name none f = pure (
      write_error 400 invalid_request
        (text_append "the " (text_append name " parameter must be a positive number")))
  with_number name (some n) f = f n

  -- `listOptions`, with what follows it when it returns true.
  unfoldable pub list_options :
      {B : Type 0} → Target → (ListOptions → M S (Response B)) → M S (Response B)
  list_options r f =
      let offset = number_param r "offset" in
      let limit = number_param r "limit" in
      if r.limit_first
      then with_number "limit" limit
          (λ l. with_number "offset" offset (λ o. f (normalize (record { offset = o; limit = l }))))
      else with_number "offset" offset
          (λ o. with_number "limit" limit (λ l. f (normalize (record { offset = o; limit = l }))))

-- `respondList`
unfoldable pub respond_list :
    {S A B : Type 0} → (A → M S B) → List A × ℕ → ListOptions → M S (Response (ListResponse B))
unfolding convert_all
respond_list convert (items, total) opts = do
  result ← convert_all convert items
  pure (
      json 200 (record { items = result; total = total; offset = opts.offset; limit = opts.limit }))

-- A 64-bit signed integer: the value that is congruent modulo 2 ^ 64.
abbrev pub wrap_int64 : ℤ → ℤ
wrap_int64 (pos n) = let r = n % 2 ^ 64 in if ltb r (2 ^ 63) then pos r else negsuc (2 ^ 64 - suc r)
wrap_int64 (negsuc n) =
    let r = n % 2 ^ 64 in if ltb r (2 ^ 63) then negsuc r else pos (2 ^ 64 - suc r)

-- `n * time.Second` without the bound of an int64.
abbrev pub scaled : ℤ → ℤ
scaled (pos n) = pos (n * 1_000_000_000)
scaled (negsuc n) = negsuc (suc n * 1_000_000_000 - 1)

-- `duration`
unfoldable pub duration : ℤ → ℤ
duration n = wrap_int64 (scaled n)

-- `seconds`
unfoldable pub seconds : ℤ → ℤ
seconds d = quot d 1_000_000_000
