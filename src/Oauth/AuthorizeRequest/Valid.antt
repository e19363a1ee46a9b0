-- ===== src/Oauth/AuthorizeRequest/Valid.antt =====
-- What a validated authorization request guarantees.
use go_identity.Common.{
  ◌∙◌, String, ◌≡◌, refl, ◌⊎◌, Bool, true, false, ◌||◌, List, arith, ◌==◌, eq_iff, if◌then◌else◌,
}
use go_identity.Failure.{Result, ok, err, ◌>>=◌, ◌>>◌, bind_returns, >>-eq-ok}
use go_identity.Security.Pkce.{is_supported_code_challenge_method, is_valid_code_verifier}
use go_identity.Identity.Client.{
  is_public, validate_grant_type, response_type_code, response_type_token,
  grant_type_authorization_code, grant_type_implicit,
}
use go_identity.Oauth.Params.{Values, param, resolve_scopes}
use go_identity.Oauth.AuthorizeRequest.{
  AuthorizeRequest, check_response_type, with_challenge, validate_scope_and_challenge,
  validate_authorize_request, Validated,
}

-- The client may use the response type.
abbrev pub IsGranted : AuthorizeRequest → Type 0
IsGranted r =
    (r.response_type ≡ response_type_code)
      × (validate_grant_type r.client grant_type_authorization_code ≡ true)
    ⊎ (r.response_type ≡ response_type_token)
      × (validate_grant_type r.client grant_type_implicit ≡ true)

-- The request carries a usable PKCE challenge if it has to.
abbrev pub IsProtected : AuthorizeRequest → Type 0
IsProtected r =
    (r.response_type ≡ response_type_code)
    → (r.client.require_pkce || is_public r.client ≡ true)
    → (is_valid_code_verifier r.code_challenge ≡ true)
      × (is_supported_code_challenge_method r.code_challenge_method ≡ true)

-- A request that may be shown to the resource owner.
pub record IsValid (req valid : AuthorizeRequest) (params : Values) : Type 0 where
  pub client : valid.client ≡ req.client
  pub redirect_uri : valid.redirect_uri ≡ req.redirect_uri
  pub granted : IsGranted valid
  pub scope : String
  pub requested : param params "scope" ≡ ok scope
  pub scoped : resolve_scopes valid.client scope ≡ ok valid.scopes
  pub protected : IsProtected valid

check_response_type-IsGranted :
    (req : AuthorizeRequest) → check_response_type req ≡ ok tt → IsGranted req
unfolding check_response_type
check_response_type-IsGranted req h = ground (
  arith,
  eq_iff req.response_type response_type_code,
  eq_iff req.response_type response_type_token,
)

-- What the last two tests keep of a request, and what they find.
IsExtended : (req valid : AuthorizeRequest) → Type 0
IsExtended req valid =
    (valid.client ≡ req.client)
    × (valid.redirect_uri ≡ req.redirect_uri)
    × (valid.response_type ≡ req.response_type)
    × (valid.scopes ≡ req.scopes)
    × IsProtected valid

with_challenge_lem :
    (req : AuthorizeRequest) (challenge method : String) {valid : AuthorizeRequest}
    → with_challenge req challenge method ≡ ok valid
    → IsExtended req valid
unfolding with_challenge IsExtended
with_challenge_lem req challenge method h = ground arith

-- The scopes of a request, and what the tests after them keep.
IsScoped : (req valid : AuthorizeRequest) (params : Values) → Type 0
IsScoped req valid params =
    (scope : String) × (scopes : List String) × (param params "scope" ≡ ok scope)
    × (resolve_scopes req.client scope ≡ ok scopes)
    × IsExtended (record req { scopes = scopes }) valid

unchallenged_lem :
    (req valid : AuthorizeRequest)
    → req.response_type == response_type_code ≡ false
    → ok req ≡ ok valid
    → IsExtended req valid
unfolding IsExtended
unchallenged_lem req valid e h = ground (arith, eq_iff req.response_type response_type_code)

-- The challenge is read only for a code.
challenge_lem :
    (req valid : AuthorizeRequest) (params : Values) (for_code : Bool)
    → req.response_type == response_type_code ≡ for_code
    → (if for_code
        then (do
          challenge ← param params "code_challenge"
          method ← param params "code_challenge_method"
          with_challenge req challenge method)
        else ok req)
      ≡ ok valid
    → IsExtended req valid
challenge_lem req valid params true e h =
    let (challenge, p, h) = bind_returns (param params "code_challenge") _ h in
    let (method, q, h) = bind_returns (param params "code_challenge_method") _ h in
    with_challenge_lem req challenge method h
challenge_lem req valid params false e h = unchallenged_lem req valid e h

validate_scope_and_challenge_lem :
    (req : AuthorizeRequest) (params : Values) (valid : AuthorizeRequest)
    → validate_scope_and_challenge req params ≡ ok valid
    → IsScoped req valid params
unfolding validate_scope_and_challenge IsScoped
validate_scope_and_challenge_lem req params valid h =
    let (scope, p, h) = bind_returns (param params "scope") _ h in
    let (scopes, q, h) = bind_returns (resolve_scopes req.client scope) _ h in
    (scope, scopes, p, q, challenge_lem (record req { scopes = scopes }) valid params _ refl h)

-- The request with the state and response type that it was sent with.
IsTyped : (req valid : AuthorizeRequest) (params : Values) → Type 0
IsTyped req valid params =
    (typed : AuthorizeRequest) × (typed.client ≡ req.client)
    × (typed.redirect_uri ≡ req.redirect_uri)
    × (check_response_type typed >> validate_scope_and_challenge typed params ≡ ok valid)

validate_authorize_request_lem :
    (req : AuthorizeRequest) (params : Values) (valid : AuthorizeRequest)
    → (validate_authorize_request req params).1 ≡ ok valid
    → IsTyped req valid params
unfolding validate_authorize_request IsTyped
validate_authorize_request_lem req params valid h =
    go (param params "state") (param params "response_type") h
  where
    go :
        (state response_type : Result String)
        → (elim state as (λ r. Validated) [
          | err e ↦ (req, err e)
          | ok state ↦
              let stated : AuthorizeRequest = record req { state = state } in
              elim response_type as (λ r. Validated) [
                | err e ↦ (stated, err e)
                | ok response_type ↦
                    let typed : AuthorizeRequest = record stated {
                      response_type = response_type;
                    } in
                    (typed, check_response_type typed >> validate_scope_and_challenge typed params)
              ]
        ]).1
          ≡ ok valid
        → IsTyped req valid params
    go (err e) r h = cc
    go (ok state) (err e) h = cc
    go (ok state) (ok response_type) h =
        (record req { state = state; response_type = response_type }, refl, refl, h)

-- A request that passes the validation is for the client and the redirection URI that were checked
-- before it, asks for a response type that the client's grant types allow and for the scopes that
-- the client grants for its scope parameter, and, if it asks for a code and the client is public or
-- requires PKCE, carries a well-formed challenge with a supported method.
pub validate_authorize_request_sound :
    (req : AuthorizeRequest) (params : Values) (valid : AuthorizeRequest)
    → (validate_authorize_request req params).1 ≡ ok valid
    → IsValid req valid params
unfolding IsTyped IsScoped IsExtended
validate_authorize_request_sound req params valid h =
    let (typed, c, u, h) = validate_authorize_request_lem req params valid h in
    let (t, h) = >>-eq-ok (check_response_type typed) _ h in
    let granted = check_response_type-IsGranted typed t in
    let (scope, scopes, p, q, (c', u', r, s, protected)) =
      validate_scope_and_challenge_lem typed params valid h in
    record {
      client = c' ∙ c;
      redirect_uri = u' ∙ u;
      granted = rw (r, c') granted;
      scope = scope;
      requested = p;
      scoped = cc;
      protected = protected;
    }
