-- ===== src/Oauth/Challenge.antt =====
-- The error responses of pkg/oauth/bearer.go.
use go_identity.Common.{
  ℕ, String, List, [], ◌∷◌, Option, none, some, ◌==◌, ◌!=◌, text_append, if◌then◌else◌,
}
use go_identity.Failure.{Error, Result, ok, err, OauthError}
use go_identity.Effect.{M}
use go_identity.Identity.Scope.{format_scope}
use go_identity.Oauth.Error.{as_error, error_server_error, error_insufficient_scope}
use go_identity.Oauth.Server.{Server}
use go_identity.Oauth.Bearer.{TokenInfo, require_bearer}

-- What is written in place of the protected resource: the status, the WWW-Authenticate header, and
-- the error as body.
pub record BearerReply : Type 0 where
  pub status : ℕ
  pub challenge : Option String
  pub body : OauthError

abbrev attribute : String → String → String
attribute name value = text_append name (text_append "=\"" (text_append value "\""))

abbrev with_description : String → String
with_description description =
    if description != "" then text_append ", " (attribute "error_description" description) else ""

abbrev with_scopes : List String → String
with_scopes [] = ""
with_scopes (scope ∷ scopes) = text_append ", " (attribute "scope" (format_scope (scope ∷ scopes)))

-- The challenge of `writeBearerError`.
unfoldable pub bearer_challenge : OauthError → List String → String
unfolding format_scope
bearer_challenge e scopes = text_append (attribute "Bearer realm" "identity") (
    text_append ", " (
      text_append (attribute "error" e.code)
        (text_append (with_description e.description) (with_scopes scopes))))

-- `writeBearerError`
unfoldable pub write_bearer_error : OauthError → List String → BearerReply
unfolding bearer_challenge
write_bearer_error e scopes = record {
  status = e.status;
  challenge = if e.code == error_server_error then none else some (bearer_challenge e scopes);
  body = e;
}

-- Only a missing scope is answered with the scopes that are required.
abbrev named_scopes : OauthError → List String → List String
named_scopes e scopes = if e.code == error_insufficient_scope then scopes else []

-- What `RequireBearer` writes for an error, if the request has an Authorization header or none.
unfoldable pub refuse_bearer : List String → String → Error → BearerReply
unfolding write_bearer_error
refuse_bearer scopes header e =
    if header == ""
    then record {
      status = 401;
      challenge = some (attribute "Bearer realm" "identity");
      body = as_error e;
    }
    else write_bearer_error (as_error e) (named_scopes (as_error e) scopes)

module _ {S R : Type 0} (srv : Server S) where
  abbrev pub admitted_to :
      (TokenInfo → M S R) → (BearerReply → M S R) → List String → String → Result TokenInfo → M S R
  admitted_to next refused scopes header (ok info) = next info
  admitted_to next refused scopes header (err e) = refused (refuse_bearer scopes header e)

  -- `RequireBearer` around a handler; `refused` sends the response of an error.
  unfoldable pub protected :
      List String → String → (TokenInfo → M S R) → (BearerReply → M S R) → M S R
  protected scopes header next refused w =
      admitted_to next refused scopes header (require_bearer srv scopes header w).0
        (require_bearer srv scopes header w).1
