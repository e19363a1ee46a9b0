-- ===== src/Oauth/Params.antt =====
-- pkg/oauth/params.go. A request carries what Go's library has parsed of it.
use go_identity.Common.{
  String, Bool, false, List, [], ◌∷◌, Option, none, some, ◌==◌, ◌!=◌, not, text_append,
  if◌then◌else◌,
}
use go_identity.Failure.{Result, ok, err, ◌>>=◌, ◌>>◌, refuse}
use go_identity.Identity.Scope.{parse_scope, validate_scope_syntax}
use go_identity.Identity.Client.{Client, validate_scopes}
use go_identity.Oauth.Error.{refusal, error_invalid_request, error_invalid_scope}

-- `url.Values`
abbrev pub Values : Type 0
Values = List (String × List String)

-- `values[name]`
unfoldable pub values_of : Values → String → List String
values_of [] name = []
values_of ((key, v) ∷ more) name = if key == name then v else values_of more name

-- A request: the method, the media type of its body (`mime.ParseMediaType`), the body parameters
-- (`r.ParseForm` within the size limit) and the Authorization header.
pub record Request : Type 0 where
  pub method : String
  pub media_type : Option String
  pub post_form : Option Values
  pub authorization : String

abbrev one_value : String → List String → Result String
one_value name [] = ok ""
one_value name (v ∷ []) = ok v
one_value name (v ∷ v' ∷ more) = err (
    refusal error_invalid_request
      (text_append "the " (text_append name " parameter is included more than once")))

-- `Param`
unfoldable pub param : Values → String → Result String
unfolding values_of
param values name = one_value name (values_of values name)

-- `RequiredParam`
unfoldable pub required_param : Values → String → Result String
unfolding param
required_param values name = do
  v ← param values name
  refuse (v == "") (
      refusal error_invalid_request (text_append "the " (text_append name " parameter is missing")))
  ok v

abbrev has_media_type : Option String → String → Bool
has_media_type none t = false
has_media_type (some m) t = m == t

abbrev or_malformed : Option Values → Result Values
or_malformed none = err (refusal error_invalid_request "the request body is malformed")
or_malformed (some form) = ok form

-- `parsePostForm`
unfoldable pub parse_post_form : Request → Result Values
parse_post_form r = do
  refuse (r.method != "POST") (refusal error_invalid_request "the request method must be POST")
  refuse (not (has_media_type r.media_type "application/x-www-form-urlencoded"))
      (refusal error_invalid_request "the content type must be application/x-www-form-urlencoded")
  or_malformed r.post_form

-- `resolveScopes`
unfoldable pub resolve_scopes : Client → String → Result (List String)
resolve_scopes client scope = if scope == "" then ok client.default_scopes else do
  refuse (not (validate_scope_syntax (parse_scope scope)))
      (refusal error_invalid_scope "the requested scope is malformed")
  refuse (not (validate_scopes client (parse_scope scope)))
      (refusal error_invalid_scope "the requested scope is not allowed for this client")
  ok (parse_scope scope)
