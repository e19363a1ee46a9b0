-- ===== src/Ui.antt =====
-- pkg/ui/ui.go: what the pages share. A page is the data that its template receives; the templates
-- are not read, and their execution does not fail here.
pub mod Interaction
pub mod Login
pub mod Registration
pub mod Password
pub mod Local
pub mod Pages
pub mod Routes
use Prim.Native.Char.{Char, code}
use Prim.Native.String
use go_identity.Common.{
  ℕ, String, Bool, true, false, ◌&&◌, ◌||◌, List, [], ◌∷◌, Option, none, some, ◌==◌, ◌!=◌, not,
  get_value, ℤ, eqb, any, bytes, text_append, if◌then◌else◌,
}
use go_identity.Failure.{Error, Result}
use go_identity.Effect.{Env, M, ◌>>=◌, pure}
use go_identity.Identity.User.{User}
use go_identity.Account.Service.{Service}
use go_identity.Session.{Sender, Manager, Cookie, csrf_token, verify_csrf}

-- The paths of the pages, relative to the base path.
abbrev pub path_home : String
path_home = "/"

abbrev pub path_login : String
path_login = "/login"

abbrev pub path_activate : String
path_activate = "/activate"

abbrev pub path_password_reset : String
path_password_reset = "/password/reset"

abbrev pub path_activation_resend : String
path_activation_resend = "/activation/resend"

abbrev pub path_password_forgot : String
path_password_forgot = "/password/forgot"

-- `UI` with its options. `parse_url` is `url.Parse`: the scheme and the host, if there is no error;
-- `to_upper` is `strings.ToUpper`.
pub record Ui (S : Type 0) : Type 0 where
  pub accounts : Service S
  pub sessions : Manager
  pub env : Env
  pub base_path : String
  pub application_name : String
  pub allow_registration : Bool
  pub parse_url : String → Option (String × String)
  pub to_upper : String → String

-- A request: who sends it, the query, whether `r.ParseForm` succeeds, and the posted form.
pub record Request : Type 0 where
  pub sender : Sender
  pub query : List (String × String)
  pub form_parsed : Bool
  pub post_form : List (String × String)

pub record Link : Type 0 where
  pub href : String
  pub text : String

pub record MessageData : Type 0 where
  pub message : String
  pub links : List Link

pub record ConsentData : Type 0 where
  pub client_name : String
  pub description : String
  pub scopes : List String
  pub action : String
  pub params : List (String × List String)

pub record LoginData : Type 0 where
  pub allow_registration : Bool
  pub show_resend : Bool

pub record PasswordData : Type 0 where
  pub min_password_length : ℤ

pub record EmailFormData : Type 0 where
  pub intro : String
  pub action : String
  pub button : String

-- `Page.Data`
pub data PageData : Type 0 where
  no_data : PageData
  message_data : MessageData → PageData
  consent_data : ConsentData → PageData
  login_data : LoginData → PageData
  password_data : PasswordData → PageData
  email_form_data : EmailFormData → PageData

-- `Page`, with the fields that the pages fill in.
pub record Page : Type 0 where
  pub app_name : String
  pub title : String
  pub csrf : String
  pub error : String
  pub user : Option User
  pub form : List (String × String)
  pub data_of : PageData

-- A page before `render`: a title and nothing else.
abbrev pub titled : String → Page
titled title = record {
  app_name = "";
  title = title;
  csrf = "";
  error = "";
  user = none;
  form = [];
  data_of = no_data;
}

-- What is sent: a page by the name of its template, or a redirection.
pub data Body : Type 0 where
  page : String → Page → Body
  redirect_to : String → Body

-- A response, with the cookies that it sets.
pub record Reply : Type 0 where
  pub status : ℕ
  pub cookies : List Cookie
  pub body : Body

-- `redirect`
abbrev pub redirect : String → Reply
redirect target = record { status = 303; cookies = []; body = redirect_to target }

-- `u.opts.Sessions.Destroy(w)` and the like, before the response.
abbrev pub with_cookie : Cookie → Reply → Reply
with_cookie c reply = record reply { cookies = c ∷ reply.cookies }

-- The `ToUpper` of the first character; the texts that the pages pass begin with an ASCII one.
unfoldable pub capitalize : (String → String) → String → String
capitalize to_upper String.[] = ""
capitalize to_upper (String.◌∷◌ c s) = text_append (to_upper (String.◌∷◌ c "")) s

-- `strings.TrimSuffix(path, "/")`
unfoldable pub trim_slash : String → String
trim_slash String.[] = ""
trim_slash (String.◌∷◌ c String.[]) = if eqb (code c) b'/' then "" else String.◌∷◌ c ""
trim_slash (String.◌∷◌ c (String.◌∷◌ d s)) = String.◌∷◌ c (trim_slash (String.◌∷◌ d s))

-- A single slash, and no second one nor a backslash after it.
abbrev pub has_local_start : List ℕ → Bool
has_local_start [] = false
has_local_start (c ∷ []) = eqb c b'/'
has_local_start (c ∷ d ∷ more) = eqb c b'/' && not (eqb d b'/' || eqb d b'\\')

-- One of the bytes that a local path must not hold.
abbrev pub is_refused_byte : ℕ → Bool
is_refused_byte b = eqb b b'\\' || eqb b b'\r' || eqb b b'\n' || eqb b b'\t'

abbrev pub has_no_host : Option (String × String) → Bool
has_no_host none = false
has_no_host (some (scheme, host)) = scheme == "" && host == ""

module _ {S : Type 0} (u : Ui S) where
  -- The part of `New` that changes the options.
  unfoldable pub new_ui : Ui S
  new_ui = record u {
    base_path = trim_slash u.base_path;
    application_name = if u.application_name == "" then "Identity" else u.application_name;
  }

  -- `url`
  abbrev pub url : String → String
  url path = text_append u.base_path path

  -- `safeReturnTo`
  unfoldable pub safe_return_to : String → String
  safe_return_to return_to =
      if not (has_local_start (bytes return_to)) || any is_refused_byte (bytes return_to)
      then url path_home
      else if has_no_host (u.parse_url return_to)
      then return_to
      else url path_home

  -- `render`
  unfoldable pub render : Request → ℕ → String → Page → M S Reply
  render r status name shown = do
    (csrf, cookies) ← csrf_token u.sessions r.sender
    pure (record {
      status = status;
      cookies = cookies;
      body = page name (record shown { app_name = u.application_name; csrf = csrf });
    })

  -- `message`
  unfoldable pub message : Request → ℕ → String → String → List Link → M S Reply
  unfolding render
  message r status title text links =
      render r status "message" (record (titled title) {
        data_of = message_data (record { message = text; links = links });
      })

  -- `serverError`
  unfoldable pub server_error : Request → M S Reply
  unfolding message
  server_error r =
      message r 500 "Something went wrong" "An unexpected error occurred. Please try again later."
        []

  -- `verifyCSRF`
  unfoldable pub csrf_holds : Request → Bool
  csrf_holds r = r.form_parsed && verify_csrf u.sessions r.sender

  -- `strings.TrimSpace(r.PostForm.Get(name))`
  abbrev pub trimmed : Request → String → String
  trimmed r name = u.env.trim_space (get_value r.post_form name)

  abbrev pub password_page_data : PageData
  password_page_data =
      password_data (record { min_password_length = u.accounts.opts.min_password_length })

abbrev pub csrf_message : String
csrf_message = "Your form has expired. Please try again."

-- `Link{href, text}`
abbrev pub link : String → String → List Link
link href text = record { href = href; text = text } ∷ []
