-- ===== src/Session.antt =====
-- pkg/session/session.go: the signed session cookie and the CSRF protection. HMAC-SHA256, JSON and
-- the decoding of base64 are fields of `Codec`.
pub mod Signed
pub mod Csrf
use go_identity.Common.{
  ℕ, String, Bool, true, false, ◌&&◌, ◌||◌, List, [], ◌∷◌, ◌++◌, Option, none, some, ◌==◌, ◌!=◌,
  not, ℤ, pos, negsuc, leb, ltb, bytes, length, text_append, quot, is_nonpositive, if◌then◌else◌,
  sub_ℕ, ◌/◌,
}
use go_identity.Common.Cut.{cut_dot}
use go_identity.Failure.{Error, Result, ok, err, other}
use go_identity.Effect.{Env, M, ◌>>=◌, pure, unix}
use go_identity.Security.{base64_encode, random_token, equal}
use go_identity.Identity.Token.{add_duration}
use go_identity.Identity.Client.{lifetime_or}

abbrev pub csrf_field_name : String
csrf_field_name = "csrf_token"

-- `Session`
pub record Session : Type 0 where
  pub user_id : String
  pub security_stamp : String
  pub auth_time : ℤ
  pub expires_at : ℤ

-- `hmac.New(sha256.New, key)` over a message, `json.Marshal` and `json.Unmarshal` of a session, and
-- `base64.RawURLEncoding.DecodeString`.
pub record Codec : Type 0 where
  pub hmac : List ℕ → List ℕ → List ℕ
  pub marshal : Session → List ℕ
  pub unmarshal : List ℕ → Option Session
  pub base64_decode : String → Option (List ℕ)

pub record Options : Type 0 where
  pub key : List ℕ
  pub cookie_name : String
  pub csrf_cookie_name : String
  pub path : String
  pub domain : String
  pub secure : Bool
  pub lifetime : ℤ

-- `http.Cookie`, with the fields that vary; every cookie is HttpOnly and SameSite=Lax.
pub record Cookie : Type 0 where
  pub name : String
  pub value : String
  pub path : String
  pub domain : String
  pub max_age : ℤ
  pub secure : Bool

-- What a request says of its sender: the cookies (`r.Cookies()`), the X-CSRF-Token header, and the
-- posted form value of the same purpose.
pub record Sender : Type 0 where
  pub cookies : List (String × String)
  pub csrf_header : String
  pub csrf_form : String

pub record Manager : Type 0 where
  pub env : Env
  pub codec : Codec
  pub opts : Options

-- The text, or another one in place of the empty text.
abbrev or_name : String → String → String
or_name name default_name = if name == "" then default_name else name

-- `NewManager`
unfoldable pub new_manager : Env → Codec → Options → Result Manager
new_manager env codec opts =
    if ltb (length opts.key) 32
    then err (other "session: the key must have at least 32 bytes")
    else ok (record {
      env = env;
      codec = codec;
      opts = record opts {
        cookie_name = or_name opts.cookie_name "identity_session";
        csrf_cookie_name = or_name opts.csrf_cookie_name "identity_csrf";
        path = or_name opts.path "/";
        lifetime = lifetime_or opts.lifetime (pos 28_800_000_000_000);
      };
    })

-- `a <= b`
abbrev pub leb_ℤ : ℤ → ℤ → Bool
leb_ℤ (pos a) (pos b) = leb a b
leb_ℤ (pos a) (negsuc b) = false
leb_ℤ (negsuc a) (pos b) = true
leb_ℤ (negsuc a) (negsuc b) = leb b a

-- What is signed: the purpose, a zero byte, and the payload.
unfoldable pub mac_input : String → String → List ℕ
mac_input purpose payload = bytes purpose ++ 0 ∷ bytes payload

-- `r.Cookie(name)`: the first cookie of that name.
unfoldable pub cookie_value : String → List (String × String) → Option String
cookie_value name [] = none
cookie_value name ((n, v) ∷ more) = if n == name then some v else cookie_value name more

module _ (m : Manager) where
  -- `sign`
  unfoldable pub sign : String → String → String
  sign purpose payload = base64_encode (m.codec.hmac m.opts.key (mac_input purpose payload))

  -- `cookie`
  abbrev pub cookie : String → String → ℤ → Cookie
  cookie name value max_age = record {
    name = name;
    value = value;
    path = m.opts.path;
    domain = m.opts.domain;
    max_age = max_age;
    secure = m.opts.secure;
  }

  -- The value of the cookie of a session.
  unfoldable pub session_value : Session → String
  session_value s =
      let payload = base64_encode (m.codec.marshal s) in
      text_append payload (text_append "." (sign "session" payload))

  -- `Create`, with the cookie that it sets; `t` is `Now()`.
  unfoldable pub create : ℕ → String → String → Session × Cookie
  create t user_id security_stamp =
      let s : Session = record {
        user_id = user_id;
        security_stamp = security_stamp;
        auth_time = unix t;
        expires_at = unix (add_duration t m.opts.lifetime);
      } in
      (s, cookie m.opts.cookie_name (session_value s) (quot m.opts.lifetime 1_000_000_000))

  abbrev pub unexpired : ℕ → Option Session → Option Session
  unexpired t none = none
  unexpired t (some s) =
      if s.user_id == "" then none else if leb_ℤ s.expires_at (unix t) then none else some s

  abbrev pub decoded : Option (List ℕ) → Option Session
  decoded none = none
  decoded (some payload) = m.codec.unmarshal payload

  -- The session of a cookie that was cut at its dot.
  abbrev pub verified : ℕ → Option (String × String) → Option Session
  verified t none = none
  verified t (some (payload, signature)) =
      if not (equal signature (sign "session" payload))
      then none
      else unexpired t (decoded (m.codec.base64_decode payload))

  abbrev pub read_cookie : ℕ → Option String → Option Session
  read_cookie t none = none
  read_cookie t (some value) = verified t (cut_dot value)

  -- `Get`; its `false` is `none`.
  unfoldable pub get : ℕ → Sender → Option Session
  get t r = read_cookie t (cookie_value m.opts.cookie_name r.cookies)

  -- `Destroy`: the cookie that removes the session.
  abbrev pub destroy : Cookie
  destroy = cookie m.opts.cookie_name "" (negsuc 0)

  abbrev csrf_value_from : String → List (String × String) → String
  csrf_value_from value [] = value
  csrf_value_from value ((n, v) ∷ more) =
      csrf_value_from
        (if n == m.opts.csrf_cookie_name && leb 32 (length (bytes v)) then v else value) more

  -- `csrfCookieValue`: the last value that is long enough.
  unfoldable pub csrf_cookie_value : Sender → String
  csrf_cookie_value r = csrf_value_from "" r.cookies

  -- `CSRFToken`, with the cookie that it sets, if it does. Later calls within the request, which see
  -- that cookie, are not made.
  unfoldable pub csrf_token : {S : Type 0} → Sender → M S (String × List Cookie)
  csrf_token r =
      let value = csrf_cookie_value r in
      if value == ""
      then (do
        drawn ← random_token m.env 32
        pure (sign "csrf" drawn, cookie m.opts.csrf_cookie_name drawn (pos 0) ∷ []))
      else pure (sign "csrf" value, [])

  -- `VerifyCSRF`
  unfoldable pub verify_csrf : Sender → Bool
  verify_csrf r =
      let value = csrf_cookie_value r in
      let token = if r.csrf_header == "" then r.csrf_form else r.csrf_header in
      if value == "" then false else token != "" && equal token (sign "csrf" value)
