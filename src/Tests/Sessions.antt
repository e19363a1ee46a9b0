-- ===== src/Tests/Sessions.antt =====
-- Sessions and CSRF tokens of a sample manager.
use go_identity.Session.Csrf.{verify_csrf_iff}
use go_identity.Session.{csrf_token}
use go_identity.Session.Csrf.{posted_token}
use go_identity.Effect.{unix}
use go_identity.Session.{cookie_value}
use go_identity.Session.{verify_csrf}
use go_identity.Session.{sign}
use go_identity.Session.{leb_ℤ}
use go_identity.Common.{
  ℕ, suc, String, ◌≡◌, refl, ◌≢◌, ◌↔◌, true, false, [], ◌∷◌, ◌++◌, none, some, pos, negsuc,
  ne_of_test, List, if◌then◌else◌,
}
use go_identity.Failure.{ok}
use go_identity.Effect.{World}
use go_identity.Session.{Session, Codec, Manager, Sender, Cookie, create, get, session_value}
use go_identity.Session.Signed.{create-get, get_sound, IsProof}
use go_identity.Tests.Samples.{env, fresh_code, world}

-- The session of the sample user, two milliseconds after Go's zero time.
abbrev pub session : Session
session = record {
  user_id = "user-1";
  security_stamp = "stamp";
  auth_time = negsuc 62_135_596_799;
  expires_at = negsuc 62_135_567_999;
}

-- A codec that knows one session.
abbrev codec : Codec
codec = record {
  hmac = λ key message. key ++ message;
  marshal = λ s. 1 ∷ 2 ∷ 3 ∷ [];
  unmarshal = λ content. some session;
  base64_decode = λ text. some (1 ∷ 2 ∷ 3 ∷ []);
}

abbrev pub manager : Manager
manager = record {
  env = env;
  codec = codec;
  opts = record {
    key = 7 ∷ [];
    cookie_name = "identity_session";
    csrf_cookie_name = "identity_csrf";
    path = "/";
    domain = "";
    secure = true;
    lifetime = pos 28_800_000_000_000;
  };
}

abbrev pub csrf_cookie : String
csrf_cookie = "0123456789abcdef0123456789abcdef"

abbrev session_cookie : Cookie
session_cookie = (create manager 2_000_000 "user-1" "stamp").1

-- A sender with the session and a CSRF token.
abbrev pub sender : Sender
sender = record {
  cookies =
      ("identity_session", session_value manager session) ∷ ("identity_csrf", csrf_cookie) ∷ [];
  csrf_header = "";
  csrf_form = sign manager "csrf" csrf_cookie;
}

created : create manager 2_000_000 "user-1" "stamp" ≡ (session, session_cookie)
unfolding create go_identity.Effect.unix go_identity.Identity.Token.add_duration
created = refl

sent : cookie_value manager.opts.cookie_name sender.cookies ≡ some session_cookie.value
unfolding create cookie_value go_identity.Effect.unix go_identity.Identity.Token.add_duration
sent = refl

create-get_example :
    get manager 2_000_000 sender
    ≡ (if leb_ℤ session.expires_at (unix 2_000_000) then none else some session)
create-get_example =
    create-get manager 2_000_000 2_000_000 "user-1" "stamp" session session_cookie sender created
      refl refl (ne_of_test "user-1" "" refl) sent

pub presented : get manager 2_000_000 sender ≡ some session
unfolding get cookie_value go_identity.Common.Cut.cut_dot session_value
    go_identity.Security.base64_encode sign go_identity.Session.mac_input go_identity.Common.bytes
    unix
presented = refl

get_sound_example :
    (value : String) × (cookie_value manager.opts.cookie_name sender.cookies ≡ some value)
    × IsProof manager 2_000_000 value session
get_sound_example = get_sound manager 2_000_000 sender session presented

verify_csrf_iff_example : (verify_csrf manager sender ≡ true) ↔ (
    (posted_token sender ≢ "")
    × (csrf_token manager sender (world fresh_code)
        ≡ (ok (posted_token sender, []), world fresh_code)))
verify_csrf_iff_example = verify_csrf_iff manager sender (world fresh_code)
