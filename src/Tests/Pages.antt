-- ===== src/Tests/Pages.antt =====
-- Requests to the sample user interface.
use go_identity.Store.{err_not_found}
use go_identity.Ui.{trimmed}
use go_identity.Account.Password.{request_password_reset}
use go_identity.Identity.User.{normalize_email}
use go_identity.Common.{
  suc, String, ◌≡◌, refl, ◌≢◌, ◌⊎◌, true, false, List, [], ◌∷◌, none, some, ne_of_test,
}
use go_identity.Failure.{Result, ok, err, other}
use go_identity.Effect.{World}
use go_identity.Security.{base64_encode}
use go_identity.Identity.User.{User}
use go_identity.Memory.State.{Memory}
use go_identity.Session.{create}
use go_identity.Ui.{Ui, Request, Reply, redirect_to, url, path_home, safe_return_to, csrf_holds}
use go_identity.Ui.Local.{IsLocal, safe_return_to-IsLocal}
use go_identity.Ui.Interaction.{current_user, signed_out}
use go_identity.Ui.Interaction.Sound.{IsCurrent, current_user_sound}
use go_identity.Ui.Interaction.Stale.{change_password-stale}
use go_identity.Ui.Login.{login_submit}
use go_identity.Ui.Login.Sound.{IsSignedIn, IsRefused, login_submit_sound}
use go_identity.Ui.Password.{forgot_submit}
use go_identity.Ui.Password.Uniform.{forgot_submit_uniform, forgot_submit_discloses}
use go_identity.Tests.Samples.{env, accounts, alice, fresh_code, stored}
use go_identity.Tests.Stored.{fresh-IsWellFormed}
use go_identity.Tests.Sessions.{session, manager, sender, presented}
use go_identity.Tests.Passwords.{start, saved, changed, change_runs}

abbrev ui : Ui Memory
ui = record {
  accounts = accounts;
  sessions = manager;
  env = env;
  base_path = "";
  application_name = "Identity";
  allow_registration = true;
  parse_url = λ address. some ("", "");
  to_upper = λ text. text;
}

abbrev request : Request
request = record {
  sender = sender;
  query = [];
  form_parsed = true;
  post_form =
      ("login", "alice")
      ∷ ("password", "correct horse")
      ∷ ("return_to", "/authorize?state=x")
      ∷ ("email", "alice@app.example")
      ∷ [];
}

safe_return_to-IsLocal_example :
    ((safe_return_to ui "/authorize?state=x" ≡ "/authorize?state=x")
      × IsLocal ui "/authorize?state=x")
    ⊎ ((safe_return_to ui "/authorize?state=x" ≡ url ui path_home)
        × ¬ IsLocal ui "/authorize?state=x")
safe_return_to-IsLocal_example = safe_return_to-IsLocal ui "/authorize?state=x"

visitor_runs :
    current_user ui request start ≡ (ok (some alice, []), record start { ticks = suc start.ticks })
unfolding current_user go_identity.Effect.◌>>=◌ go_identity.Effect.clock_reading
    go_identity.Session.get go_identity.Session.cookie_value go_identity.Common.Cut.cut_dot
    go_identity.Session.session_value go_identity.Security.base64_encode go_identity.Session.sign
    go_identity.Session.mac_input go_identity.Common.bytes go_identity.Effect.unix
    go_identity.Effect.recover go_identity.Account.Service.get_user
    go_identity.Memory.Users.get_user_by_id go_identity.Ui.Interaction.of_session
    go_identity.Account.Service.can_sign_in
visitor_runs = refl

current_user_sound_example : IsCurrent ui request start alice
current_user_sound_example =
    current_user_sound ui request alice [] start (record start { ticks = suc start.ticks })
      visitor_runs

fresh_stamp : base64_encode (env.entropy 1 32) ≢ "stamp"
unfolding base64_encode
fresh_stamp = ne_of_test "AQ" "stamp" refl

change_password-stale_example :
    current_user ui request changed.1
    ≡ (ok (signed_out ui), record changed.1 { ticks = suc changed.1.ticks })
change_password-stale_example =
    change_password-stale env ui alice "battery staple" start saved changed.1 request session
      change_runs (ne_of_test "user-1" "" refl) fresh-IsWellFormed presented refl fresh_stamp

abbrev signed_in : Reply
signed_in = record {
  status = 303;
  cookies = (create manager 2_000_000 "user-1" "stamp").1 ∷ [];
  body = redirect_to "/authorize?state=x";
}

abbrev login_run : Result Reply × World Memory
login_run = login_submit ui request start

login_runs : login_run ≡ (ok signed_in, login_run.1)
unfolding login_submit csrf_holds go_identity.Session.verify_csrf
    go_identity.Session.csrf_cookie_value go_identity.Common.bytes go_identity.Session.sign
    go_identity.Security.base64_encode go_identity.Session.mac_input go_identity.Effect.◌>>=◌
    go_identity.Ui.Login.finish_login go_identity.Account.Authenticate.authenticate
    go_identity.Effect.now go_identity.Effect.map_error go_identity.Account.Service.find_user
    go_identity.Memory.Users.get_user_by_normalized_username
    go_identity.Identity.User.normalize_username go_identity.Common.get_value
    go_identity.Effect.refuse_if go_identity.Identity.User.is_locked_out
    go_identity.Account.Authenticate.accept_password go_identity.Memory.Users.update_user
    go_identity.Account.Authenticate.record_login go_identity.Effect.clock_reading safe_return_to
login_runs = refl

login_submit_sound_example :
    IsSignedIn ui request start signed_in ⊎ IsRefused ui request start signed_in
login_submit_sound_example = login_submit_sound ui request start signed_in login_run.1 login_runs

-- The store without users.
abbrev deserted : World Memory
deserted = record start { db = record (stored fresh_code) { users = [] } }

form_holds : csrf_holds ui request ≡ true
unfolding csrf_holds go_identity.Session.verify_csrf go_identity.Session.csrf_cookie_value
    go_identity.Common.bytes go_identity.Session.sign go_identity.Security.base64_encode
    go_identity.Session.mac_input
form_holds = refl

-- The user interface while the mail server refuses every message.
abbrev undelivered : Ui Memory
undelivered = record ui {
  accounts = record accounts { deliver = λ m. err (other "connection refused") };
}

undelivered_form_holds : csrf_holds undelivered request ≡ true
unfolding csrf_holds go_identity.Session.verify_csrf go_identity.Session.csrf_cookie_value
    go_identity.Common.bytes go_identity.Session.sign go_identity.Security.base64_encode
    go_identity.Session.mac_input
undelivered_form_holds = refl

nobody :
    accounts.store.get_user_by_normalized_email
      (normalize_email env (trimmed ui request "email"))
      deserted.db
    ≡ err err_not_found
unfolding normalize_email go_identity.Memory.Users.get_user_by_normalized_email
nobody = refl

forgot_submit_uniform_example :
    ((forgot_submit ui request deserted).1 ≡ deserted)
    × ((((request_password_reset accounts (trimmed ui request "email") start).0 ≡ ok tt)
          × ((forgot_submit ui request deserted).0 ≡ (forgot_submit ui request start).0))
        ⊎ (((request_password_reset accounts (trimmed ui request "email") start).0 ≢ ok tt)
            × ((reply : Reply) × ((forgot_submit ui request start).0 ≡ ok reply)
                × (reply.status ≡ 500))))
forgot_submit_uniform_example = forgot_submit_uniform ui request deserted start form_holds nobody

alice_known :
    accounts.store.get_user_by_normalized_email
      (normalize_email env (trimmed ui request "email"))
      start.db
    ≡ ok alice
unfolding normalize_email go_identity.Memory.Users.get_user_by_normalized_email
    go_identity.Common.get_value
alice_known = refl

forgot_submit_discloses_example :
    ((reply : Reply) × ((forgot_submit undelivered request deserted).0 ≡ ok reply)
      × (reply.status ≡ 200))
    × ((reply : Reply) × ((forgot_submit undelivered request start).0 ≡ ok reply)
        × (reply.status ≡ 500))
forgot_submit_discloses_example =
    forgot_submit_discloses undelivered request deserted start alice undelivered_form_holds nobody
      alice_known refl (λ m e. absurd (cc e))
