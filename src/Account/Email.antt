-- ===== src/Account/Email.antt =====
-- pkg/account/email.go: the messages of the account flows. The HTML alternative, which html/template
-- makes of the same data, is left out.
use go_identity.Common.{
  List, [], ◌∷◌, ℕ, String, Bool, false, eqb, text_append, ℤ, pos, negsuc, suc, ◌%◌, quot,
  if◌then◌else◌,
}
use go_identity.Effect.{Env, Message}
use go_identity.Identity.User.{User}

-- `emailData`
pub record EmailData : Type 0 where
  pub title : String
  pub username : String
  pub intro : String
  pub action : String
  pub link : String
  pub expires : String
  pub outro : String

-- The texts one after the other.
abbrev joined : List String → String
joined [] = ""
joined (t ∷ ts) = text_append t (joined ts)

-- `buildMessage`
unfoldable pub build_message : User → String → EmailData → Message
build_message user subject mail = record {
  to = user.email;
  subject = subject;
  text = joined (
      "Hello " ∷ mail.username ∷ ",\n\n" ∷ mail.intro ∷ "\n\n" ∷ mail.action ∷ ": " ∷ mail.link
      ∷ "\n\nThis link expires in " ∷ mail.expires ∷ ". " ∷ mail.outro ∷ "\n" ∷ []);
}

abbrev divides : ℕ → ℤ → Bool
divides k (pos n) = eqb (n % k) 0
divides k (negsuc n) = eqb (suc n % k) 0

abbrev is_one : ℤ → Bool
is_one (pos n) = eqb n 1
is_one (negsuc n) = false

abbrev counted : Env → ℤ → String → String → String
counted env n one many = if is_one n then one else text_append (env.itoa n) many

-- `formatDuration`
unfoldable pub format_duration : Env → ℤ → String
format_duration env d =
    if divides 86_400_000_000_000 d
    then counted env (quot d 86_400_000_000_000) "1 day" " days"
    else if divides 3_600_000_000_000 d
    then counted env (quot d 3_600_000_000_000) "1 hour" " hours"
    else text_append (env.itoa (quot d 60_000_000_000)) " minutes"

unfoldable pub activation_message : Env → String → User → String → ℤ → Message
unfolding build_message format_duration
activation_message env app_name user link lifetime =
    build_message user (text_append app_name ": activate your account") (record {
      title = "Activate your account";
      username = user.username;
      intro =
          "Thank you for signing up. Please confirm your email address to activate your account.";
      action = "Activate account";
      link = link;
      expires = format_duration env lifetime;
      outro = "If you didn't create an account, you can ignore this email.";
    })

unfoldable pub password_reset_message : Env → String → User → String → ℤ → Message
unfolding build_message format_duration
password_reset_message env app_name user link lifetime =
    build_message user (text_append app_name ": reset your password") (record {
      title = "Reset your password";
      username = user.username;
      intro = "We received a request to reset the password of your account.";
      action = "Choose a new password";
      link = link;
      expires = format_duration env lifetime;
      outro = "If you didn't request a password reset, you can ignore this email.";
    })
