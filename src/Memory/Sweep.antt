-- ===== src/Memory/Sweep.antt =====
-- Deleting the tokens of one authorization code or one user.
use go_identity.Common.{◌≡◌, refl, ◌≢◌, String, Bool, Option, none, some, arith, ◌==◌, eq_iff}
use go_identity.Store.{no_filter}
use go_identity.Memory.State.{TokenFields, match_token}
use go_identity.Memory.Table.{Table, get, unless_holds}

-- The tokens under each identifier are there afterwards unless they were issued for the code.
abbrev pub IsRevoked : {V : Type 0} → (V → String) → String → Table V → Table V → Type 0
IsRevoked code_of code_id before after =
    (id : String) → get id after ≡ unless_holds (λ v. code_of v == code_id) (get id before)

pub match_token-code :
    (code_id : String) (t : TokenFields)
    → code_id ≢ ""
    → match_token (record no_filter { authorization_code_id = code_id }) t ≡ (t.code_id == code_id)
unfolding match_token
match_token-code code_id t h =
    ground (arith, eq_iff code_id "", eq_iff code_id t.code_id, eq_iff t.code_id code_id)

pub unless_holds-same :
    {V : Type 0} (p q : V → Bool) (o : Option V)
    → ((v : V) → p v ≡ q v)
    → unless_holds p o ≡ unless_holds q o
unless_holds-same p q none h = refl
unless_holds-same p q (some v) h = rw (h v) refl

pub match_token-user :
    (user_id : String) (t : TokenFields)
    → user_id ≢ ""
    → match_token (record no_filter { user_id = user_id }) t ≡ (t.user_id == user_id)
unfolding match_token
match_token-user user_id t h =
    ground (arith, eq_iff user_id "", eq_iff user_id t.user_id, eq_iff t.user_id user_id)
