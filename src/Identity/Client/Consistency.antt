-- ===== src/Identity/Client/Consistency.antt =====
-- What `Validate` accepts, stated without its loops.
use go_identity.Common.{
  String, ◌≡◌, refl, ◌≢◌, ◌↔◌, ◌⊎◌, inl, inr, Bool, true, false, ◌&&◌, ◌||◌, List, [], ◌∷◌, ◌++◌,
  arith, ◌==◌, ◌!=◌, eq_iff, not, All, All-append, All-map, contains, Bool-cases,
}
use go_identity.Failure.{Error, ok, refuse}
use go_identity.Identity.Scope.{is_valid_scope_token}
use go_identity.Identity.Token.{
  refresh_token_expiration_absolute, refresh_token_expiration_sliding, refresh_token_usage_reuse,
  refresh_token_usage_onetime,
}
use go_identity.Identity.Client.{
  Client, client_type_confidential, client_type_public, grant_type_client_credentials, has_fragment,
  validate_uris, validate_scope_tokens, validate_default_scopes, validate_grant_types, validate,
}

module _ (is_absolute_uri : String → Bool) (c : Client) where
  -- A consistent registration.
  pub record IsConsistent : Type 0 where
    pub named : c.client_id ≢ ""
    pub typed : (c.type ≡ client_type_confidential) ⊎ (c.type ≡ client_type_public)
    pub uris : All (λ u. (is_absolute_uri u ≡ true) × (has_fragment u ≡ false)) c.redirect_uris
    pub allowed : All (λ s. is_valid_scope_token s ≡ true) c.allowed_scopes
    pub defaults :
        All
          (λ s. (is_valid_scope_token s ≡ true) × (contains c.allowed_scopes s ≡ true))
          c.default_scopes
    pub grants :
        All
          (λ g. (g ≢ "") × (c.type ≡ client_type_public → g ≢ grant_type_client_credentials))
          c.allowed_grant_types
    pub usage :
        (c.refresh_token_usage ≡ refresh_token_usage_reuse)
        ⊎ (c.refresh_token_usage ≡ refresh_token_usage_onetime)
    pub expiration :
        (c.refresh_token_expiration ≡ refresh_token_expiration_sliding)
        ⊎ (c.refresh_token_expiration ≡ refresh_token_expiration_absolute)

module _ (is_absolute_uri : String → Bool) where
  validate_uris_iff :
      (uris : List String)
      → (validate_uris is_absolute_uri uris ≡ ok tt)
        ↔ All (λ u. (is_absolute_uri u ≡ true) × (has_fragment u ≡ false)) uris
  unfolding validate_uris
  validate_uris_iff [] = (λ _. tt, λ _. refl)
  validate_uris_iff (u ∷ us) = elim (Bool-cases (not (is_absolute_uri u) || has_fragment u)) [
    | inl e ↦ rw e (λ h. cc, λ h. ground (arith, h.0))
    | inr e ↦ rw e (
      λ h. ((ground arith, ground arith), (validate_uris_iff us).0 h),
      λ h. (validate_uris_iff us).1 h.1,
    )
  ]

validate_scope_tokens_iff :
    (scopes : List String)
    → (validate_scope_tokens scopes ≡ ok tt) ↔ All (λ s. is_valid_scope_token s ≡ true) scopes
unfolding validate_scope_tokens
validate_scope_tokens_iff [] = (λ _. tt, λ _. refl)
validate_scope_tokens_iff (s ∷ ss) = elim (Bool-cases (is_valid_scope_token s)) [
  | inl e ↦
      rw e
        (λ h. (refl, (validate_scope_tokens_iff ss).0 h), λ h. (validate_scope_tokens_iff ss).1 h.1)
  | inr e ↦ rw e (λ h. cc, λ h. ground (arith, h.0))
]

module _ (c : Client) where
  validate_default_scopes_iff :
      (scopes : List String)
      → (validate_default_scopes c scopes ≡ ok tt)
        ↔ All (λ s. contains c.allowed_scopes s ≡ true) scopes
  unfolding validate_default_scopes
  validate_default_scopes_iff [] = (λ _. tt, λ _. refl)
  validate_default_scopes_iff (s ∷ ss) = elim (Bool-cases (contains c.allowed_scopes s)) [
    | inl e ↦ rw e (
      λ h. (refl, (validate_default_scopes_iff ss).0 h),
      λ h. (validate_default_scopes_iff ss).1 h.1,
    )
    | inr e ↦ rw e (λ h. cc, λ h. ground (arith, h.0))
  ]

  -- The test of one grant type, as the loop makes it.
  grant_refused : String → Bool
  grant_refused g = g == "" || g == grant_type_client_credentials && c.type == client_type_public

  grant_refused_iff :
      (g : String)
      → (grant_refused g ≡ false)
        ↔ ((g ≢ "") × (c.type ≡ client_type_public → g ≢ grant_type_client_credentials))
  unfolding grant_refused
  grant_refused_iff g = (
    λ h. (
      ground (arith, eq_iff g ""),
      λ p. ground (arith, eq_iff c.type client_type_public, eq_iff g grant_type_client_credentials),
    ),
    λ h. elim (Bool-cases (c.type == client_type_public)) [
      | inl e ↦ ground (
        arith,
        eq_iff g "",
        eq_iff g grant_type_client_credentials,
        h.0,
        h.1 ((eq_iff c.type client_type_public).0 e),
      )
      | inr e ↦ ground (arith, eq_iff g "", h.0)
    ],
  )

  validate_grant_types-cons :
      (g : String) (gs : List String)
      → (validate_grant_types c (g ∷ gs) ≡ ok tt)
        ↔ ((grant_refused g ≡ false) × (validate_grant_types c gs ≡ ok tt))
  unfolding validate_grant_types grant_refused
  validate_grant_types-cons g gs = (λ h. (ground arith, ground arith), λ h. ground arith)

  validate_grant_types_iff :
      (gs : List String)
      → (validate_grant_types c gs ≡ ok tt)
        ↔ All (λ g. (g ≢ "") × (c.type ≡ client_type_public → g ≢ grant_type_client_credentials)) gs
  unfolding validate_grant_types
  validate_grant_types_iff [] = (λ _. tt, λ _. refl)
  validate_grant_types_iff (g ∷ gs) = (
    λ h.
        let (p, q) = (validate_grant_types-cons g gs).0 h in
        ((grant_refused_iff g).0 p, (validate_grant_types_iff gs).0 q),
    λ h.
        (validate_grant_types-cons g gs).1
          ((grant_refused_iff g).1 h.0, (validate_grant_types_iff gs).1 h.1),
  )

refuse-eq-ok : (b : Bool) (e : Error) → (refuse b e ≡ ok tt) ↔ (b ≡ false)
refuse-eq-ok true e = (λ h. cc, λ h. cc)
refuse-eq-ok false e = (λ h. refl, λ h. refl)

neither_refused : (s a b : String) → ((s != a && s != b) ≡ false) ↔ ((s ≡ a) ⊎ (s ≡ b))
neither_refused s a b =
    (λ h. ground (arith, eq_iff s a, eq_iff s b), λ h. ground (arith, eq_iff s a, eq_iff s b))

All-append_parts :
    {A : Type 0} (P : A → Type 0) (xs ys : List A) → All P (xs ++ ys) → All P xs × All P ys
All-append_parts P [] ys h = (tt, h)
All-append_parts P (x ∷ xs) ys (p, h) = let (a, b) = All-append_parts P xs ys h in ((p, a), b)

All-both :
    {A : Type 0} (P Q : A → Type 0) (xs : List A) → All P xs → All Q xs → All (λ x. P x × Q x) xs
All-both P Q [] h k = tt
All-both P Q (x ∷ xs) (p, h) (q, k) = ((p, q), All-both P Q xs h k)

-- The checks of `Validate`, each by itself.
abbrev Passes : (String → Bool) → Client → Type 0
Passes is_absolute_uri c =
    ((c.client_id == "") ≡ false)
    × ((c.type != client_type_confidential && c.type != client_type_public) ≡ false)
    × (validate_uris is_absolute_uri c.redirect_uris ≡ ok tt)
    × (validate_scope_tokens (c.allowed_scopes ++ c.default_scopes) ≡ ok tt)
    × (validate_default_scopes c c.default_scopes ≡ ok tt)
    × (validate_grant_types c c.allowed_grant_types ≡ ok tt)
    × ((c.refresh_token_usage != refresh_token_usage_reuse
          && c.refresh_token_usage != refresh_token_usage_onetime)
        ≡ false)
    × ((c.refresh_token_expiration != refresh_token_expiration_sliding
          && c.refresh_token_expiration != refresh_token_expiration_absolute)
        ≡ false)

validate-Passes :
    (is_absolute_uri : String → Bool) (c : Client)
    → validate is_absolute_uri c ≡ ok tt
    → Passes is_absolute_uri c
unfolding validate
validate-Passes is_absolute_uri c h = ground arith

Passes-validate :
    (is_absolute_uri : String → Bool) (c : Client)
    → Passes is_absolute_uri c
    → validate is_absolute_uri c ≡ ok tt
unfolding validate
Passes-validate is_absolute_uri c (a, b, u, s, d, g, r, x) = rw (a, b, u, s, d, g, r, x)

-- A client registration passes validation exactly when it is consistent: it has a client id and a
-- known type, its redirection URIs are absolute and without a fragment, its scopes are valid
-- tokens, its default scopes are allowed scopes, no grant type is empty, a public client has no
-- client credentials grant, and the refresh token settings are known ones.
pub validate_iff :
    (is_absolute_uri : String → Bool) (c : Client)
    → (validate is_absolute_uri c ≡ ok tt) ↔ IsConsistent is_absolute_uri c
validate_iff is_absolute_uri c = (
  λ h.
      let p = validate-Passes is_absolute_uri c h in
      let (allowed, defaults) =
        All-append_parts (λ t. is_valid_scope_token t ≡ true) c.allowed_scopes c.default_scopes
          ((validate_scope_tokens_iff _).0 p.3) in
      record {
        named = ground (arith, eq_iff c.client_id "", p.0);
        typed = (neither_refused _ _ _).0 p.1;
        uris = (validate_uris_iff is_absolute_uri _).0 p.2;
        allowed = allowed;
        defaults = All-both _ _ c.default_scopes defaults ((validate_default_scopes_iff c _).0 p.4);
        grants = (validate_grant_types_iff c _).0 p.5;
        usage = (neither_refused _ _ _).0 p.6;
        expiration = (neither_refused _ _ _).0 p.7;
      },
  λ v. Passes-validate is_absolute_uri c (
    ground (arith, eq_iff c.client_id "", v.named),
    (neither_refused _ _ _).1 v.typed,
    (validate_uris_iff is_absolute_uri _).1 v.uris,
    (validate_scope_tokens_iff _).1 (
        All-append _ c.allowed_scopes c.default_scopes v.allowed
          (All-map _ _ c.default_scopes (λ s p. p.0) v.defaults)),
    (validate_default_scopes_iff c _).1 (All-map _ _ c.default_scopes (λ s p. p.1) v.defaults),
    (validate_grant_types_iff c _).1 v.grants,
    (neither_refused _ _ _).1 v.usage,
    (neither_refused _ _ _).1 v.expiration,
  ),
)
