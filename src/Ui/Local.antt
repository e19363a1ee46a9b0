-- ===== src/Ui/Local.antt =====
-- Where a sign-in may return to.
use go_identity.Common.{
  ℕ, String, ◌≡◌, refl, ◌≢◌, sym, ap, ◌∙◌, ◌⊎◌, inl, inr, true, false, ◌||◌, List, [], ◌∷◌, Option,
  none, some, ◌==◌, arith, Bool-cases, any, not, All, ||-false, &&-true, not-false, eq_of_test,
  bytes,
}
use go_identity.Ui.{
  Ui, url, path_home, safe_return_to, has_local_start, is_refused_byte, has_no_host,
}

-- The text is a slash, alone or followed by a byte that is neither a slash nor a backslash.
abbrev pub StartsLocally : List ℕ → Type 0
StartsLocally [] = ⊥
StartsLocally (c ∷ []) = c ≡ b'/'
StartsLocally (c ∷ d ∷ more) = (c ≡ b'/') × (d ≢ b'/') × (d ≢ b'\\')

-- The byte is no backslash, carriage return, line feed or tab.
abbrev pub IsPlain : ℕ → Type 0
IsPlain b = (b ≢ b'\\') × (b ≢ b'\r') × (b ≢ b'\n') × (b ≢ b'\t')

starts_locally : (bs : List ℕ) → has_local_start bs ≡ true → StartsLocally bs
starts_locally [] h = cc
starts_locally (c ∷ []) h = ground arith
starts_locally (c ∷ d ∷ more) h = ground arith

true≢false : true ≢ false
true≢false h = cc

byte-IsPlain : (b : ℕ) → is_refused_byte b ≡ false → IsPlain b
byte-IsPlain b h = (
  λ e. absurd (ground arith),
  λ e. absurd (ground arith),
  λ e. absurd (ground arith),
  λ e. absurd (ground arith),
)

bytes-IsPlain : (bs : List ℕ) → any is_refused_byte bs ≡ false → All IsPlain bs
bytes-IsPlain [] h = tt
bytes-IsPlain (b ∷ bs) h =
    let (plain, rest) = ||-false (is_refused_byte b) _ h in
    (byte-IsPlain b plain, bytes-IsPlain bs rest)

StartsLocally-test : (bs : List ℕ) → StartsLocally bs → has_local_start bs ≡ true
StartsLocally-test [] h = absurd h
StartsLocally-test (c ∷ []) h = ground arith
StartsLocally-test (c ∷ d ∷ more) (p, q, r) = ground arith

IsPlain-byte : (b : ℕ) → IsPlain b → is_refused_byte b ≡ false
IsPlain-byte b (p, q, r, s) = ground arith

IsPlain-bytes : (bs : List ℕ) → All IsPlain bs → any is_refused_byte bs ≡ false
IsPlain-bytes [] h = refl
IsPlain-bytes (b ∷ bs) (p, h) = ground (arith, IsPlain-byte b p, IsPlain-bytes bs h)

module _ {S : Type 0} (u : Ui S) where
  -- A path of this site: it starts with a single slash, its bytes are plain, and `url.Parse` finds no
  -- scheme and no host.
  pub record IsLocal (return_to : String) : Type 0 where
    pub start : StartsLocally (bytes return_to)
    pub plain : All IsPlain (bytes return_to)
    pub parsed : u.parse_url return_to ≡ some ("", "")

  no_host : (o : Option (String × String)) → has_no_host o ≡ true → o ≡ some ("", "")
  no_host none h = cc
  no_host (some (scheme, host)) h =
      let (a, b) = &&-true (scheme == "") (host == "") h in
      let no_scheme : scheme ≡ "" = eq_of_test _ _ a in
      let no_name : host ≡ "" = eq_of_test _ _ b in cc

  IsLocal-start :
      (return_to : String)
      → IsLocal return_to
      → (not (has_local_start (bytes return_to)) || any is_refused_byte (bytes return_to)) ≡ false
  IsLocal-start return_to h =
      ground (
        arith,
        StartsLocally-test (bytes return_to) h.start,
        IsPlain-bytes (bytes return_to) h.plain,
      )

  -- A sign-in returns to the given address exactly if that is a path of this site, and otherwise to
  -- the home page.
  pub safe_return_to-IsLocal :
      (return_to : String)
      → ((safe_return_to u return_to ≡ return_to) × IsLocal return_to)
        ⊎ ((safe_return_to u return_to ≡ url u path_home) × ¬ IsLocal return_to)
  unfolding safe_return_to
  safe_return_to-IsLocal return_to =
      elim (Bool-cases
        (not (has_local_start (bytes return_to)) || any is_refused_byte (bytes return_to))) [
          | inl e ↦ inr (rw e refl, λ h. absurd (true≢false (sym e ∙ IsLocal-start return_to h)))
          | inr e ↦ elim (Bool-cases (has_no_host (u.parse_url return_to))) [
            | inl e' ↦
                let (start, plain) = ||-false _ _ e in
                inl (
                  rw (e, e') refl,
                  record {
                    start = starts_locally _ (not-false _ start);
                    plain = bytes-IsPlain _ plain;
                    parsed = no_host _ e';
                  },
                )
            | inr e' ↦
                inr (rw (e, e') refl, λ h. absurd (true≢false (sym (ap has_no_host h.parsed) ∙ e')))
          ]
        ]
