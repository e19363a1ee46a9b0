-- ===== src/Session/Signed.antt =====
-- What a session cookie proves.

use go_identity.Common.{
  zero, ℕ, suc, String, ◌≡◌, refl, ◌≢◌, ◌∙◌, sym, ap, false, List, [], ◌∷◌, Option, none, some,
  ◌==◌, arith, eq_iff, eq_refl, Bool-cases, inl, inr, pick, ◌/◌, ◌%◌, ◌*◌, ◌+◌, if◌then◌else◌,
  eq_of_test,
}
use go_identity.Common.Cut.{cut_dot, NoDot, no_dot-NoDot, cut_dot-append, append-NoDot}
use go_identity.Effect.{unix}
use go_identity.Security.{base64_encode, equal}
use go_identity.Session.{
  Session, Manager, Sender, Cookie, cookie_value, sign, session_value, create, get, leb_ℤ, verified,
  read_cookie, unexpired, decoded,
}

pick-NoDot : (alphabet : String) (n : ℕ) → NoDot alphabet → NoDot (pick alphabet n)
pick-NoDot String.[] n h = tt
pick-NoDot (String.◌∷◌ c s) zero (p, h) = (p, tt)
pick-NoDot (String.◌∷◌ c s) (suc n) (p, h) = pick-NoDot s n h

digits : String
digits = "ABCDEFGHIJKLMNOPQRSTUVWXYZabcdefghijklmnopqrstuvwxyz0123456789-_"

digits-NoDot : NoDot digits
unfolding digits
digits-NoDot = no_dot-NoDot digits refl

digit-NoDot : (n : ℕ) → NoDot (pick digits n)
digit-NoDot n = pick-NoDot digits n digits-NoDot

-- No dot stands in an encoded text.
base64_encode-NoDot : (xs : List ℕ) → NoDot (base64_encode xs)
unfolding base64_encode digits
base64_encode-NoDot [] = tt
base64_encode-NoDot (a ∷ []) = append-NoDot _ _ (digit-NoDot (a / 4)) (digit-NoDot (a % 4 * 16))
base64_encode-NoDot (a ∷ b ∷ []) =
    append-NoDot _ _ (digit-NoDot (a / 4))
      (append-NoDot _ _ (digit-NoDot (a % 4 * 16 + b / 16)) (digit-NoDot (b % 16 * 4)))
base64_encode-NoDot (a ∷ b ∷ c ∷ xs) = append-NoDot _ _ (digit-NoDot (a / 4)) (
    append-NoDot _ _ (digit-NoDot (a % 4 * 16 + b / 16)) (
      append-NoDot _ _ (digit-NoDot (b % 16 * 4 + c / 64))
        (append-NoDot _ _ (digit-NoDot (c % 64)) (base64_encode-NoDot xs))))

module _ (m : Manager) where
  -- The signed part of a cookie is found again, and its signature holds.
  verified-session_value :
      (s : Session) (later : ℕ)
      → m.codec.base64_decode (base64_encode (m.codec.marshal s)) ≡ some (m.codec.marshal s)
      → m.codec.unmarshal (m.codec.marshal s) ≡ some s
      → s.user_id ≢ ""
      → verified m later (cut_dot (session_value m s))
        ≡ (if leb_ℤ s.expires_at (unix later) then none else some s)
  unfolding session_value
  verified-session_value s later decodes parses named =
      let payload = base64_encode (m.codec.marshal s) in
      rw (cut_dot-append payload (sign m "session" payload) (base64_encode-NoDot _)) (
        rw (eq_refl (sign m "session" payload), decodes, parses)
          (ground (arith, eq_iff s.user_id "")))

  -- A cookie that the manager created gives back its session until the session expires, and none
  -- from then on, provided that JSON and base64 decode what they encode for this session, that the
  -- user has an identifier, and that the first cookie of the session's name is this one.
  pub create-get :
      (now later : ℕ) (user_id security_stamp : String) (s : Session) (c : Cookie) (r : Sender)
      → create m now user_id security_stamp ≡ (s, c)
      → m.codec.base64_decode (base64_encode (m.codec.marshal s)) ≡ some (m.codec.marshal s)
      → m.codec.unmarshal (m.codec.marshal s) ≡ some s
      → user_id ≢ ""
      → cookie_value m.opts.cookie_name r.cookies ≡ some c.value
      → get m later r ≡ (if leb_ℤ s.expires_at (unix later) then none else some s)
  unfolding get create
  create-get now later user_id security_stamp s c r made decodes parses named sent =
      let same : s.user_id ≡ user_id = ap (λ p. p.0.user_id) (sym made) in
      let value : c.value ≡ session_value m s = cc in
      rw (sent, value) (verified-session_value s later decodes parses (λ e. named (sym same ∙ e)))

  not_test : {a b : String} → (a == b) ≡ false → a ≢ b
  not_test {a} {b} e h = absurd (grind (arith, eq_iff a b))

  unexpired-some :
      (t : ℕ) (o : Option Session) (s : Session)
      → unexpired m t o ≡ some s
      → (o ≡ some s) × (s.user_id ≢ "") × (leb_ℤ s.expires_at (unix t) ≡ false)
  unexpired-some t none s h = cc
  unexpired-some t (some u) s h = elim (Bool-cases (u.user_id == "")) [
    | inl e ↦ absurd (ground arith)
    | inr e ↦ elim (Bool-cases (leb_ℤ u.expires_at (unix t))) [
      | inl e' ↦ absurd (ground arith)
      | inr e' ↦
          let same : some u ≡ some s = ground arith in
          let equal_sessions : u ≡ s = cc in
          (
            same,
            λ e2. not_test e (ap (λ v. v.user_id) equal_sessions ∙ e2),
            ap (λ v. leb_ℤ v.expires_at (unix t)) (sym equal_sessions) ∙ e',
          )
    ]
  ]

  decoded-some :
      (o : Option (List ℕ)) (s : Session)
      → decoded m o ≡ some s
      → (d : List ℕ) × (o ≡ some d) × (m.codec.unmarshal d ≡ some s)
  decoded-some none s h = cc
  decoded-some (some d) s h = (d, refl, h)

  -- A cookie value that proves a session at a time.
  pub record IsProof (t : ℕ) (value : String) (s : Session) : Type 0 where
    pub payload : String
    pub content : List ℕ
    pub signed : cut_dot value ≡ some (payload, sign m "session" payload)
    pub encoded : m.codec.base64_decode payload ≡ some content
    pub parsed : m.codec.unmarshal content ≡ some s
    pub named : s.user_id ≢ ""
    pub unexpired : leb_ℤ s.expires_at (unix t) ≡ false

  verified-IsProof :
      (t : ℕ) (value : String) (parts : Option (String × String)) (s : Session)
      → cut_dot value ≡ parts
      → verified m t parts ≡ some s
      → IsProof t value s
  verified-IsProof t value none s e h = cc
  verified-IsProof t value (some (payload, signature)) s e h =
      elim (Bool-cases (equal signature (sign m "session" payload))) [
        | inl e' ↦
            let (found, named, live) = unexpired-some t _ s (ground arith) in
            let (content, encoded, parsed) = decoded-some (m.codec.base64_decode payload) s found in
            record {
              payload = payload;
              content = content;
              signed = e ∙ ap (λ g. some (payload, g)) (eq_of_test _ _ e');
              encoded = encoded;
              parsed = parsed;
              named = named;
              unexpired = live;
            }
        | inr e' ↦ absurd (ground arith)
      ]

  read_cookie-IsProof :
      (t : ℕ) (o : Option String) (s : Session)
      → read_cookie m t o ≡ some s
      → (value : String) × (o ≡ some value) × IsProof t value s
  read_cookie-IsProof t none s h = cc
  read_cookie-IsProof t (some value) s h =
      (value, refl, verified-IsProof t value (cut_dot value) s refl h)

  -- A session is accepted only if the first cookie of the session's name is cut at its first dot
  -- into a payload and the signature of that payload, and the payload decodes to that session, which
  -- names a user and has not expired.
  pub get_sound :
      (t : ℕ) (r : Sender) (s : Session)
      → get m t r ≡ some s
      → (value : String) × (cookie_value m.opts.cookie_name r.cookies ≡ some value)
        × IsProof t value s
  unfolding get
  get_sound t r s h = read_cookie-IsProof t (cookie_value m.opts.cookie_name r.cookies) s h
