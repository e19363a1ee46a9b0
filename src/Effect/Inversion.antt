-- ===== src/Effect/Inversion.antt =====
-- What a sequence that returned has done, one step at a time: each lemma takes the first step off.
use go_identity.Common.{◌∙◌, suc, ◌≢◌, ℕ, ◌≡◌, refl, ap, Bool, true, false, arith}
use go_identity.Failure.{Error, Result, ok, err}
use go_identity.Effect.{
  World, M, pure, lift, read, write, continue, ◌>>=◌, ◌>>◌, refuse_if, map_error, when, recover,
  recovered, now, Env, time,
}

module _ {S A B : Type 0} where
  continue-eq-ok :
      (p : Result A × World S) (f : A → M S B) {b : B} {w' : World S}
      → continue p.0 f p.1 ≡ (ok b, w')
      → (a : A) × (v : World S) × (p ≡ (ok a, v)) × (f a v ≡ (ok b, w'))
  continue-eq-ok (ok a, v) f h = (a, v, refl, h)
  continue-eq-ok (err e, v) f h = cc

  pub >>=-eq-ok :
      (m : M S A) (f : A → M S B) (w : World S) {b : B} {w' : World S}
      → (m >>= f) w ≡ (ok b, w')
      → (a : A) × (v : World S) × (m w ≡ (ok a, v)) × (f a v ≡ (ok b, w'))
  unfolding ◌>>=◌
  >>=-eq-ok m f w h = continue-eq-ok (m w) f h

  -- The same for the result alone.
  pub >>=-ok :
      (m : M S A) (f : A → M S B) (w : World S) {b : B}
      → ((m >>= f) w).0 ≡ ok b
      → (a : A) × (v : World S) × (m w ≡ (ok a, v)) × ((f a v).0 ≡ ok b)
  >>=-ok m f w h =
      let (a, v, p, q) = >>=-eq-ok m f w (ap (λ o. (o, ((m >>= f) w).1)) h) in
      (a, v, p, ap (λ r. r.0) q)

  continue_same :
      (r : Result A) (f : A → M S B) (w : World S) {b : B} {w' : World S}
      → continue r f w ≡ (ok b, w')
      → (a : A) × (r ≡ ok a) × (f a w ≡ (ok b, w'))
  continue_same (ok a) f w h = (a, refl, h)
  continue_same (err e) f w h = cc

  pub lift-then :
      (r : Result A) (f : A → M S B) (w : World S) {b : B} {w' : World S}
      → (lift r >>= f) w ≡ (ok b, w')
      → (a : A) × (r ≡ ok a) × (f a w ≡ (ok b, w'))
  unfolding ◌>>=◌
  lift-then r f w h = continue_same r f w h

  pub read-then :
      (q : S → Result A) (f : A → M S B) (w : World S) {b : B} {w' : World S}
      → (read q >>= f) w ≡ (ok b, w')
      → (a : A) × (q w.db ≡ ok a) × (f a w ≡ (ok b, w'))
  unfolding ◌>>=◌
  read-then q f w h = continue_same (q w.db) f w h

  pub write-then :
      (q : S → Result A × S) (f : A → M S B) (w : World S) {b : B} {w' : World S}
      → (write q >>= f) w ≡ (ok b, w')
      → (a : A) × ((q w.db).0 ≡ ok a) × (f a (record w { db = (q w.db).1 }) ≡ (ok b, w'))
  unfolding ◌>>=◌
  write-then q f w h = continue_same (q w.db).0 f (record w { db = (q w.db).1 }) h

  pub map_error-then :
      (g : Error → Error) (m : M S A) (f : A → M S B) (w : World S) {b : B} {w' : World S}
      → (map_error g m >>= f) w ≡ (ok b, w')
      → (m >>= f) w ≡ (ok b, w')
  unfolding ◌>>=◌ map_error
  map_error-then g m f w h = ground arith

module _ {S B : Type 0} where
  pub refuse_if-then :
      (refused : Bool) (e : Error) (k : M S B) (w : World S) {b : B} {w' : World S}
      → (refuse_if refused e >> k) w ≡ (ok b, w')
      → (refused ≡ false) × (k w ≡ (ok b, w'))
  unfolding ◌>>=◌ refuse_if
  refuse_if-then true e k w h = cc
  refuse_if-then false e k w h = (refl, h)

  -- A step that never returns is not taken by a sequence that returned.
  pub when_failing-then :
      (b : Bool) (m : M S (Unit {0})) (k : M S B) (w : World S) {x : B} {w' : World S}
      → ((m w).0 ≢ ok tt)
      → (when b m >> k) w ≡ (ok x, w')
      → (b ≡ false) × (k w ≡ (ok x, w'))
  unfolding ◌>>=◌ when
  when_failing-then true m k w f h =
      let (a, v, p, q) = >>=-eq-ok m (λ _. k) w h in absurd (f (ap (λ r. r.0) p))
  when_failing-then false m k w f h = (refl, h)

  -- Where every error is passed on as an error, a sequence that returned has done the step itself.
  pub recover_failing-then :
      (m : M S (Unit {0})) (f : Error → M S (Unit {0})) (k : M S B) (w : World S) {x : B}
      {w' : World S}
      → ((e : Error) (v : World S) → (f e v).0 ≢ ok tt)
      → (recover m f >> k) w ≡ (ok x, w')
      → ((m w).0 ≡ ok tt) × (k (m w).1 ≡ (ok x, w'))
  unfolding ◌>>=◌ recover
  recover_failing-then m f k w {x = x} {w' = w'} never h = go (m w).0 (m w).1 h
    where
      go :
          (r : Result (Unit {0})) (v : World S)
          → (recovered f r >> k) v ≡ (ok x, w')
          → (r ≡ ok tt) × (k v ≡ (ok x, w'))
      go (ok u) v h' = (refl, h')
      go (err e) v h' =
          let (a, u, p, q) = >>=-eq-ok (f e) (λ _. k) v h' in absurd (never e v (ap (λ r. r.0) p))

module _ {S B : Type 0} where
  pub now-then :
      (env : Env) (f : ℕ → M S B) (w : World S) {x : B} {w' : World S}
      → (now env >>= f) w ≡ (ok x, w')
      → f (time env w) (record w { ticks = suc w.ticks }) ≡ (ok x, w')
  unfolding ◌>>=◌ now
  now-then env f w h = h

module _ {S A : Type 0} where
  pub pure-eq :
      (a : A) (w : World S) {b : A} {w' : World S} → pure a w ≡ (ok b, w') → (a ≡ b) × (w ≡ w')
  unfolding pure
  pure-eq a w h = (cc, cc)

  pub map_error-ok :
      (g : Error → Error) (m : M S A) (w : World S) {b : A} {w' : World S}
      → map_error g m w ≡ (ok b, w')
      → m w ≡ (ok b, w')
  unfolding map_error
  map_error-ok g m w h = ground arith

pub pair-eq : {A B : Type 0} (p : A × B) {a : A} {b : B} → p.0 ≡ a → p.1 ≡ b → p ≡ (a, b)
pair-eq p {a = a} e f = ap (λ x. (x, p.1)) e ∙ ap (λ y. (a, y)) f
