-- ===== src/Effect.antt =====
-- Code that reads and writes a store, reads the clock, draws random bytes and sends mail, and may
-- return an error. What was done before an error stays done, so the world comes back beside it.
pub mod Inversion
use go_identity.Common.{
  sub_ℕ, ◌/◌, ℤ, ℕ, suc, ◌-◌, ◌%◌, ◌≡◌, refl, String, List, ◌++◌, [], ◌∷◌, Bool, true, false,
  Option, none, some, arith, if◌then◌else◌,
}
use go_identity.Failure.{StoreError, Error, Result, ok, err, store}

-- `Message` of pkg/mail, without its HTML alternative.
pub record Message : Type 0 where
  pub to : String
  pub subject : String
  pub text : String

-- What stands outside the code: the clock and the randomness at their n-th reading, the hash
-- function, and the Unicode and parsing functions of Go's library.
pub record Env : Type 0 where
  pub clock : ℕ → ℕ
  pub entropy : ℕ → ℕ → List ℕ
  pub sha256 : List ℕ → List ℕ
  pub trim_space : String → String
  pub to_lower : String → String
  pub equal_fold : String → String → Bool
  pub parse_address : String → Option String
  pub parse_basic_auth : String → Option (String × String)
  pub query_unescape : String → Option String
  pub itoa : ℤ → String
  pub url_encode : List (String × List String) → String

-- The world over a store of type `S`: its content, how often the clock and the random source were
-- read, and the mail sent so far, newest first.
pub record World (S : Type 0) : Type 0 where
  pub db : S
  pub ticks : ℕ
  pub drawn : ℕ
  pub sent : List Message

abbrev pub M : Type 0 → Type 0 → Type 0
M S A = World S → Result A × World S

module _ {S A : Type 0} where
  unfoldable pub pure : A → M S A
  pure a w = (ok a, w)

  unfoldable pub fail : Error → M S A
  fail e w = (err e, w)

  unfoldable pub lift : Result A → M S A
  lift r w = (r, w)

  -- The result of a call as a value, to inspect its error.
  unfoldable pub attempt : M S A → M S (Result A)
  attempt m w = (ok (m w).0, (m w).1)

  -- A read of the store.
  unfoldable pub read : (S → Result A) → M S A
  read q w = (q w.db, w)

  -- A call of the store that may change it.
  unfoldable pub write : (S → Result A × S) → M S A
  write q w = ((q w.db).0, record w { db = (q w.db).1 })

module _ {S A B : Type 0} where
  abbrev pub continue : Result A → (A → M S B) → M S B
  continue (ok a) f w = f a w
  continue (err e) f w = (err e, w)

  infixl 10 ◌>>=◌
  -- Opening this opens the actions above.
  unfoldable pub ◌>>=◌ : M S A → (A → M S B) → M S B
  unfolding pure fail lift attempt read write
  ◌>>=◌ m f w = continue (m w).0 f (m w).1

module _ {S B : Type 0} where
  infixl 10 ◌>>◌
  abbrev pub ◌>>◌ : M S (Unit {0}) → M S B → M S B
  m >> k = m >>= λ _. k

module _ {S : Type 0} where
  -- `if refused { return nil, e }`
  unfoldable pub refuse_if : Bool → Error → M S (Unit {0})
  refuse_if true e = fail e
  refuse_if false e = pure tt

  -- The next reading of the clock, in whole milliseconds.
  abbrev pub time : Env → World S → ℕ
  time env w = env.clock w.ticks - env.clock w.ticks % 1_000_000

  -- `opts.Now().UTC().Truncate(time.Millisecond)`; a time is in nanoseconds from Go's zero time.
  unfoldable pub now : Env → M S ℕ
  now env w = (ok (time env w), record w { ticks = suc w.ticks })

  -- `opts.Now()`
  unfoldable pub clock_reading : Env → M S ℕ
  clock_reading env w = (ok (env.clock w.ticks), record w { ticks = suc w.ticks })

  -- `rand.Read` of n bytes
  unfoldable pub random_bytes : Env → ℕ → M S (List ℕ)
  random_bytes env n w = (ok (env.entropy w.drawn n), record w { drawn = suc w.drawn })

  -- `Mailer.Send`, which may fail; the message counts as handed over all the same.
  unfoldable pub send : (Message → Result (Unit {0})) → Message → M S (Unit {0})
  send deliver m w = (deliver m, record w { sent = m ∷ w.sent })

  -- `if b { m }`
  unfoldable pub when : Bool → M S (Unit {0}) → M S (Unit {0})
  when true m = m
  when false m = pure tt

module _ {S A : Type 0} where
  -- `if err != nil { return nil, f(err) }`
  unfoldable pub map_error : (Error → Error) → M S A → M S A
  unfolding fail pure
  map_error f m w = (relabel (m w).0, (m w).1)
    where
      relabel : Result A → Result A
      relabel (ok a) = ok a
      relabel (err e) = err (f e)

-- `errors.Is(err, store.ErrNotFound)` chooses another error.
abbrev pub not_found_as : Error → Error → Error
not_found_as e (store StoreError.not_found) = e
not_found_as e other_error = other_error

-- `errors.Is(err, store.ErrNotFound)`
abbrev pub is_not_found : Error → Bool
is_not_found (store StoreError.not_found) = true
is_not_found other_error = false

abbrev pub recovered : {S A : Type 0} → (Error → M S A) → Result A → M S A
recovered h (ok a) w = (ok a, w)
recovered h (err e) w = h e w

-- `if err != nil { return h(err) }`
unfoldable pub recover : {S A : Type 0} → M S A → (Error → M S A) → M S A
recover m h w = recovered h (m w).0 (m w).1

-- `if err != nil && !errors.Is(err, store.ErrNotFound) { return err }`
unfoldable pub ignore_not_found : {S : Type 0} → M S (Unit {0}) → M S (Unit {0})
unfolding recover pure fail
ignore_not_found m = recover m (λ e. if is_not_found e then pure tt else fail e)

-- An action whose error is only logged.
unfoldable pub logged : {S A : Type 0} → M S A → M S (Unit {0})
logged m w = (ok tt, (m w).1)

-- `t.Unix()`: whole seconds since 1970.
unfoldable pub unix : ℕ → ℤ
unix t = sub_ℕ (t / 1_000_000_000) 62_135_596_800
