-- ===== src/Identity/Scope/Compare.antt =====
-- Comparison of scopes.
use go_identity.Common.{
  ◌+◌, ◌≤◌, String, ◌≡◌, refl, sym, ◌≢◌, ◌↔◌, inl, inr, true, false, List, [], ◌∷◌, arith, ◌==◌,
  eq_iff, all, IsDistinct, contains, length, Bool-cases, if◌then◌else◌, all→All, All-contains,
}
use go_identity.Identity.Scope.{scopes_equal}

-- The list without the first occurrence of a text.
erase : String → List String → List String
erase s [] = []
erase s (x ∷ xs) = if x == s then xs else x ∷ erase s xs

length-erase :
    (s : String) (xs : List String) → contains xs s ≡ true → length (erase s xs) + 1 ≡ length xs
unfolding erase
length-erase s [] h = absurd (ground arith)
length-erase s (x ∷ xs) h = ground (arith, length-erase s xs)

contains-erase :
    (s t : String) (xs : List String)
    → (s == t) ≡ false
    → contains xs t ≡ true
    → contains (erase s xs) t ≡ true
unfolding erase
contains-erase s t [] n h = h
contains-erase s t (x ∷ xs) n h =
    ground (arith, eq_iff x s, eq_iff x t, eq_iff s t, contains-erase s t xs n)

all-erase :
    (s : String) (xs ys : List String)
    → contains ys s ≡ false
    → all (contains xs) ys ≡ true
    → all (contains (erase s xs)) ys ≡ true
all-erase s xs [] n h = refl
all-erase s xs (y ∷ ys) n h =
    ground (arith, eq_iff s y, eq_iff y s, contains-erase s y xs, all-erase s xs ys)

-- Distinct texts that are all in a list are no more than the list.
length-le_of_distinct :
    (xs ys : List String) → IsDistinct ys → all (contains xs) ys ≡ true → length ys ≤ length xs
length-le_of_distinct xs [] d h = omega arith
length-le_of_distinct xs (y ∷ ys) (n, d) h = omega (
  arith,
  length-erase y xs (ground arith),
  length-le_of_distinct (erase y xs) ys d (all-erase y xs ys n (ground arith)),
)

all-contains_of_agree :
    (xs ys zs : List String)
    → ((s : String) → contains xs s ≡ contains ys s)
    → all (contains ys) zs ≡ true
    → all (contains xs) zs ≡ true
all-contains_of_agree xs ys [] f h = refl
all-contains_of_agree xs ys (z ∷ zs) f h = ground (arith, f z, all-contains_of_agree xs ys zs f)

all-contains-cons :
    (y : String) (xs zs : List String)
    → all (contains xs) zs ≡ true
    → all (contains (y ∷ xs)) zs ≡ true
all-contains-cons y xs [] h = refl
all-contains-cons y xs (z ∷ zs) h = ground (arith, all-contains-cons y xs zs)

all-contains_self : (xs : List String) → all (contains xs) xs ≡ true
all-contains_self [] = refl
all-contains_self (x ∷ xs) =
    ground (arith, eq_iff x x, all-contains-cons x xs xs (all-contains_self xs))

contains_of_all :
    (xs ys : List String) (s : String)
    → all (contains xs) ys ≡ true
    → contains ys s ≡ true
    → contains xs s ≡ true
contains_of_all xs ys s h e =
    All-contains (λ t. contains xs t ≡ true) ys s (all→All (contains xs) ys h) e

-- Of two lists that name no scope twice, the comparison is true exactly when every scope is in
-- both lists or in neither, in whatever order they stand.
pub scopes_equal_iff :
    (a b : List String)
    → IsDistinct a
    → IsDistinct b
    → (scopes_equal a b ≡ true) ↔ ((s : String) → contains a s ≡ contains b s)
unfolding scopes_equal
scopes_equal_iff a b da db = (agree, equal)
  where
    agree : scopes_equal a b ≡ true → (s : String) → contains a s ≡ contains b s
    agree h s = elim (Bool-cases (contains b s)) [
      | inl e ↦ ground (arith, contains_of_all a b s (ground arith) e)
      | inr e ↦ elim (Bool-cases (contains a s)) [
        | inl k ↦
            absurd
              (omega (arith, ap_length, length-le_of_distinct a (s ∷ b) (e, db) (ground arith)))
        | inr k ↦ ground arith
      ]
    ]
      where
        ap_length : length a ≡ length b
        ap_length = ground arith

    equal : ((s : String) → contains a s ≡ contains b s) → scopes_equal a b ≡ true
    equal f =
        let inside = all-contains_of_agree a b b f (all-contains_self b) in
        let outside = all-contains_of_agree b a a (λ s. sym (f s)) (all-contains_self a) in
        ground
          (arith, inside, length-le_of_distinct a b db inside, length-le_of_distinct b a da outside)

-- A repeated scope in the second list hides a scope that only the first list has: the comparison
-- is true though the lists do not contain the same scopes.
pub scopes_equal_repeated :
    (x y : String)
    → x ≢ y
    → (scopes_equal (x ∷ y ∷ []) (x ∷ x ∷ []) ≡ true)
      × (contains (x ∷ y ∷ []) y ≡ true)
      × (contains (x ∷ x ∷ []) y ≡ false)
unfolding scopes_equal
scopes_equal_repeated x y h =
    (ground (arith, eq_iff x x), ground (arith, eq_iff y y), ground (arith, eq_iff x y))
