-- ===== src/Memory/Table.antt =====
-- A Go map from identifiers to values: an association list in which `put` replaces the value of a
-- key that is there. Values are copied on the way in and out, as the store's clone functions do.
use go_identity.Common.{
  ℕ, suc, ◌≡◌, refl, String, Bool, List, [], ◌∷◌, Option, none, some, arith, ◌==◌, eq_iff,
  if◌then◌else◌, Bool-cases, inl, inr, subst, eq_of_test,
}

abbrev pub Table : Type 0 → Type 0
Table V = List (String × V)

module _ {V : Type 0} where
  -- `v, ok := m[k]`
  unfoldable pub get : String → Table V → Option V
  get k [] = none
  get k ((j, v) ∷ t) = if j == k then some v else get k t

  -- `m[k] = v`
  unfoldable pub put : String → V → Table V → Table V
  put k v [] = (k, v) ∷ []
  put k v ((j, w) ∷ t) = if j == k then (k, v) ∷ t else (j, w) ∷ put k v t

  -- `delete(m, k)`
  unfoldable pub delete : String → Table V → Table V
  delete k [] = []
  delete k ((j, v) ∷ t) = if j == k then t else (j, v) ∷ delete k t

  -- `for _, v := range m { if p(v) { return v } }`
  unfoldable pub find : (V → Bool) → Table V → Option V
  find p [] = none
  find p ((j, v) ∷ t) = if p v then some v else find p t

  -- `for id, v := range m { if p(v) { delete(m, id) } }`
  unfoldable pub delete_where : (V → Bool) → Table V → Table V
  delete_where p [] = []
  delete_where p ((j, v) ∷ t) = let rest = delete_where p t in if p v then rest else (j, v) ∷ rest

  -- How many values satisfy a test.
  unfoldable pub count_where : (V → Bool) → Table V → ℕ
  count_where p [] = 0
  count_where p ((j, v) ∷ t) = if p v then suc (count_where p t) else count_where p t

  -- The values that satisfy a test, in the order of the table.
  unfoldable pub select : (V → Bool) → Table V → List V
  select p [] = []
  select p ((j, v) ∷ t) = let rest = select p t in if p v then v ∷ rest else rest

  -- Every key stands once.
  abbrev pub IsMap : Table V → Type 0
  IsMap [] = Unit
  IsMap ((k, v) ∷ t) = (get k t ≡ none) × IsMap t

  pub get-put :
      (k j : String) (v : V) (t : Table V)
      → get j (put k v t) ≡ (if k == j then some v else get j t)
  unfolding get put
  get-put k j v [] = refl
  get-put k j v ((i, w) ∷ t) = ground (arith, eq_iff k j, eq_iff i k, eq_iff i j, get-put k j v t)

  pub get-delete :
      (k j : String) (t : Table V)
      → IsMap t
      → get j (delete k t) ≡ (if k == j then none else get j t)
  unfolding get delete
  get-delete k j [] h = ground arith
  get-delete k j ((i, w) ∷ t) (p, h) =
      ground (arith, eq_iff k j, eq_iff i k, eq_iff i j, get-delete k j t h)

  -- `get` after `delete_where`: a value that the test does not hold of.
  abbrev pub unless_holds : (V → Bool) → Option V → Option V
  unless_holds p none = none
  unless_holds p (some v) = if p v then none else some v

  pub get-delete_where :
      (p : V → Bool) (j : String) (t : Table V)
      → IsMap t
      → get j (delete_where p t) ≡ unless_holds p (get j t)
  unfolding get delete_where
  get-delete_where p j [] h = refl
  get-delete_where p j ((i, w) ∷ t) (q, h) = elim (Bool-cases (i == j)) [
    | inl e ↦
        let gone : get j t ≡ none = subst (λ k. get k t ≡ none) (eq_of_test i j e) q in
        rw e (ground (arith, gone, get-delete_where p j t h))
    | inr e ↦ ground (arith, get-delete_where p j t h)
  ]

  pub put-IsMap : (k : String) (v : V) (t : Table V) → IsMap t → IsMap (put k v t)
  unfolding put get
  put-IsMap k v [] h = (refl, tt)
  put-IsMap k v ((i, w) ∷ t) (q, h) = elim (Bool-cases (i == k)) [
    | inl e ↦ rw e (subst (λ j. get j t ≡ none) (eq_of_test i k e) q, h)
    | inr e ↦
        rw e (rw (get-put k i v t) (ground (arith, eq_iff k i, eq_iff i k)), put-IsMap k v t h)
  ]

  pub delete-IsMap : (k : String) (t : Table V) → IsMap t → IsMap (delete k t)
  unfolding delete
  delete-IsMap k [] h = tt
  delete-IsMap k ((i, w) ∷ t) (q, h) = elim (Bool-cases (i == k)) [
    | inl e ↦ rw e h
    | inr e ↦ rw e (rw (get-delete k i t h) (ground arith), delete-IsMap k t h)
  ]

  pub delete_where-IsMap : (p : V → Bool) (t : Table V) → IsMap t → IsMap (delete_where p t)
  unfolding delete_where
  delete_where-IsMap p [] h = tt
  delete_where-IsMap p ((i, w) ∷ t) (q, h) = elim (Bool-cases (p w)) [
    | inl e ↦ rw e (delete_where-IsMap p t h)
    | inr e ↦ rw e (rw (get-delete_where p i t h, q) refl, delete_where-IsMap p t h)
  ]
