-- ===== src/Memory/Unique.antt =====
-- Tables whose values differ in a field: the hashes and names that the store keeps unique.
use go_identity.Common.{
  ◌≡◌, ◌≢◌, String, Bool, true, false, [], ◌∷◌, none, some, arith, ◌==◌, eq_iff, Bool-cases, inl,
  inr, sym, ap, ◌∙◌, ◌↔◌, ◌⊎◌, Option-cases, eq_of_test,
}
use go_identity.Memory.Table.{
  put-IsMap, delete-IsMap, delete_where-IsMap, Table, get, put, delete, find, delete_where, IsMap,
  get-put, get-delete, get-delete_where,
}

module _ {V : Type 0} where
  -- No two keys hold values with the same field.
  abbrev pub IsUnique : (V → String) → Table V → Type 0
  IsUnique f t = (k j : String) (v w : V) → get k t ≡ some v → get j t ≡ some w → f v ≡ f w → k ≡ j

  -- A search that finds nothing has looked at every value.
  pub find-none :
      (p : V → Bool) (t : Table V) (k : String) (v : V)
      → find p t ≡ none
      → get k t ≡ some v
      → p v ≡ false
  unfolding find get
  find-none p [] k v h g = cc
  find-none p ((j, w) ∷ t) k v h g = elim (Bool-cases (p w)) [
    | inl e ↦ absurd (ground arith)
    | inr e ↦ elim (Bool-cases (j == k)) [
      | inl e' ↦ ground (arith, find-none p t k v)
      | inr e' ↦ ground (arith, find-none p t k v)
    ]
  ]

  pub put-IsUnique :
      (f : V → String) (k : String) (v : V) (t : Table V)
      → IsUnique f t
      → ((j : String) (w : V) → get j t ≡ some w → f w ≡ f v → j ≡ k)
      → IsUnique f (put k v t)
  put-IsUnique f k v t h fresh i j a b p q e = ground (
    arith,
    get-put k i v t,
    get-put k j v t,
    eq_iff k i,
    eq_iff k j,
    fresh i a,
    fresh j b,
    h i j a b,
  )

  pub delete-IsUnique :
      (f : V → String) (k : String) (t : Table V) → IsMap t → IsUnique f t → IsUnique f (delete k t)
  delete-IsUnique f k t m h i j a b p q e =
      ground (arith, get-delete k i t m, get-delete k j t m, h i j a b)

  pub delete_where-IsUnique :
      (f : V → String) (d : V → Bool) (t : Table V)
      → IsMap t
      → IsUnique f t
      → IsUnique f (delete_where d t)
  delete_where-IsUnique f d t m h i j a b p q e = h i j a b (kept i a p) (kept j b q) e
    where
      kept : (i : String) (a : V) → get i (delete_where d t) ≡ some a → get i t ≡ some a
      kept i a p = ground (arith, get-delete_where d i t m)

  -- A table that holds each value under its own identifier, which is not empty, and whose values
  -- differ in a field.
  pub record IsIndexed (ident f : V → String) (t : Table V) : Type 0 where
    pub map : IsMap t
    pub keyed : (k : String) (v : V) → get k t ≡ some v → (ident v ≡ k) × (k ≢ "")
    pub unique : IsUnique f t

  pub empty-IsIndexed : (ident f : V → String) → IsIndexed ident f []
  unfolding get
  empty-IsIndexed ident f = record {
    map = tt;
    keyed = λ k v h. absurd (ground arith);
    unique = λ k j v w p q e. absurd (ground arith);
  }

  -- A value may be put under its identifier if a search finds no other value with its field.
  pub put-IsIndexed :
      (ident f : V → String) (v : V) (t : Table V) (p : V → Bool)
      → IsIndexed ident f t
      → ident v ≢ ""
      → find p t ≡ none
      → ((w : V) → f w ≡ f v → ident w ≢ "" → p w ≡ false → ident w ≡ ident v)
      → IsIndexed ident f (put (ident v) v t)
  put-IsIndexed ident f v t p h named none_found same = record {
    map = put-IsMap (ident v) v t h.map;
    keyed = λ k w g. ground (arith, get-put (ident v) k v t, eq_iff (ident v) k, h.keyed k w);
    unique = put-IsUnique f (ident v) v t h.unique fresh;
  }
    where
      fresh : (j : String) (w : V) → get j t ≡ some w → f w ≡ f v → j ≡ ident v
      fresh j w g e =
          let (k, m) = h.keyed j w g in sym k ∙ same w e (rw k m) (find-none p t j w none_found g)

  pub delete-IsIndexed :
      (ident f : V → String) (k : String) (t : Table V)
      → IsIndexed ident f t
      → IsIndexed ident f (delete k t)
  delete-IsIndexed ident f k t h = record {
    map = delete-IsMap k t h.map;
    keyed = λ j w g. h.keyed j w (ground (arith, get-delete k j t h.map));
    unique = delete-IsUnique f k t h.map h.unique;
  }

  pub delete_where-IsIndexed :
      (ident f : V → String) (d : V → Bool) (t : Table V)
      → IsIndexed ident f t
      → IsIndexed ident f (delete_where d t)
  delete_where-IsIndexed ident f d t h = record {
    map = delete_where-IsMap d t h.map;
    keyed = λ j w g. h.keyed j w (ground (arith, get-delete_where d j t h.map));
    unique = delete_where-IsUnique f d t h.map h.unique;
  }

  -- A value may be replaced by one with the same identifier and field.
  pub replace-IsIndexed :
      (ident f : V → String) (k : String) (v w : V) (t : Table V)
      → IsIndexed ident f t
      → get k t ≡ some v
      → ident w ≡ ident v
      → f w ≡ f v
      → IsIndexed ident f (put k w t)
  replace-IsIndexed ident f k v w t h g i e = record {
    map = put-IsMap k w t h.map;
    keyed = λ j x q. ground (arith, get-put k j w t, eq_iff k j, h.keyed k v, h.keyed j x);
    unique = put-IsUnique f k w t h.unique (λ j x q e'. h.unique j k x v q g (e' ∙ e));
  }

  other_key :
      (t : Table V) (j k : String) (v : V) → get j t ≡ none → get k t ≡ some v → (j == k) ≡ false
  other_key t j k v q g = elim (Bool-cases (j == k)) [
    | inl e ↦
        let same : get j t ≡ get k t = ap (λ i. get i t) (eq_of_test j k e) in absurd (ground arith)
    | inr e ↦ e
  ]

  pub find-some :
      (p : V → Bool) (t : Table V) (v : V)
      → IsMap t
      → find p t ≡ some v
      → (k : String) × (get k t ≡ some v) × (p v ≡ true)
  unfolding find get
  find-some p [] v m h = cc
  find-some p ((j, w) ∷ t) v (q, m) h = elim (Bool-cases (p w)) [
    | inl e ↦ (j, ground (arith, eq_iff j j), ground arith)
    | inr e ↦
        let (k, g, r) = find-some p t v m (ground arith) in
        (k, ground (arith, other_key t j k v q g), r)
  ]

  -- A search by a unique field finds the one value that has it.
  pub find_iff :
      (ident f : V → String) (x : String) (t : Table V) (v : V)
      → IsIndexed ident f t
      → (find (λ u. f u == x) t ≡ some v) ↔ ((get (ident v) t ≡ some v) × (f v ≡ x))
  find_iff ident f x t v h = (
    λ e.
        let (k, g, r) = find-some (λ u. f u == x) t v h.map e in
        (rw (h.keyed k v g).0 g, eq_of_test _ _ r),
    λ e. found_same e.0 e.1 (Option-cases (find (λ u. f u == x) t)),
  )
    where
      found_same :
          get (ident v) t ≡ some v
          → f v ≡ x
          → (find (λ u. f u == x) t ≡ none) ⊎ ((u : V) × (find (λ u. f u == x) t ≡ some u))
          → find (λ u. f u == x) t ≡ some v
      found_same g r (inl n) =
          let unseen = find-none (λ u. f u == x) t (ident v) v n g in
          absurd (ground (arith, eq_iff (f v) x))
      found_same g r (inr (u, e)) =
          let (k, g', r') = find-some (λ u. f u == x) t u h.map e in
          let same : k ≡ ident v = h.unique k (ident v) u v g' g (eq_of_test _ _ r' ∙ sym r) in
          e ∙ sym g' ∙ ap (λ i. get i t) same ∙ g
