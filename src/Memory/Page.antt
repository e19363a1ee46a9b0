-- ===== src/Memory/Page.antt =====
-- `page` of pkg/store/memory/memory.go: sorting by creation time and id, and slicing.
use go_identity.Common.{
  ℕ, ◌+◌, ◌-◌, String, Bool, List, [], ◌∷◌, ltb, leb, eqb, not, length, take, drop, ℤ, pos, negsuc,
  text_less, if◌then◌else◌,
}
use go_identity.Store.{ListOptions, normalize}

abbrev pub to_ℕ : ℤ → ℕ
to_ℕ (pos n) = n
to_ℕ (negsuc n) = 0

-- The order of two keys: by time, then by id.
unfoldable pub key_less : ℕ × String → ℕ × String → Bool
key_less (ti, idi) (tj, idj) = if not (eqb ti tj) then ltb ti tj else text_less idi idj

module _ {T : Type 0} (key : T → ℕ × String) where
  -- `sort.Slice`, as an insertion sort.
  unfoldable pub insert_sorted : T → List T → List T
  insert_sorted x [] = x ∷ []
  insert_sorted x (y ∷ ys) = if key_less (key y) (key x) then y ∷ insert_sorted x ys else x ∷ y ∷ ys

  unfoldable pub sort_items : List T → List T
  unfolding insert_sorted
  sort_items [] = []
  sort_items (x ∷ xs) = insert_sorted x (sort_items xs)

  unfoldable pub page : List T → ListOptions → List T × ℕ
  unfolding normalize
  page items opts =
      let o = normalize opts in
      let offset = to_ℕ o.offset in
      let sorted = sort_items items in
      let total = length sorted in
      let end = offset + to_ℕ o.limit in
      let last = if ltb total end then total else end in
      if leb total offset then ([], total) else (take (last - offset) (drop offset sorted), total)
