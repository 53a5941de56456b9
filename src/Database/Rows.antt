-- ===== src/Database/Rows.antt =====
-- Tables whose ids all have a row, and what an INSERT adds to a SELECT.
use mathlib.Core.Option.{some-injective}
use neuralmesh.Common.{
  arith, refl, ◌∷◌, ◌++◌, false, none, some, subst, List, [], Option, inr, Bool, ◌≡◌, inl,
  if◌then◌else◌, eqb_refl, Bool-cases, ◌==◌, All,
}
use neuralmesh.Database.{scan, Table, scan_ids, RowId, keep_if, add_row}

module _ {A : Type 0} where
  abbrev pub HasRows : (RowId → Option A) → List RowId → Type 0
  HasRows row ks = All (λ k. (a : A) × (row k ≡ some a)) ks

  abbrev pub IsListed : Table A → Type 0
  IsListed t = HasRows t.row t.ids

  abbrev with_row : RowId → A → (RowId → Option A) → RowId → Option A
  with_row k a row j = if k == j then some a else row j

  other_row :
      (k : RowId) (a b : A) (row : RowId → Option A) (j : RowId)
      → row k ≡ none
      → row j ≡ some b
      → (k == j) ≡ false
  other_row k a b row j free taken = elim (Bool-cases (k == j)) [
    | inl same ↦ absurd (ground (arith, same, free, taken))
    | inr apart ↦ apart
  ]

  keep_if-append :
      (p : A → Bool) (a : A) (xs ys : List A)
      → keep_if p (some a) (xs ++ ys) ≡ keep_if p (some a) xs ++ ys
  keep_if-append p a xs ys = elim (Bool-cases (p a)) [
    | inl kept ↦ rw kept refl
    | inr dropped ↦ rw dropped refl
  ]

  scan_ids-with_row :
      (p : A → Bool) (k : RowId) (a : A) (row : RowId → Option A) (ks : List RowId)
      → row k ≡ none
      → HasRows row ks
      → scan_ids p (with_row k a row) (ks ++ k ∷ []) ≡ scan_ids p row ks ++ keep_if p (some a) []
  unfolding scan_ids
  scan_ids-with_row p k a row [] free all = rw (eqb_refl k) refl
  scan_ids-with_row p k a row (j ∷ ks) free ((b, taken), all) =
      rw
        (
          other_row k a b row j free taken,
          taken,
          scan_ids-with_row p k a row ks free all,
          keep_if-append p b (scan_ids p row ks) (keep_if p (some a) []),
        )
        refl

  HasRows-with_row :
      (k : RowId) (a : A) (row : RowId → Option A) (ks : List RowId)
      → row k ≡ none
      → HasRows row ks
      → HasRows (with_row k a row) (ks ++ k ∷ [])
  HasRows-with_row k a row [] free all = ((a, rw (eqb_refl k) refl), tt)
  HasRows-with_row k a row (j ∷ ks) free ((b, taken), all) =
      ((b, rw (other_row k a b row j free taken) taken), HasRows-with_row k a row ks free all)

  -- A row that is inserted comes last.
  pub add_row-scan :
      (p : A → Bool) (k : RowId) (a : A) (t u : Table A) (o : Option A)
      → t.row k ≡ o
      → IsListed t
      → add_row k a o t ≡ some u
      → IsListed u × (scan p u ≡ scan p t ++ keep_if p (some a) [])
  unfolding scan
  add_row-scan p k a t u (some b) row all e = absurd (ground arith)
  add_row-scan p k a t u none row all e =
      subst (λ v. IsListed v × (scan p v ≡ scan p t ++ keep_if p (some a) []))
        (some-injective _ _ e)
        (HasRows-with_row k a t.row t.ids row all, scan_ids-with_row p k a t.row t.ids row all)
