-- ===== src/Database.antt =====
-- Tables of PostgreSQL as the SQL of the repository uses them: rows under a primary key, in the order
-- of their insertion. An UPDATE acts on each row by itself.
pub mod Rows
use neuralmesh.Common.{List, [], ◌∷◌, false, some, Bool, none, Option, ◌++◌, ℕ, ◌==◌, if◌then◌else◌}

abbrev pub RowId : Type 0
RowId = ℕ

pub record Table (A : Type 0) : Type 0 where
  pub ids : List RowId
  pub row : RowId → Option A

-- UPDATE … SET f WHERE key = k
abbrev pub set_row : {A : Type 0} → (A → A) → Option A → Option A
set_row f none = none
set_row f (some a) = some (f a)

abbrev pub update_key : {A : Type 0} → RowId → (A → A) → Table A → Table A
update_key k f t = record t { row = λ j. if k == j then set_row f (t.row j) else t.row j }

-- UPDATE … SET f WHERE p
abbrev pub update_where : {A : Type 0} → (A → Bool) → (A → A) → Table A → Table A
update_where p f t = record t { row = λ j. set_row (λ a. if p a then f a else a) (t.row j) }

-- INSERT, which fails on a key that is taken.
abbrev pub add_row : {A : Type 0} → RowId → A → Option A → Table A → Option (Table A)
add_row k a none t =
    some (record { ids = t.ids ++ k ∷ []; row = λ j. if k == j then some a else t.row j })
add_row k a (some _) t = none

abbrev pub insert_row : {A : Type 0} → RowId → A → Table A → Option (Table A)
insert_row k a t = add_row k a (t.row k) t

-- INSERT … ON CONFLICT (key) DO UPDATE SET f
abbrev pub merge_row : {A : Type 0} → RowId → A → (A → A) → Option A → Table A → Table A
merge_row k a f none t = record {
  ids = t.ids ++ k ∷ [];
  row = λ j. if k == j then some a else t.row j;
}
merge_row k a f (some _) t = update_key k f t

abbrev pub upsert_row : {A : Type 0} → RowId → A → (A → A) → Table A → Table A
upsert_row k a f t = merge_row k a f (t.row k) t

-- SELECT … WHERE p, in the order of insertion
abbrev pub keep_if : {A : Type 0} → (A → Bool) → Option A → List A → List A
keep_if p none rest = rest
keep_if p (some a) rest = if p a then a ∷ rest else rest

unfoldable pub scan_ids : {A : Type 0} → (A → Bool) → (RowId → Option A) → List RowId → List A
scan_ids p row [] = []
scan_ids p row (k ∷ ks) = keep_if p (row k) (scan_ids p row ks)

unfoldable pub scan : {A : Type 0} → (A → Bool) → Table A → List A
unfolding scan_ids
scan p t = scan_ids p t.row t.ids

-- LIMIT 1
abbrev pub first : {A : Type 0} → List A → Option A
first [] = none
first (a ∷ rest) = some a

-- `column = $1` is not true of NULL
abbrev pub is_id : Option RowId → RowId → Bool
is_id none k = false
is_id (some j) k = j == k
