-- ===== src/Db/Table.antt =====
-- Tables as lists of rows, oldest first: the shapes of SQL that the queries are written in.
pub mod Laws
pub mod Distinct
pub mod Every
use sauth.Prelude.{
  ℕ, ◌≡◌, Bool, true, false, not, ◌||◌, ◌&&◌, Option, none, some, List, [], ◌∷◌, ◌++◌, ◌==◌,
  if◌then◌else◌,
}
use sauth.Text.{Text, text_eq, to_lower}
use sauth.Errors.{Outcome, ok, err, no_rows}

module _ {ℓ} {A : Type ℓ} (p : A → Bool) where
  -- SELECT ... WHERE p, of which QueryRow reads the first row
  unfoldable pub find : List A → Option A
  find [] = none
  find (r ∷ rs) = if p r then some r else find rs

  unfoldable pub exists : List A → Bool
  exists [] = false
  exists (r ∷ rs) = p r || exists rs

  -- UPDATE ... SET f WHERE p
  unfoldable pub update_where : (A → A) → List A → List A
  update_where f [] = []
  update_where f (r ∷ rs) = (if p r then f r else r) ∷ update_where f rs

  -- DELETE ... WHERE p
  unfoldable pub delete_where : List A → List A
  delete_where [] = []
  delete_where (r ∷ rs) = let rest = delete_where rs in if p r then rest else r ∷ rest

  -- SELECT ... WHERE p, of which Query reads every row
  unfoldable pub rows_where : List A → List A
  rows_where [] = []
  rows_where (r ∷ rs) = let rest = rows_where rs in if p r then r ∷ rest else rest

-- FROM a JOIN b ON ..., with the rows of `b` for one row of `a`
unfoldable pub join {ℓ κ} : {A : Type ℓ} {B : Type κ} → (A → List B) → List A → List B
join f [] = []
join f (r ∷ rs) = f r ++ join f rs

module _ (le : Text → Text → Bool) where
  unfoldable pub insert_sorted : Text → List Text → List Text
  insert_sorted x [] = x ∷ []
  insert_sorted x (y ∷ ys) =
      let rest = insert_sorted x ys in if le x y then x ∷ y ∷ ys else y ∷ rest

  -- ORDER BY name
  unfoldable pub order_by : List Text → List Text
  unfolding insert_sorted
  order_by [] = []
  order_by (x ∷ xs) = insert_sorted x (order_by xs)

-- SELECT DISTINCT name
unfoldable pub distinct : List Text → List Text
unfolding exists
distinct [] = []
distinct (x ∷ xs) =
    let rest = distinct xs in if exists (λ y. text_eq y x) xs then rest else x ∷ rest

-- pgx.ErrNoRows where QueryRow finds no row
abbrev pub one {ℓ} : {A : Type ℓ} → Option A → Outcome A
one none = err no_rows
one (some a) = ok a

-- `column = $n`, which is not true where either side is NULL
abbrev pub sql_eq : Option Text → Option Text → Bool
sql_eq (some a) (some b) = text_eq a b
sql_eq _ _ = false

-- the same for a CITEXT column
abbrev pub citext_eq : (ℕ → ℕ) → Option Text → Option Text → Bool
citext_eq lower_rune (some a) (some b) = text_eq (to_lower lower_rune a) (to_lower lower_rune b)
citext_eq lower_rune _ _ = false

-- `column IS NULL`
abbrev pub is_null : Option ℕ → Bool
is_null none = true
is_null (some t) = false

-- No two rows agree on a key: `same` compares the keys of two rows.
abbrev pub DistinctBy {ℓ} : {A : Type ℓ} → (A → A → Bool) → List A → Type 0
DistinctBy same [] = Unit
DistinctBy same (r ∷ rs) = (exists (same r) rs ≡ false) × DistinctBy same rs
