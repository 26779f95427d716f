-- ===== src/Repository/Ordered.antt =====
-- WHERE ... ORDER BY <instant>, id LIMIT n, the form of the two queries that reserve rows for a worker in
-- repository/transaction.go and repository/outbox.go.
use jungle_gaming.Prelude.{
  ℕ, zero, suc, Bool, ltb, leb, ◌==◌, ◌&&◌, ◌||◌, if◌then◌else◌, List, [], ◌∷◌,
}

module _ {A : Type 0} (instant name : A → ℕ) where
  unfoldable pub comes_first : A → A → Bool
  comes_first a b = ltb (instant a) (instant b) || (instant a == instant b) && leb (name a) (name b)

  unfoldable pub insert_row : A → List A → List A
  insert_row row [] = row ∷ []
  insert_row row (x ∷ rows) =
      let rest = insert_row row rows in if comes_first row x then row ∷ x ∷ rows else x ∷ rest

  -- The rows that fit, in their order.
  unfoldable pub select_rows : (A → Bool) → List A → List A
  unfolding insert_row
  select_rows test [] = []
  select_rows test (row ∷ rows) =
      let rest = select_rows test rows in if test row then insert_row row rest else rest

-- LIMIT
abbrev pub limit_rows : {A : Type 0} → ℕ → List A → List A
limit_rows zero rows = []
limit_rows (suc n) [] = []
limit_rows (suc n) (row ∷ rows) = row ∷ limit_rows n rows
