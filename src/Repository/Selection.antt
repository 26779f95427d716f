-- ===== src/Repository/Selection.antt =====
-- What a query that reserves rows finds.
use jungle_gaming.Prelude.{
  ℕ, zero, suc, ◌≡◌, refl, ◌∙◌, arith, Bool, true, false, ltb, leb, ◌==◌, ◌&&◌, ◌||◌, Bool-cases,
  inl, inr, List, [], ◌∷◌, All,
}
use jungle_gaming.Repository.Tables.{count_rows}
use jungle_gaming.Repository.Ordered.{comes_first, insert_row, select_rows, limit_rows}

-- The order of pairs of numbers.
trans_lem :
    (a b c i j k : ℕ)
    → (ltb a b || (a == b) && leb i j) ≡ true
    → (ltb b c || (b == c) && leb j k) ≡ true
    → (ltb a c || (a == c) && leb i k) ≡ true
trans_lem a b c i j k h g = ground arith

total_lem :
    (a b i j : ℕ)
    → (ltb a b || (a == b) && leb i j) ≡ false
    → (ltb b a || (b == a) && leb j i) ≡ true
total_lem a b i j h = ground arith

pub limit-All :
    {A : Type 0} (P : A → Type 0) (n : ℕ) (rows : List A) → All P rows → All P (limit_rows n rows)
limit-All P zero rows h = tt
limit-All P (suc n) [] h = tt
limit-All P (suc n) (row ∷ rows) (p, h) = (p, limit-All P n rows h)

module _ {A : Type 0} (instant name : A → ℕ) where
  abbrev Precedes : A → A → Type 0
  Precedes a b = comes_first instant name a b ≡ true

  -- Every row comes before the rows that follow it.
  abbrev pub IsOrdered : List A → Type 0
  IsOrdered [] = Unit
  IsOrdered (row ∷ rows) = All (Precedes row) rows × IsOrdered rows

  order_trans : (x y z : A) → Precedes x y → Precedes y z → Precedes x z
  unfolding comes_first
  order_trans x y z h g =
      trans_lem (instant x) (instant y) (instant z) (name x) (name y) (name z) h g

  order_total : (x y : A) → comes_first instant name x y ≡ false → Precedes y x
  unfolding comes_first
  order_total x y h = total_lem (instant x) (instant y) (name x) (name y) h

  pub after_row :
      (x y : A) (rows : List A) → Precedes x y → All (Precedes y) rows → All (Precedes x) rows
  after_row x y [] h a = tt
  after_row x y (z ∷ rows) h (g, a) = (order_trans x y z h g, after_row x y rows h a)

  pub insert-All :
      (P : A → Type 0) (row : A) (rows : List A)
      → P row
      → All P rows
      → All P (insert_row instant name row rows)
  unfolding insert_row
  insert-All P row [] p a = (p, tt)
  insert-All P row (x ∷ rows) p (q, a) = elim (Bool-cases (comes_first instant name row x)) [
    | inl t ↦ rw t (p, (q, a))
    | inr f ↦ rw f (q, insert-All P row rows p a)
  ]

  insert-IsOrdered :
      (row : A) (rows : List A) → IsOrdered rows → IsOrdered (insert_row instant name row rows)
  unfolding insert_row
  insert-IsOrdered row [] o = (tt, tt)
  insert-IsOrdered row (x ∷ rows) (a, o) = elim (Bool-cases (comes_first instant name row x)) [
    | inl t ↦ rw t ((t, after_row row x rows t a), (a, o))
    | inr f ↦
        rw f (insert-All (Precedes x) row rows (order_total row x f) a, insert-IsOrdered row rows o)
  ]

  count-insert :
      (p : A → Bool) (row : A) (rows : List A)
      → count_rows p (insert_row instant name row rows) ≡ count_rows p (row ∷ rows)
  unfolding insert_row
  count-insert p row [] = refl
  count-insert p row (x ∷ rows) = elim (Bool-cases (comes_first instant name row x)) [
    | inl t ↦ rw t refl
    | inr f ↦ rw f (let rest = count-insert p row rows in ground arith)
  ]

  module _ (test : A → Bool) where
    -- A property that the rows which fit have is a property of the rows found.
    pub select-All :
        (P : A → Type 0) (rows : List A)
        → All (λ row. test row ≡ true → P row) rows
        → All P (select_rows instant name test rows)
    unfolding select_rows
    select-All P [] h = tt
    select-All P (row ∷ rows) (p, h) = elim (Bool-cases (test row)) [
      | inl t ↦ rw t (insert-All P row _ (p t) (select-All P rows h))
      | inr f ↦ rw f (select-All P rows h)
    ]

    pub select-IsOrdered : (rows : List A) → IsOrdered (select_rows instant name test rows)
    unfolding select_rows
    select-IsOrdered [] = tt
    select-IsOrdered (row ∷ rows) = elim (Bool-cases (test row)) [
      | inl t ↦ rw t (insert-IsOrdered row _ (select-IsOrdered rows))
      | inr f ↦ rw f (select-IsOrdered rows)
    ]

    pub count-select :
        (p : A → Bool) (rows : List A)
        → count_rows p (select_rows instant name test rows)
          ≡ count_rows (λ row. test row && p row) rows
    unfolding select_rows
    count-select p [] = refl
    count-select p (row ∷ rows) = elim (Bool-cases (test row)) [
      | inl t ↦ rw t (count-insert p row _ ∙ (let rest = count-select p rows in ground arith))
      | inr f ↦ rw f (count-select p rows)
    ]
