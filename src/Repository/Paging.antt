-- ===== src/Repository/Paging.antt =====
-- Where a query in order of instants and names goes on after a row.
use jungle_gaming.Prelude.{
  ℕ, zero, suc, ◌≡◌, refl, sym, ap, ◌∙◌, arith, Bool, true, false, ltb, leb, ◌==◌, ◌&&◌, ◌||◌,
  if◌then◌else◌, Bool-cases, inl, inr, Option, none, some, List, [], ◌∷◌, All,
}
use jungle_gaming.Repository.Ordered.{comes_first, insert_row, select_rows}
use jungle_gaming.Repository.Selection.{IsOrdered, insert-All, select-IsOrdered, after_row}

abbrev pub row_at : {A : Type 0} → ℕ → List A → Option A
row_at n [] = none
row_at zero (row ∷ rows) = some row
row_at (suc n) (row ∷ rows) = row_at n rows

abbrev pub drop_rows : {A : Type 0} → ℕ → List A → List A
drop_rows zero rows = rows
drop_rows (suc n) [] = []
drop_rows (suc n) (row ∷ rows) = drop_rows n rows

abbrev pub filter_rows : {A : Type 0} → (A → Bool) → List A → List A
filter_rows test [] = []
filter_rows test (row ∷ rows) =
    let rest = filter_rows test rows in if test row then row ∷ rest else rest

-- The strict order of pairs of numbers.
abbrev later : ℕ → ℕ → ℕ → ℕ → Bool
later a i b j = ltb a b || (a == b) && ltb i j

strict_lem :
    (a b i j : ℕ)
    → (ltb a b || (a == b) && leb i j) ≡ true
    → (i == j) ≡ false
    → later a i b j ≡ true
strict_lem a b i j h d = ground arith

not_back : (a b i j : ℕ) → (ltb a b || (a == b) && leb i j) ≡ true → later b j a i ≡ false
not_back a b i j h = ground arith

module _ {A : Type 0} (instant name : A → ℕ) where
  -- The row comes strictly after x.
  abbrev pub goes_after : A → A → Bool
  goes_after x row = later (instant x) (name x) (instant row) (name row)

  abbrev pub Differs : A → A → Type 0
  Differs x row = (name x == name row) ≡ false

  abbrev pub HasDistinctNames : List A → Type 0
  HasDistinctNames [] = Unit
  HasDistinctNames (row ∷ rows) = All (Differs row) rows × HasDistinctNames rows

  apart_sym : (x y : A) → Differs x y → Differs y x
  apart_sym x y h = ground arith

  insert-HasDistinctNames :
      (row : A) (rows : List A)
      → All (Differs row) rows
      → HasDistinctNames rows
      → HasDistinctNames (insert_row instant name row rows)
  unfolding insert_row
  insert-HasDistinctNames row [] d h = (tt, tt)
  insert-HasDistinctNames row (x ∷ rows) (e, d) (a, h) =
      elim (Bool-cases (comes_first instant name row x)) [
        | inl t ↦ rw t ((e, d), (a, h))
        | inr f ↦ rw f (
          insert-All instant name (Differs x) row rows (apart_sym row x e) a,
          insert-HasDistinctNames row rows d h,
        )
      ]

  module _ (test : A → Bool) where
    select-apart :
        (x : A) (rows : List A)
        → All (Differs x) rows
        → All (Differs x) (select_rows instant name test rows)
    unfolding select_rows
    select-apart x [] d = tt
    select-apart x (row ∷ rows) (e, d) = elim (Bool-cases (test row)) [
      | inl t ↦ rw t (insert-All instant name (Differs x) row _ e (select-apart x rows d))
      | inr f ↦ rw f (select-apart x rows d)
    ]

    pub select-HasDistinctNames :
        (rows : List A)
        → HasDistinctNames rows
        → HasDistinctNames (select_rows instant name test rows)
    unfolding select_rows
    select-HasDistinctNames [] h = tt
    select-HasDistinctNames (row ∷ rows) (d, h) = elim (Bool-cases (test row)) [
      | inl t ↦
          rw t (
            insert-HasDistinctNames row _ (select-apart row rows d)
              (select-HasDistinctNames rows h))
      | inr f ↦ rw f (select-HasDistinctNames rows h)
    ]

  -- In an ordered list of different rows, the rows after one are those that follow it.
  every_later :
      (x : A) (rows : List A)
      → All (λ row. comes_first instant name x row ≡ true) rows
      → All (Differs x) rows
      → filter_rows (goes_after x) rows ≡ rows
  unfolding comes_first
  every_later x [] h d = refl
  every_later x (row ∷ rows) (c, h) (e, d) =
      rw (strict_lem (instant x) (instant row) (name x) (name row) c e, every_later x rows h d) refl

  pub member_at :
      (P : A → Type 0) (n : ℕ) (x : A) (rows : List A) → All P rows → row_at n rows ≡ some x → P x
  member_at P n x [] h e = cc
  member_at P zero x (row ∷ rows) (p, h) e = let same : row ≡ x = ground arith in rw (← same) p
  member_at P (suc n) x (row ∷ rows) (p, h) e = member_at P n x rows h e

  from_head :
      (x : A) (rows : List A)
      → All (λ row. comes_first instant name x row ≡ true) rows
      → All (Differs x) rows
      → filter_rows (goes_after x) (x ∷ rows) ≡ rows
  from_head x rows h d =
      let self : goes_after x x ≡ false = ground arith in rw self (every_later x rows h d)

  pub filter-drop :
      (n : ℕ) (x : A) (rows : List A)
      → IsOrdered instant name rows
      → HasDistinctNames rows
      → row_at n rows ≡ some x
      → filter_rows (goes_after x) rows ≡ drop_rows (suc n) rows
  unfolding comes_first
  filter-drop n x [] o d e = cc
  filter-drop zero x (row ∷ rows) (c, o) (f, d) e =
      let same : row ≡ x = ground arith in
      ap (λ (y : A). filter_rows (goes_after y) (row ∷ rows)) (sym same) ∙ from_head row rows c f
  filter-drop (suc n) x (row ∷ rows) (c, o) (f, d) e =
      let before = member_at (λ y. comes_first instant name row y ≡ true) n x rows c e in
      let back = not_back (instant row) (instant x) (name row) (name x) before in
      rw back (filter-drop n x rows o d e)

  filter-All :
      (P : A → Type 0) (u : A → Bool) (rows : List A) → All P rows → All P (filter_rows u rows)
  filter-All P u [] h = tt
  filter-All P u (row ∷ rows) (p, h) = elim (Bool-cases (u row)) [
    | inl t ↦ rw t (p, filter-All P u rows h)
    | inr f ↦ rw f (filter-All P u rows h)
  ]

  insert_first :
      (row : A) (rows : List A)
      → All (λ x. comes_first instant name row x ≡ true) rows
      → insert_row instant name row rows ≡ row ∷ rows
  unfolding insert_row
  insert_first row [] h = refl
  insert_first row (x ∷ rows) (c, h) = rw c refl

  kept_first :
      (u : A → Bool) (row : A) (rows : List A)
      → u row ≡ true
      → filter_rows u (row ∷ rows) ≡ row ∷ filter_rows u rows
  kept_first u row rows t = rw t refl

  behind :
      (u : A → Bool) (row x : A) (rows : List A)
      → comes_first instant name row x ≡ false
      → filter_rows u (insert_row instant name row rows)
        ≡ insert_row instant name row (filter_rows u rows)
      → filter_rows u (insert_row instant name row (x ∷ rows))
        ≡ insert_row instant name row (filter_rows u (x ∷ rows))
  unfolding insert_row
  behind u row x rows f h = elim (Bool-cases (u x)) [
    | inl y ↦ rw (f, y, h) (rw f refl)
    | inr n ↦ rw (f, n) h
  ]

  insert-filtered :
      (u : A → Bool) (row : A) (rows : List A)
      → IsOrdered instant name rows
      → u row ≡ true
      → filter_rows u (insert_row instant name row rows)
        ≡ insert_row instant name row (filter_rows u rows)
  insert-filtered u row [] o t = unfold insert_row in rw t refl
  insert-filtered u row (x ∷ rows) (a, o) t = elim (Bool-cases (comes_first instant name row x)) [
    | inl c ↦
        let all : All (λ y. comes_first instant name row y ≡ true) (x ∷ rows) =
          (c, after_row instant name row x rows c a) in
        ap (filter_rows u) (insert_first row (x ∷ rows) all)
        ∙ kept_first u row (x ∷ rows) t
        ∙ sym (insert_first row (filter_rows u (x ∷ rows)) (filter-All _ u (x ∷ rows) all))
    | inr f ↦ behind u row x rows f (insert-filtered u row rows o t)
  ]

  insert-dropped :
      (u : A → Bool) (row : A) (rows : List A)
      → u row ≡ false
      → filter_rows u (insert_row instant name row rows) ≡ filter_rows u rows
  unfolding insert_row
  insert-dropped u row [] f = rw f refl
  insert-dropped u row (x ∷ rows) f = elim (Bool-cases (comes_first instant name row x)) [
    | inl c ↦ rw (c, f) refl
    | inr b ↦ rw (b, insert-dropped u row rows f) refl
  ]

  pub filter-select :
      (test u : A → Bool) (rows : List A)
      → filter_rows u (select_rows instant name test rows)
        ≡ select_rows instant name (λ row. test row && u row) rows
  unfolding select_rows
  filter-select test u [] = refl
  filter-select test u (row ∷ rows) = elim (Bool-cases (test row)) [
    | inl t ↦ elim (Bool-cases (u row)) [
      | inl y ↦
          rw (t, y)
            (insert-filtered u row _ (select-IsOrdered instant name test rows) y
              ∙ ap (insert_row instant name row) (filter-select test u rows))
      | inr n ↦ rw (t, n) (insert-dropped u row _ n ∙ filter-select test u rows)
    ]
    | inr f ↦ rw f (filter-select test u rows)
  ]

  pub select-same :
      (test test' : A → Bool) (rows : List A)
      → ((row : A) → test row ≡ test' row)
      → select_rows instant name test rows ≡ select_rows instant name test' rows
  unfolding select_rows
  select-same test test' [] h = refl
  select-same test test' (row ∷ rows) h = rw (h row, select-same test test' rows h) refl
