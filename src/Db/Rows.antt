-- ===== src/Db/Rows.antt =====
-- The clauses of a `SELECT` on the list of the rows of a table.
pub mod Order
pub mod Distinct
pub mod Numbers
use event.Base.{
  ℕ, zero, suc, ◌+◌, Bool, false, ◌&&◌, ◌||◌, not, Option, none, some, List, [], ◌∷◌, ◌++◌,
  if◌then◌else◌, length,
}

module _ {ℓ} {A : Type ℓ} where
  -- `WHERE`.
  unfoldable pub select : (A → Bool) → List A → List A
  select p [] = []
  select p (e ∷ es) = let rest = select p es in if p e then e ∷ rest else rest

  -- Rows that are equal in order keep the order of the table.
  unfoldable pub insert_ordered : (A → A → Bool) → A → List A → List A
  insert_ordered before e [] = e ∷ []
  insert_ordered before e (d ∷ ds) =
      if before d e then d ∷ insert_ordered before e ds else e ∷ d ∷ ds

  -- `ORDER BY`.
  unfoldable pub order_by : (A → A → Bool) → List A → List A
  unfolding insert_ordered
  order_by before [] = []
  order_by before (e ∷ es) = insert_ordered before e (order_by before es)

  -- `LIMIT`.
  unfoldable pub take_first : ℕ → List A → List A
  take_first zero es = []
  take_first (suc n) [] = []
  take_first (suc n) (e ∷ es) = e ∷ take_first n es

  abbrev pub first_row : List A → Option A
  first_row [] = none
  first_row (e ∷ es) = some e

  -- The next key of `ORDER BY`, for rows that are peers by the first.
  unfoldable pub then_by : (A → A → Bool) → (A → A → Bool) → A → A → Bool
  then_by first second e d = first e d || (not (first d e) && second e d)

  -- `DISTINCT ON`, of rows in order: the first row of each key.
  unfoldable pub distinct_on : (A → A → Bool) → List A → List A
  unfolding select
  distinct_on same [] = []
  distinct_on same (e ∷ es) = e ∷ select (λ d. not (same e d)) (distinct_on same es)

  -- The rows of the partition that a window takes ahead of this row: those before it in order, and
  -- those of its peers that the table has first.
  unfoldable pub rows_ahead : (A → A → Bool) → (A → A → Bool) → List A → A → List A → List A
  unfolding select
  rows_ahead same before earlier e later =
      select (λ d. same e d && not (before e d)) earlier
      ++ select (λ d. same e d && before d e) later

  -- `ROW_NUMBER() OVER (PARTITION BY … ORDER BY …)`, beside each row.
  unfoldable pub row_numbers : (A → A → Bool) → (A → A → Bool) → List A → List A → List (ℕ × A)
  unfolding rows_ahead
  row_numbers same before earlier [] = []
  row_numbers same before earlier (e ∷ es) =
      (suc (length (rows_ahead same before earlier e es)), e)
      ∷ row_numbers same before (earlier ++ e ∷ []) es

  -- `bool_or(…) OVER (PARTITION BY … ORDER BY …)`: of the rows up to this one and its peers.
  unfoldable pub bool_or : (A → A → Bool) → (A → A → Bool) → (A → Bool) → List A → A → Bool
  bool_or same before p [] e = false
  bool_or same before p (d ∷ ds) e =
      (same e d && (not (before e d) && p d)) || bool_or same before p ds e
