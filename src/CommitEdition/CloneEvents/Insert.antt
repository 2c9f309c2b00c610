-- ===== src/CommitEdition/CloneEvents/Insert.antt =====
-- The numbering of the selected rows and their insertion (`clone_events` of
-- `src/app/operations/commit_edition.rs`).
use event.Base.{
  ℕ, suc, ℤ, pos, ◌+ℤ◌, Bool, false, Option, none, some, List, [], ◌∷◌, Result, ok, err, ◌>>=◌,
  String, ltb_ℤ, eqb_ℤ, is_none, if◌then◌else◌,
}
use event.Base.Word.{fits_i64}
use event.RoomTime.{DateTime}
use event.Db.{Uuid, AgentId}
use event.CommitEdition.CloneEvents.Rows.{SubRow}

pub data CommitError : Type 0 where
  null_column bigint_out_of_range : CommitError

-- `ORDER BY created_at` of the window; equal times keep the order of the join.
insert_created : {V B : Type 0} → SubRow V B → List (SubRow V B) → List (SubRow V B)
insert_created r [] = r ∷ []
insert_created r (q ∷ qs) =
    if ltb_ℤ q.created_at r.created_at then q ∷ insert_created r qs else r ∷ q ∷ qs

unfoldable pub order_by_created : {V B : Type 0} → List (SubRow V B) → List (SubRow V B)
unfolding insert_created
order_by_created [] = []
order_by_created (r ∷ rs) = insert_created r (order_by_created rs)

-- `PARTITION BY occurred_at`, where `NULL`s are together.
abbrev pub same_time : Option ℤ → Option ℤ → Bool
same_time none b = is_none b
same_time (some a) none = false
same_time (some a) (some b) = eqb_ℤ a b

abbrev pub count_at : {V B : Type 0} → Option ℤ → List (SubRow V B) → ℕ
count_at t [] = 0
count_at t (r ∷ rs) = let n = count_at t rs in if same_time r.occurred_at t then suc n else n

-- `ROW_NUMBER() OVER (…) - 1` of each row.
unfoldable pub row_numbers :
    {V B : Type 0} → List (SubRow V B) → List (SubRow V B) → List (SubRow V B × ℕ)
row_numbers before [] = []
row_numbers before (r ∷ rs) = (r, count_at r.occurred_at before) ∷ row_numbers (r ∷ before) rs

-- The columns of the `INSERT`; `id` is random, and `attribute` and `removed` are not among them.
pub record NewRow (V B : Type 0) : Type 0 where
  pub room_id : Uuid
  pub kind : String
  pub set : String
  pub label : Option String
  pub content : Option V
  pub binary_data : Option B
  pub occurred_at : ℤ
  pub created_by : AgentId
  pub created_at : DateTime

abbrev not_null {ℓ} : {A : Type ℓ} → Option A → Result CommitError A
not_null none = err null_column
not_null (some a) = ok a

abbrev bigint : ℤ → Result CommitError ℤ
bigint z = if fits_i64 z then ok z else err bigint_out_of_range

-- The constraint `data_or_binary_data_not_null`.
abbrev with_content :
    {V B : Type 0} → Option V → Option B → Result CommitError (Option V × Option B)
with_content none none = err null_column
with_content none (some b) = ok (none, some b)
with_content (some v) b = ok (some v, b)

-- The row that is inserted, `occurred_at + ROW_NUMBER() - 1 + offset` cast to `BIGINT`.
unfoldable pub new_row :
    {V B : Type 0} → Uuid → ℤ → SubRow V B × ℕ → Result CommitError (NewRow V B)
new_row destination_id offset (r, n) = not_null r.kind >>= λ kind'. not_null r.set >>= λ set'.
    with_content r.content r.binary_data >>= λ contents. not_null r.occurred_at >>= λ t.
    bigint ((t +ℤ pos n) +ℤ offset) >>= λ time. not_null r.created_by >>= λ by. ok (record {
      room_id = destination_id;
      kind = kind';
      set = set';
      label = r.label;
      content = contents.0;
      binary_data = contents.1;
      occurred_at = time;
      created_by = by;
      created_at = r.created_at;
    })

unfoldable pub new_rows :
    {V B : Type 0} → Uuid → ℤ → List (SubRow V B × ℕ) → Result CommitError (List (NewRow V B))
unfolding new_row
new_rows destination_id offset [] = ok []
new_rows destination_id offset (r ∷ rs) = new_row destination_id offset r >>= λ row.
    new_rows destination_id offset rs >>= λ rows. ok (row ∷ rows)
