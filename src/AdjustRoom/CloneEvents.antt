-- ===== src/AdjustRoom/CloneEvents.antt =====
-- `clone_events` of `src/app/operations/adjust_room.rs`: the query that copies the events of a
-- room with their times shifted by the gaps.
pub mod Shift
pub mod Numbering
use event.Base.{
  ℕ, suc, ℤ, pos, ◌+ℤ◌, ◌-ℤ◌, Bool, true, false, ◌&&◌, Option, none, some, List, [], ◌∷◌, Result,
  ok, err, ◌>>=◌, String, str_eq, ltb_ℤ, leb_ℤ, eqb_ℤ, ◌==◌, is_none, same, min_ℤ, if◌then◌else◌,
}
use event.Base.Word.{fits_i64}
use event.RoomTime.{DateTime}
use event.Db.{Uuid, AgentId}
use event.Db.Event
use event.Ranges.{Range}

pub data CloneError : Type 0 where
  not_derived : Uuid → CloneError
  more_than_one_row : CloneError
  bigint_out_of_range : CloneError

-- The columns of the `INSERT`; `content` is the pair of `data` and `binary_data`.
pub record Row (V : Type 0) : Type 0 where
  pub room_id : Uuid
  pub kind : String
  pub set : String
  pub label : Option String
  pub content : V
  pub attribute : Option String
  pub removed : Bool
  pub occurred_at : ℤ
  pub created_by : AgentId
  pub created_at : DateTime

-- `SELECT COALESCE(SUM(LEAST(stop, occurred_at) - start), 0) FROM gaps WHERE start < occurred_at
-- AND start >= 0`.
unfoldable pub cut_before : List Range → ℤ → ℤ
cut_before [] occurred_at = pos 0
cut_before ((start, stop) ∷ gaps) occurred_at =
    let rest = cut_before gaps occurred_at in
    if ltb_ℤ start occurred_at && leb_ℤ (pos 0) start
    then (min_ℤ stop occurred_at -ℤ start) +ℤ rest
    else rest

-- `SELECT stop FROM gaps WHERE start = 0`.
stops_at_zero : List Range → List ℤ
stops_at_zero [] = []
stops_at_zero ((start, stop) ∷ gaps) =
    if eqb_ℤ start (pos 0) then stop ∷ stops_at_zero gaps else stops_at_zero gaps

-- A subquery as a value: `NULL` for no row, an error for more than one.
abbrev scalar : List ℤ → Result CloneError (Option ℤ)
scalar [] = ok none
scalar (v ∷ []) = ok (some v)
scalar (v ∷ w ∷ vs) = err more_than_one_row

-- `CASE occurred_at <= first WHEN TRUE THEN 0 ELSE occurred_at - … END`.
abbrev case_first : Option ℤ → ℤ → ℤ → ℤ
case_first none occurred_at cut = occurred_at -ℤ cut
case_first (some first) occurred_at cut =
    if leb_ℤ occurred_at first then pos 0 else occurred_at -ℤ cut

-- The shifted time of an event.
unfoldable pub shift : List Range → ℤ → Result CloneError ℤ
unfolding cut_before stops_at_zero
shift gaps occurred_at = scalar (stops_at_zero gaps) >>= λ first.
    ok (case_first first occurred_at (cut_before gaps occurred_at))

-- `gen_random_uuid()` and the columns that the trigger of the table fills are left out.
shifted_row : {V : Type 0} → Uuid → List Range → ℤ → Event.Object V → Result CloneError (Row V)
unfolding shift
shifted_row room_id gaps offset e = shift gaps e.occurred_at >>= λ t. ok (record {
  room_id = room_id;
  kind = e.kind;
  set = e.set;
  label = e.label;
  content = e.content;
  attribute = e.attribute;
  removed = e.removed;
  occurred_at = t +ℤ offset;
  created_by = e.created_by;
  created_at = e.created_at;
})

-- The inner `SELECT … FROM event WHERE room_id = $5 AND deleted_at IS NULL`.
pub shifted_rows :
    {V : Type 0}
    → Uuid
    → List Range
    → ℤ
    → Uuid
    → List (Event.Object V)
    → Result CloneError (List (Row V))
unfolding shifted_row
shifted_rows room_id gaps offset source_id [] = ok []
shifted_rows room_id gaps offset source_id (e ∷ es) =
    let rest = shifted_rows room_id gaps offset source_id es in
    if (e.room_id == source_id) && is_none e.deleted_at
    then (shifted_row room_id gaps offset e >>= λ row. rest >>= λ rows. ok (row ∷ rows))
    else rest

-- `ORDER BY created_at` of the window; equal times keep the order of the table.
insert_by_created : {V : Type 0} → Row V → List (Row V) → List (Row V)
insert_by_created r [] = r ∷ []
insert_by_created r (q ∷ qs) =
    if ltb_ℤ q.created_at r.created_at then q ∷ insert_by_created r qs else r ∷ q ∷ qs

unfoldable pub sort_by_created : {V : Type 0} → List (Row V) → List (Row V)
unfolding insert_by_created
sort_by_created [] = []
sort_by_created (r ∷ rs) = insert_by_created r (sort_by_created rs)

-- `PARTITION BY occurred_at, kind = 'stream'`.
abbrev pub same_partition : {V : Type 0} → Row V → Row V → Bool
same_partition p r =
    eqb_ℤ p.occurred_at r.occurred_at && same (str_eq p.kind "stream") (str_eq r.kind "stream")

abbrev pub count_partition : {V : Type 0} → Row V → List (Row V) → ℕ
count_partition r [] = 0
count_partition r (p ∷ ps) = let n = count_partition r ps in if same_partition p r then suc n else n

-- `ROW_NUMBER() OVER (…) - 1` of each row.
unfoldable pub number_rows : {V : Type 0} → List (Row V) → List (Row V) → List (Row V × ℕ)
number_rows before [] = []
number_rows before (r ∷ rs) = (r, count_partition r before) ∷ number_rows (r ∷ before) rs

-- `CASE kind WHEN 'stream' THEN occurred_at ELSE occurred_at + … END`, cast to `BIGINT`.
abbrev pub numbered_time : {V : Type 0} → Row V × ℕ → ℤ
numbered_time (r, n) = if str_eq r.kind "stream" then r.occurred_at else r.occurred_at +ℤ pos n

abbrev pub placed : {V : Type 0} → Row V × ℕ → Row V
placed (r, n) = record r { occurred_at = numbered_time (r, n) }

unfoldable pub monotonize : {V : Type 0} → List (Row V × ℕ) → Result CloneError (List (Row V))
monotonize [] = ok []
monotonize ((r, n) ∷ rs) =
    if fits_i64 (numbered_time (r, n))
    then (monotonize rs >>= λ rest. ok (placed (r, n) ∷ rest))
    else err bigint_out_of_range

-- The rows that `clone_events` inserts into the room; `events` is the table, `source_room_id` that of
-- the room.
unfoldable pub clone_events :
    {V : Type 0}
    → Uuid
    → Option Uuid
    → List (Event.Object V)
    → List Range
    → ℤ
    → Result CloneError (List (Row V))
unfolding shifted_rows sort_by_created number_rows monotonize
clone_events room_id none events gaps offset = err (not_derived room_id)
clone_events room_id (some source_room_id) events gaps offset =
    shifted_rows room_id gaps offset source_room_id events >>= λ rows.
    monotonize (number_rows [] (sort_by_created rows))
