-- ===== src/CommitEdition/CloneEvents/Rows.antt =====
-- The columns that `clone_events` of `src/app/operations/commit_edition.rs` selects for an event
-- and a change.
use event.Base.{
  ℤ, pos, ◌+ℤ◌, ◌-ℤ◌, Option, none, some, List, [], ◌∷◌, String, ltb_ℤ, min_ℤ, if◌then◌else◌,
}
use event.RoomTime.{DateTime}
use event.Db.{AgentId}
use event.Db.Event.Raw.{RawObject}
use event.Db.Change
use event.Db.Change.{addition, modification, removal, bulk_removal}
use event.Ranges.{Range}
use event.CommitEdition.CloneEvents.Join.{Joined, both, only_event, only_change}

-- `COALESCE` of two.
abbrev pub coalesce {ℓ} : {A : Type ℓ} → Option A → Option A → Option A
coalesce none b = b
coalesce (some a) b = some a

-- A column of a row that the join may have filled with `NULL`s.
abbrev pub column {ℓ κ} : {R : Type ℓ} {A : Type κ} → Option R → (R → Option A) → Option A
column none f = none
column (some r) f = f r

-- `CASE change.kind WHEN 'addition' … WHEN 'modification' … ELSE … END`.
abbrev pub case_kind {ℓ} : {V : Type 0} {A : Type ℓ} → Option (Change.Object V) → A → A → A → A
case_kind none a m other = other
case_kind (some c) a m other = elim c.kind [
  | addition ↦ a
  | modification ↦ m
  | removal ↦ other
  | bulk_removal ↦ other
]

-- `SELECT SUM(LEAST(stop, occurred_at) - start) FROM gaps WHERE start < occurred_at`.
unfoldable pub cut_sum : List Range → ℤ → ℤ
cut_sum [] occurred_at = pos 0
cut_sum ((start, stop) ∷ gaps) occurred_at =
    let rest = cut_sum gaps occurred_at in
    if ltb_ℤ start occurred_at then (min_ℤ stop occurred_at -ℤ start) +ℤ rest else rest

-- The same, coalesced with 0: no gap starts before `NULL`.
abbrev pub gap_sum : List Range → Option ℤ → ℤ
gap_sum gaps none = pos 0
gap_sum gaps (some occurred_at) = cut_sum gaps occurred_at

abbrev pub minus : Option ℤ → ℤ → Option ℤ
minus none b = none
minus (some a) b = some (a -ℤ b)

-- The columns of `subquery`, with their `NULL`s.
pub record SubRow (V B : Type 0) : Type 0 where
  pub kind : Option String
  pub set : Option String
  pub label : Option String
  pub content : Option V
  pub binary_data : Option B
  pub occurred_at : Option ℤ
  pub created_by : Option AgentId
  pub created_at : DateTime

module _ {V B : Type 0} where
  -- The row of the event and the change, of which the join may lack one; `now` is `NOW()`.
  unfoldable pub sub_row :
      DateTime → List Range → Option (RawObject V B) → Option (Change.Object V) → SubRow V B
  unfolding cut_sum
  sub_row now gaps e c =
      let e_kind : Option String = column e (λ r. some r.kind) in
      let e_set : Option String = column e (λ r. some r.set) in
      let e_label : Option String = column e (λ r. r.label) in
      let e_content : Option V = column e (λ r. r.content) in
      let e_time : Option ℤ = column e (λ r. some r.occurred_at) in
      let e_by : Option AgentId = column e (λ r. some r.created_by) in
      let c_kind : Option String = column c (λ r. r.event_kind) in
      let c_set : Option String = column c (λ r. r.event_set) in
      let c_label : Option String = column c (λ r. r.event_label) in
      let c_content : Option V = column c (λ r. r.event_data) in
      let c_time : Option ℤ = column c (λ r. r.event_occurred_at) in
      record {
        kind = case_kind c c_kind (coalesce c_kind e_kind) e_kind;
        set =
            case_kind c (coalesce c_set c_kind)
              (coalesce c_set (coalesce e_set (coalesce c_kind e_kind))) e_set;
        label = case_kind c c_label (coalesce c_label e_label) e_label;
        content = case_kind c c_content (coalesce c_content e_content) e_content;
        binary_data = column e (λ r. r.binary_data);
        occurred_at =
            minus (case_kind c c_time (coalesce c_time e_time) e_time) (gap_sum gaps e_time);
        created_by = case_kind c (column c (λ r. r.event_created_by)) e_by e_by;
        created_at = elim (column e (λ r. some r.created_at)) [ none ↦ now | some t ↦ t ];
      }

  -- The row of one row of the join.
  unfoldable pub joined_row : DateTime → List Range → Joined V B → SubRow V B
  unfolding sub_row
  joined_row now gaps (both e c) = sub_row now gaps (some e) (some c)
  joined_row now gaps (only_event e) = sub_row now gaps (some e) none
  joined_row now gaps (only_change c) = sub_row now gaps none (some c)
