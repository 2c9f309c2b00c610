-- ===== src/Db/Session.antt =====
-- The database as the tasks use it: its tables, statements that may fail, and transactions of
-- `sqlx`. `V` is `serde_json::Value`, `B` is `CompactEvent`.
pub mod Laws
pub mod Failing
pub mod Returns
pub mod Succeeds
use event.Base.{
  ℕ, suc, ℤ, Bool, true, false, Option, none, some, List, [], Result, ok, err, String,
  if◌then◌else◌,
}
use event.Db.{Uuid}
use event.Db.Event.Raw.{RawObject}
use event.Db.Change
use event.Db.Room
use event.Db.Adjustment
use event.RoomTime.{DateTime}

pub record Tables (V B : Type 0) : Type 0 where
  pub rooms : List (Room.Object V)
  pub events : List (RawObject V B)
  pub changes : List (Change.Object V)
  pub adjustments : List Adjustment.Object

-- What the database brings to a session: which statements fail for reasons of its own, the ids
-- that a statement draws from `gen_random_uuid()`, and the time that it takes for `NOW()`.
pub record World : Type 0 where
  pub fails : ℕ → Bool
  pub id : ℕ → ℕ → Uuid
  pub now : ℕ → DateTime

-- The tables, and the number of the next statement.
pub record Session (V B : Type 0) : Type 0 where
  pub tables : Tables V B
  pub count : ℕ

-- What was written stays written when a later statement fails.
abbrev pub Task : Type 0 → Type 0 → Type 0 → Type 0 → Type 0
Task E V B A = World → Session V B → Result E A × Session V B

-- What a statement makes of the tables, given the ids that it may draw and its time.
abbrev pub Statement : Type 0 → Type 0 → Type 0 → Type 0 → Type 0
Statement E V B A = (ℕ → Uuid) → DateTime → Tables V B → Result E (A × Tables V B)

module _ {E V B : Type 0} where
  abbrev pub done : {A : Type 0} → A → Task E V B A
  done a w s = (ok a, s)

  abbrev pub bail : {A : Type 0} → E → Task E V B A
  bail e w s = (err e, s)

  -- A result, with `?`.
  abbrev pub lift : {A : Type 0} → Result E A → Task E V B A
  lift r w s = (r, s)

  abbrev pub and_then :
      {A C : Type 0}
      → Result E A × Session V B
      → (A → Task E V B C)
      → World
      → Result E C × Session V B
  and_then (ok a, s) f w = f a w s
  and_then (err e, s) f w = (err e, s)

  infixl 5 ◌>>=◌ ◌>>◌
  abbrev pub ◌>>=◌ : {A C : Type 0} → Task E V B A → (A → Task E V B C) → Task E V B C
  ◌>>=◌ m f w s = and_then (m w s) f w

  abbrev pub ◌>>◌ : {A C : Type 0} → Task E V B A → Task E V B C → Task E V B C
  m >> k = m >>= λ _. k

  settle : {A : Type 0} → Result E (A × Tables V B) → Session V B → Result E A × Session V B
  settle (ok (a, t)) s = (ok a, record { tables = t; count = suc s.count })
  settle (err e) s = (err e, record s { count = suc s.count })

  -- One statement, which is carried out as a whole or not at all; `e` is the error where the
  -- database fails it.
  unfoldable pub statement : {A : Type 0} → E → Statement E V B A → Task E V B A
  unfolding settle
  statement e f w s =
      if w.fails s.count
      then (err e, record s { count = suc s.count })
      else settle (f (w.id s.count) (w.now s.count) s.tables) s

  -- `begin`, and `commit`, which leave the tables.
  abbrev pub commit : {A : Type 0} → A → Statement E V B A
  commit a ids now t = ok (a, t)

  roll_back : {A : Type 0} → Tables V B → Result E A × Session V B → Result E A × Session V B
  roll_back before (ok a, s) = (ok a, s)
  roll_back before (err e, s) = (err e, record s { tables = before })

  -- `begin`, the statements, and `commit`, of which each may fail; a transaction that is dropped
  -- without a commit is rolled back.
  unfoldable pub atomically : {A : Type 0} → E → Task E V B A → Task E V B A
  unfolding roll_back statement
  atomically e m w s =
      roll_back s.tables ((statement e (commit tt) >> (m >>= λ a. statement e (commit a))) w s)
