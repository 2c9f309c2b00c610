-- ===== src/Db/Session/Returns.antt =====
-- What holds when a task returns: rules by which properties pass from one step to the next.
use event.Base.{ℕ, Result, ok, ◌≡◌, subst}
use event.Db.{Uuid}
use event.RoomTime.{DateTime}
use event.Db.Session.{Tables, World, Session, Task, Statement, ◌>>=◌, lift, statement, atomically}
use event.Db.Session.Laws.{>>=-ok, lift-ok, statement-ok, atomically-ok}

module _ {E V' B : Type 0} where
  -- From tables with the first property, a result of the task and its tables have the second.
  abbrev pub Returns :
      {A : Type 0} → (Tables V' B → Type 0) → Task E V' B A → (A → Tables V' B → Type 0) → Type 0
  Returns {A} P m Q =
      (w : World) (s : Session V' B) (a : A) (s' : Session V' B)
      → P s.tables
      → m w s ≡ (ok a, s')
      → Q a s'.tables

  pub >>=-Returns :
      {A C : Type 0} (P : Tables V' B → Type 0) (R : A → Tables V' B → Type 0)
      (Q : C → Tables V' B → Type 0) (m : Task E V' B A) (f : A → Task E V' B C)
      → Returns P m R
      → ((a : A) → Returns (R a) (f a) Q)
      → Returns P (m >>= f) Q
  >>=-Returns P R Q m f h k w s c s' p e =
      let (a, t, first, rest) = >>=-ok m f w s e in k a w t c s' (h w s a t p first) rest

  pub lift-Returns :
      {A : Type 0} (P : Tables V' B → Type 0) (Q : A → Tables V' B → Type 0) (r : Result E A)
      → ((a : A) (t : Tables V' B) → P t → r ≡ ok a → Q a t)
      → Returns P (lift r) Q
  lift-Returns P Q r h w s a s' p e =
      let (same, kept) = lift-ok r w s s' e in h a s'.tables (subst P kept p) same

  pub statement-Returns :
      {A : Type 0} (P : Tables V' B → Type 0) (Q : A → Tables V' B → Type 0) (e : E)
      (f : Statement E V' B A)
      → ((ids : ℕ → Uuid) (now : DateTime) (t : Tables V' B) (a : A) (t' : Tables V' B)
          → P t
          → f ids now t ≡ ok (a, t')
          → Q a t')
      → Returns P (statement e f) Q
  statement-Returns P Q e f h w s a s' p k =
      h (w.id s.count) (w.now s.count) s.tables a s'.tables p (statement-ok e f w s k)

  pub atomically-Returns :
      {A : Type 0} (P : Tables V' B → Type 0) (Q : A → Tables V' B → Type 0) (e : E)
      (m : Task E V' B A)
      → Returns P m Q
      → Returns P (atomically e m) Q
  atomically-Returns P Q e m h w s a s' p k =
      let (t, t', first, middle, last) = atomically-ok e m w s k in
      subst (Q a) last (h w t a t' (subst P first p) middle)
