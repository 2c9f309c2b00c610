-- ===== src/Db/Session/Succeeds.antt =====
-- When a task goes through: rules for tasks of which the database fails no statement.
use event.Base.{ℕ, suc, false, Result, ok, ◌≡◌, refl, ◌∙◌, ap}
use event.Db.{Uuid}
use event.RoomTime.{DateTime}
use event.Db.Session.{
  Tables, World, Session, Task, Statement, and_then, ◌>>=◌, lift, statement, settle, commit,
  roll_back, atomically,
}

-- The database fails no statement.
abbrev pub IsUp : World → Type 0
IsUp w = (n : ℕ) → w.fails n ≡ false

module _ {E V' B : Type 0} where
  -- From tables with the first property, the task has a result, with the second property.
  abbrev pub Succeeds :
      {A : Type 0} → (Tables V' B → Type 0) → Task E V' B A → (A → Tables V' B → Type 0) → Type 0
  Succeeds {A} P m Q =
      (w : World) (s : Session V' B)
      → IsUp w
      → P s.tables
      → (a : A) × (s' : Session V' B) × (m w s ≡ (ok a, s')) × Q a s'.tables

  pub >>=-Succeeds :
      {A C : Type 0} (P : Tables V' B → Type 0) (R : A → Tables V' B → Type 0)
      (Q : C → Tables V' B → Type 0) (m : Task E V' B A) (f : A → Task E V' B C)
      → Succeeds P m R
      → ((a : A) → Succeeds (R a) (f a) Q)
      → Succeeds P (m >>= f) Q
  >>=-Succeeds P R Q m f h k w s up p =
      let (a, t, first, r) = h w s up p in
      let (c, u, rest, q) = k a w t up r in (c, u, ap (λ x. and_then x f w) first ∙ rest, q)

  pub lift-Succeeds :
      {A : Type 0} (P : Tables V' B → Type 0) (Q : A → Tables V' B → Type 0) (r : Result E A)
      → ((t : Tables V' B) → P t → (a : A) × (r ≡ ok a) × Q a t)
      → Succeeds P (lift r) Q
  lift-Succeeds P Q r h w s up p =
      let (a, same, q) = h s.tables p in (a, s, ap (λ x. (x, s)) same, q)

  pub statement-Succeeds :
      {A : Type 0} (P : Tables V' B → Type 0) (Q : A → Tables V' B → Type 0) (e : E)
      (f : Statement E V' B A)
      → ((ids : ℕ → Uuid) (now : DateTime) (t : Tables V' B)
          → P t
          → (a : A) × (t' : Tables V' B) × (f ids now t ≡ ok (a, t')) × Q a t')
      → Succeeds P (statement e f) Q
  unfolding statement settle
  statement-Succeeds P Q e f h w s up p =
      let (a, t, same, q) = h (w.id s.count) (w.now s.count) s.tables p in
      (a, record { tables = t; count = suc s.count }, rw (statement, up s.count, same) refl, q)

  roll_back-Succeeds :
      {A : Type 0} (before : Tables V' B) (r : Result E A × Session V' B) (a : A) (s : Session V' B)
      → r ≡ (ok a, s)
      → roll_back before r ≡ (ok a, s)
  unfolding roll_back
  roll_back-Succeeds before r a s h = rw h refl

  -- A transaction goes through where its statements do.
  pub atomically-Succeeds :
      {A : Type 0} (P : Tables V' B → Type 0) (Q : A → Tables V' B → Type 0) (e : E)
      (m : Task E V' B A)
      → Succeeds P m Q
      → Succeeds P (atomically e m) Q
  unfolding atomically
  atomically-Succeeds P Q e m h w s up p =
      let (a, t, same, q) =
        >>=-Succeeds P (λ u t. P t) Q (statement e (commit tt))
          (λ u. m >>= λ a. statement e (commit a))
          (statement-Succeeds P (λ u t. P t) e (commit tt) (λ ids now t p. (tt, t, refl, p)))
          (λ u.
            >>=-Succeeds P Q Q m (λ a. statement e (commit a)) h
              (λ a. statement-Succeeds (Q a) Q e (commit a) (λ ids now t q. (a, t, refl, q))))
          w s up p in
      (a, t, roll_back-Succeeds s.tables _ a t same, q)
