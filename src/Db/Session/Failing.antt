-- ===== src/Db/Session/Failing.antt =====
-- How failures pass through tasks.
use event.Base.{ℕ, Result, ok, err, ◌≡◌, refl, sym, ap, subst, Bool-cases, ◌⊎◌, inl, inr}
use event.Db.{Uuid}
use event.RoomTime.{DateTime}
use event.Db.Session.{Tables, World, Session, Task, Statement, and_then, ◌>>=◌, statement, settle}
use event.Db.Session.Laws.{Keeps}

module _ {E V' B : Type 0} where
  -- The task fails, and keeps the property of the tables.
  abbrev pub Fails : {A : Type 0} → (Tables V' B → Type 0) → Task E V' B A → Type 0
  Fails P m =
      (w : World) (s : Session V' B)
      → P s.tables
      → (e : E) × ((m w s).0 ≡ err e) × P ((m w s).1).tables

  and_then-Fails :
      {A C : Type 0} (P : Tables V' B → Type 0) (r : Result E A × Session V' B)
      (f : A → Task E V' B C) (w : World)
      → ((a : A) → Fails P (f a))
      → P (r.1).tables
      → (e : E) × ((and_then r f w).0 ≡ err e) × P ((and_then r f w).1).tables
  and_then-Fails P (ok a, s) f w k h = k a w s h
  and_then-Fails P (err e, s) f w k h = (e, refl, h)

  pub >>=-Fails_after :
      {A C : Type 0} (P : Tables V' B → Type 0) (m : Task E V' B A) (f : A → Task E V' B C)
      → Keeps P m
      → ((a : A) → Fails P (f a))
      → Fails P (m >>= f)
  >>=-Fails_after P m f h k w s p = and_then-Fails P (m w s) f w k (h w s p)

  and_then-Fails_first :
      {A C : Type 0} (P : Tables V' B → Type 0) (r : Result E A × Session V' B)
      (f : A → Task E V' B C) (w : World) {e : E}
      → r.0 ≡ err e
      → P (r.1).tables
      → (e : E) × ((and_then r f w).0 ≡ err e) × P ((and_then r f w).1).tables
  and_then-Fails_first P (ok a, s) f w h p = cc
  and_then-Fails_first P (err e, s) f w h p = (e, refl, p)

  pub >>=-Fails :
      {A C : Type 0} (P : Tables V' B → Type 0) (m : Task E V' B A) (f : A → Task E V' B C)
      → Fails P m
      → Fails P (m >>= f)
  >>=-Fails P m f h w s p = let (e, k, q) = h w s p in and_then-Fails_first P (m w s) f w k q

  -- A statement that fails on the tables fails as a task.
  pub statement-Fails :
      {A : Type 0} (P : Tables V' B → Type 0) (e : E) (f : Statement E V' B A) (e' : E)
      → ((ids : ℕ → Uuid) (now : DateTime) (t : Tables V' B) → P t → f ids now t ≡ err e')
      → Fails P (statement e f)
  unfolding statement settle
  statement-Fails P e f e' k w s h = elim (Bool-cases (w.fails s.count)) [
    | inl b ↦ (e, rw (statement, b) refl, rw (statement, b) h)
    | inr b ↦
        let q = k (w.id s.count) (w.now s.count) s.tables h in
        (e', rw (statement, b, q, settle) refl, rw (statement, b, q, settle) h)
  ]

  -- A task fails or gives a result.
  pub run-cases :
      {A : Type 0} (r : Result E A × Session V' B)
      → ((e : E) × (t : Session V' B) × (r ≡ (err e, t)))
        ⊎ ((a : A) × (t : Session V' B) × (r ≡ (ok a, t)))
  run-cases (ok a, t) = inr (a, t, refl)
  run-cases (err e, t) = inl (e, t, refl)

  -- The task fails and the tables have the property, or the other holds.
  abbrev pub FailsOr :
      {A : Type 0} → (Tables V' B → Type 0) → Type 0 → Result E A × Session V' B → Type 0
  FailsOr P G r = ((e : E) × (r.0 ≡ err e) × P (r.1).tables) ⊎ G

  -- To go on with the result of a task, whose failure is that of the whole.
  pub >>=-FailsOr :
      {A C : Type 0} (P : Tables V' B → Type 0) (G : Type 0) (m : Task E V' B A)
      (f : A → Task E V' B C) (w : World) (s : Session V' B)
      → P ((m w s).1).tables
      → ((a : A) (t : Session V' B) → m w s ≡ (ok a, t) → FailsOr P G (f a w t))
      → FailsOr P G ((m >>= f) w s)
  >>=-FailsOr P G m f w s h k = elim (run-cases (m w s)) [
    | inl (e, t, q) ↦ inl (
      e,
      ap (λ r. (and_then r f w).0) q,
      subst (λ r. P ((and_then r f w).1).tables) (sym q) (subst (λ r. P (r.1).tables) q h),
    )
    | inr (a, t, q) ↦ subst (λ r. FailsOr P G (and_then r f w)) (sym q) (k a t q)
  ]
