-- ===== src/Db/Session/Laws.antt =====
-- How properties of the tables pass through tasks.
use event.Base.{ℕ, Result, ok, err, ◌≡◌, refl, ap, ◌∙◌, subst, Bool-cases, inl, inr}
use event.Db.{Uuid}
use event.RoomTime.{DateTime}
use event.Db.Session.{
  Tables, World, Session, Task, Statement, lift, and_then, ◌>>=◌, ◌>>◌, statement, settle,
  atomically, roll_back, commit,
}

module _ {E V' B : Type 0} where
  -- The task keeps the property of the tables, whatever comes of it.
  abbrev pub Keeps : {A : Type 0} → (Tables V' B → Type 0) → Task E V' B A → Type 0
  Keeps P m = (w : World) (s : Session V' B) → P s.tables → P ((m w s).1).tables

  and_then-Keeps :
      {A C : Type 0} (P : Tables V' B → Type 0) (r : Result E A × Session V' B)
      (f : A → Task E V' B C) (w : World)
      → ((a : A) → Keeps P (f a))
      → P (r.1).tables
      → P ((and_then r f w).1).tables
  and_then-Keeps P (ok a, s) f w k h = k a w s h
  and_then-Keeps P (err e, s) f w k h = h

  pub >>=-Keeps :
      {A C : Type 0} (P : Tables V' B → Type 0) (m : Task E V' B A) (f : A → Task E V' B C)
      → Keeps P m
      → ((a : A) → Keeps P (f a))
      → Keeps P (m >>= f)
  >>=-Keeps P m f h k w s p = and_then-Keeps P (m w s) f w k (h w s p)

  settle-Keeps :
      {A : Type 0} (P : Tables V' B → Type 0) (r : Result E (A × Tables V' B)) (s : Session V' B)
      → P s.tables
      → ((a : A) (t : Tables V' B) → r ≡ ok (a, t) → P t)
      → P ((settle r s).1).tables
  unfolding settle
  settle-Keeps P (ok (a, t)) s h k = k a t refl
  settle-Keeps P (err e) s h k = h

  pub statement-Keeps :
      {A : Type 0} (P : Tables V' B → Type 0) (e : E) (f : Statement E V' B A)
      → ((ids : ℕ → Uuid) (now : DateTime) (t : Tables V' B) (a : A) (t' : Tables V' B)
          → P t
          → f ids now t ≡ ok (a, t')
          → P t')
      → Keeps P (statement e f)
  unfolding statement
  statement-Keeps P e f k w s h = elim (Bool-cases (w.fails s.count)) [
    | inl b ↦ rw (statement, b) h
    | inr b ↦
        rw (statement, b)
          (settle-Keeps P (f (w.id s.count) (w.now s.count) s.tables) s h
            (λ a t e'. k (w.id s.count) (w.now s.count) s.tables a t h e'))
  ]

  roll_back_lem :
      {A : Type 0} (before : Tables V' B) (r : Result E A × Session V' B) {x : E}
      → (roll_back before r).0 ≡ err x
      → ((roll_back before r).1).tables ≡ before
  unfolding roll_back
  roll_back_lem before (ok a, s) h = cc
  roll_back_lem before (err e, s) h = refl

  -- A transaction that fails leaves the tables as they were.
  pub atomically-err :
      {A : Type 0} (e : E) (m : Task E V' B A) (w : World) (s : Session V' B) {x : E}
      → (atomically e m w s).0 ≡ err x
      → ((atomically e m w s).1).tables ≡ s.tables
  unfolding atomically
  atomically-err e m w s h = roll_back_lem s.tables _ h

  ap_tables :
      {A : Type 0} {a b : A} {t t' : Tables V' B}
      → ◌≡◌ {A = Result E (A × Tables V' B)} (ok (a, t)) (ok (b, t'))
      → t ≡ t'
  ap_tables q = cc

  roll_back-Keeps :
      {A : Type 0} (P : Tables V' B → Type 0) (before : Tables V' B) (r : Result E A × Session V' B)
      → P before
      → P (r.1).tables
      → P ((roll_back before r).1).tables
  unfolding roll_back
  roll_back-Keeps P before (ok a, s) h k = k
  roll_back-Keeps P before (err e, s) h k = h

  commit-Keeps :
      {A : Type 0} (P : Tables V' B → Type 0) (e : E) (a : A)
      → Keeps P (statement {V = V'} {B = B} e (commit a))
  commit-Keeps P e a =
      statement-Keeps P e (commit a) (λ ids now t b t' p q. subst P (ap_tables q) p)

  pub atomically-Keeps :
      {A : Type 0} (P : Tables V' B → Type 0) (e : E) (m : Task E V' B A)
      → Keeps P m
      → Keeps P (atomically e m)
  unfolding atomically
  atomically-Keeps P e m k w s h =
      roll_back-Keeps P s.tables
        ((statement e (commit tt) >> (m >>= λ a. statement e (commit a))) w s) h
        (>>=-Keeps P (statement e (commit tt)) (λ u. m >>= λ a. statement e (commit a))
          (commit-Keeps P e tt)
          (λ u. >>=-Keeps P m (λ a. statement e (commit a)) k (λ a. commit-Keeps P e a)) w s h)

  and_then-ok :
      {A C : Type 0} (r : Result E A × Session V' B) (f : A → Task E V' B C) (w : World) {c : C}
      {s' : Session V' B}
      → and_then r f w ≡ (ok c, s')
      → (a : A) × (t : Session V' B) × (r ≡ (ok a, t)) × (f a w t ≡ (ok c, s'))
  and_then-ok (ok a, t) f w h = (a, t, refl, h)
  and_then-ok (err e, t) f w h = cc

  -- What came before a result.
  pub >>=-ok :
      {A C : Type 0} (m : Task E V' B A) (f : A → Task E V' B C) (w : World) (s : Session V' B)
      {c : C} {s' : Session V' B}
      → (m >>= f) w s ≡ (ok c, s')
      → (a : A) × (t : Session V' B) × (m w s ≡ (ok a, t)) × (f a w t ≡ (ok c, s'))
  >>=-ok m f w s h = and_then-ok (m w s) f w h

  settle-ok :
      {A : Type 0} (r : Result E (A × Tables V' B)) (s : Session V' B) {a : A} {s' : Session V' B}
      → settle r s ≡ (ok a, s')
      → r ≡ ok (a, s'.tables)
  unfolding settle
  settle-ok (ok (b, t)) s h = cc
  settle-ok (err e) s h = cc

  -- What a statement made of the tables.
  pub statement-ok :
      {A : Type 0} (e : E) (f : Statement E V' B A) (w : World) (s : Session V' B) {a : A}
      {s' : Session V' B}
      → statement e f w s ≡ (ok a, s')
      → f (w.id s.count) (w.now s.count) s.tables ≡ ok (a, s'.tables)
  unfolding statement
  statement-ok e f w s h = elim (Bool-cases (w.fails s.count)) [
    | inl b ↦ cc (rw (statement, b) at h)
    | inr b ↦ settle-ok _ s (rw (statement, b) at h)
  ]

  roll_back-ok :
      {A : Type 0} (before : Tables V' B) (r : Result E A × Session V' B) {a : A}
      {s' : Session V' B}
      → roll_back before r ≡ (ok a, s')
      → r ≡ (ok a, s')
  unfolding roll_back
  roll_back-ok before (ok a, s) h = h
  roll_back-ok before (err e, s) h = cc

  commit-ok :
      {A : Type 0} (e : E) (a : A) (w : World) (s : Session V' B) {b : A} {s' : Session V' B}
      → statement e (commit a) w s ≡ (ok b, s')
      → (a ≡ b) × (s.tables ≡ s'.tables)
  commit-ok e a w s h =
      (cc (statement-ok e (commit a) w s h), ap_tables (statement-ok e (commit a) w s h))

  -- A transaction that goes through makes of the tables what its statements make of them.
  pub atomically-ok :
      {A : Type 0} (e : E) (m : Task E V' B A) (w : World) (s : Session V' B) {a : A}
      {s' : Session V' B}
      → atomically e m w s ≡ (ok a, s')
      → (t : Session V' B) × (t' : Session V' B) × (s.tables ≡ t.tables)
        × (m w t ≡ (ok a, t'))
        × (t'.tables ≡ s'.tables)
  unfolding atomically
  atomically-ok e m w s h =
      let (u, t, first, rest) =
        >>=-ok (statement e (commit tt)) (λ u. m >>= λ a. statement e (commit a)) w s
          (roll_back-ok s.tables _ h) in
      let (b, t', middle, last) = >>=-ok m (λ a. statement e (commit a)) w t rest in
      let (same, kept) = commit-ok e b w t' last in
      (t, t', (commit-ok e tt w s first).1, middle ∙ ap (λ x. (ok x, t')) same, kept)

  pub lift-ok :
      {A : Type 0} (r : Result E A) (w : World) (s s' : Session V' B) {a : A}
      → lift r w s ≡ (ok a, s')
      → (r ≡ ok a) × (s.tables ≡ s'.tables)
  lift-ok r w s s' h = (cc, cc)
