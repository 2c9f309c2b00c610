-- ===== src/CommitEdition/CollectGaps/Meaning.antt =====
-- The gaps that nested cuts stand for (`collect_gaps` of
-- `src/app/operations/commit_edition.rs`).
use event.Base.{
  ℕ, zero, suc, ◌+◌, ◌^◌, ◌<◌, ℤ, ◌≡◌, refl, Bool, true, false, ◌&&◌, some, List, [], ◌∷◌, ◌≤ℤ◌,
  ltb_ℤ, if◌then◌else◌, length, min_ℤ, sym, ◌∙◌, ◌<ℤ◌, arith,
}
use event.Ranges.{Range, covers}
use event.Ranges.Cover.{covers_before}
use event.AdjustRoom.Cuts.{Command, start, stop}
use event.AdjustRoom.Cuts.Meaning.{InOrder}
use event.CommitEdition.CollectGaps.Machine.{State, started, stopped}
use event.CommitEdition.CollectGaps.Steps.{
  run, depth, StartedBy, run-start, run-start_nested, run-stop_nested, run-stop_stopped,
  run-stop_inv, run-nil_inv, run-IsOrdered,
}

-- The open cuts are all closed again.
pub closes : ℕ → List (Command × ℤ) → Bool
closes zero cs = true
closes (suc d) [] = false
closes (suc d) ((start, t) ∷ cs) = closes (suc (suc d)) cs
closes (suc d) ((stop, t) ∷ cs) = closes d cs

abbrev pub is_open : ℕ → Bool
is_open zero = false
is_open (suc d) = true

abbrev pub outer : ℕ → ℕ
outer zero = zero
outer (suc d) = d

-- A moment is cut out if some cut is open at it, and all that are open are closed later.
pub cut_at : ℤ → ℕ → List (Command × ℤ) → Bool
cut_at x d [] = false
cut_at x d ((start, t) ∷ cs) =
    if ltb_ℤ x t then is_open d && closes d ((start, t) ∷ cs) else cut_at x (suc d) cs
cut_at x d ((stop, t) ∷ cs) =
    if ltb_ℤ x t then is_open d && closes d ((stop, t) ∷ cs) else cut_at x (outer d) cs

-- A moment in the open cut, before all that follows, is covered if the cut is closed.
covers-run_open :
    (x s now : ℤ) (n : ℕ) (cs : List (Command × ℤ)) (gaps : List Range)
    → s ≤ℤ x
    → x <ℤ now
    → InOrder now cs
    → suc n + length cs < 2 ^ 64
    → run (started s n) cs ≡ some gaps
    → covers x gaps ≡ closes (suc n) cs
unfolding closes
covers-run_open x s now n [] gaps p q h l e = rw (run-nil_inv (started s n) e) refl
covers-run_open x s now n ((start, t) ∷ cs) gaps p q h l e =
    covers-run_open x s t (suc n) cs gaps p (omega arith) h.1 (omega arith)
      (sym (run-start_nested s t n cs (omega arith)) ∙ e)
covers-run_open x s now zero ((stop, t) ∷ cs) gaps p q h l e =
    let (rest, r, g) = run-stop_inv s t cs e in rw g (ground arith)
covers-run_open x s now (suc n) ((stop, t) ∷ cs) gaps p q h l e =
    covers-run_open x s t n cs gaps p (omega arith) h.1 (omega arith)
      (sym (run-stop_nested s t n cs) ∙ e)

-- With no cut open, nothing before what follows is covered.
covers-run_stopped :
    (x now : ℤ) (cs : List (Command × ℤ)) (gaps : List Range)
    → x <ℤ now
    → InOrder now cs
    → length cs < 2 ^ 64
    → run stopped cs ≡ some gaps
    → covers x gaps ≡ false
covers-run_stopped x now cs gaps q h l e =
    covers_before x now gaps (run-IsOrdered stopped now cs gaps tt h (omega arith) e) q

covers_step :
    (x t : ℤ) (c b d : Bool)
    → (ltb_ℤ x t ≡ true → c ≡ b)
    → (ltb_ℤ x t ≡ false → c ≡ d)
    → c ≡ (if ltb_ℤ x t then b else d)
covers_step x t c b d h k = ground arith

-- The gaps cover exactly what is cut out.
pub covers-run :
    (x : ℤ) (state : State) (now : ℤ) (cs : List (Command × ℤ)) (gaps : List Range)
    → StartedBy state now
    → InOrder now cs
    → now ≤ℤ x
    → depth state + length cs < 2 ^ 64
    → run state cs ≡ some gaps
    → covers x gaps ≡ cut_at x (depth state) cs
unfolding cut_at closes
covers-run x state now [] gaps b h k l e = rw (run-nil_inv state e) refl
covers-run x stopped now ((start, t) ∷ cs) gaps b h k l e =
    let e' : run (started t 0) cs ≡ some gaps = sym (run-start t cs) ∙ e in
    covers_step x t _ _ _
      (λ q.
        covers_before x t gaps
          (run-IsOrdered (started t 0) t cs gaps (omega arith) h.1 (omega arith) e') (ground arith))
      (λ q. covers-run x (started t 0) t cs gaps (omega arith) h.1 (ground arith) (omega arith) e')
covers-run x stopped now ((stop, t) ∷ cs) gaps b h k l e = cc (run-stop_stopped t cs)
covers-run x (started s n) now ((start, t) ∷ cs) gaps b h k l e =
    let e' : run (started s (suc n)) cs ≡ some gaps =
      sym (run-start_nested s t n cs (omega arith)) ∙ e in
    covers_step x t _ _ _
      (λ q. covers-run_open x s t (suc n) cs gaps (omega arith) (ground arith) h.1 (omega arith) e')
      (λ q.
        covers-run x (started s (suc n)) t cs gaps (omega arith) h.1 (ground arith) (omega arith)
          e')
covers-run x (started s zero) now ((stop, t) ∷ cs) gaps b h k l e =
    let (rest, r, g) = run-stop_inv s t cs e in
    rw g (
      covers_step x t _ _ _ (λ q. ground arith)
        (λ q. ground (arith, covers-run x stopped t cs rest tt h.1 (ground arith) (omega arith) r)))
covers-run x (started s (suc n)) now ((stop, t) ∷ cs) gaps b h k l e =
    let e' : run (started s n) cs ≡ some gaps = sym (run-stop_nested s t n cs) ∙ e in
    covers_step x t _ _ _
      (λ q. covers-run_open x s t n cs gaps (omega arith) (ground arith) h.1 (omega arith) e')
      (λ q. covers-run x (started s n) t cs gaps (omega arith) h.1 (ground arith) (omega arith) e')

abbrev pub IsSortedTimes : List (Command × ℤ) → Type 0
IsSortedTimes [] = Unit
IsSortedTimes ((c, t) ∷ cs) = InOrder t cs

-- The same for every moment, also one before all cuts.
pub covers-run_all :
    (x : ℤ) (cs : List (Command × ℤ)) (gaps : List Range)
    → IsSortedTimes cs
    → length cs < 2 ^ 64
    → run stopped cs ≡ some gaps
    → covers x gaps ≡ cut_at x 0 cs
covers-run_all x [] gaps h l e = covers-run x stopped x [] gaps tt tt (omega arith) l e
covers-run_all x ((c, t) ∷ cs) gaps h l e =
    covers-run x stopped (min_ℤ x t) ((c, t) ∷ cs) gaps tt (ground arith) (ground arith)
      (omega arith) e
