-- ===== src/Cluster/Rules.antt =====
-- Rules for the flows of a pass, one for each way in which Reconcile joins its steps, and what holds
-- of each call of a log together with the calls before it.
use mathlib.Core.List.{append-nil, append_assoc}
use hyperbytedb_operator.Prelude.{
  ◌≡◌, refl, sym, String, Bool, true, false, List, [], ◌∷◌, ◌++◌, map, if◌then◌else◌, Failure,
  Result, ok, err, Exec, All,
}
use mathlib.Core.Path.{subst}
use hyperbytedb_operator.Cluster.State.{
  Effect, Pass, Outcome, Flow, note, set_failed_status, proceed, must, try,
}

-- `P` of each call and the calls before it.
abbrev pub AllIn : (List Effect → Effect → Type 0) → (before log : List Effect) → Type 0
AllIn P before [] = Unit
AllIn P before (e ∷ es) = P before e × AllIn P (before ++ (e ∷ [])) es

module _ (P : List Effect → Effect → Type 0) where
  pub AllIn-append :
      (before xs ys : List Effect)
      → AllIn P before xs
      → AllIn P (before ++ xs) ys
      → AllIn P before (xs ++ ys)
  AllIn-append before [] ys h k = subst (λ l. AllIn P l ys) (append-nil before) k
  AllIn-append before (x ∷ xs) ys h k = (
    h.0,
    AllIn-append (before ++ (x ∷ [])) xs ys h.1
        (subst (λ l. AllIn P l ys) (sym (append_assoc before (x ∷ []) xs)) k),
  )

  -- Calls of one component, each with a property of its own and what every longer log keeps.
  pub AllIn-tag :
      {C : Type 0} (tag : C → Effect) (T : List Effect → Type 0) (R : C → Type 0)
      (before : List Effect) (calls : List C)
      → ((log more : List Effect) → T log → T (log ++ more))
      → ((log : List Effect) (x : C) → T log → R x → P log (tag x))
      → T before
      → All R calls
      → AllIn P before (map tag calls)
  AllIn-tag tag T R before [] keep each t h = tt
  AllIn-tag tag T R before (x ∷ xs) keep each t h = (
    each before x t h.0,
    AllIn-tag tag T R (before ++ (tag x ∷ [])) xs keep each (keep before (tag x ∷ []) t) h.1,
  )

pub record Meets (I : Pass → Type 0) (Q : Outcome → Pass → Type 0) (f : Flow) : Type 0 where
  pub at : (p : Pass) → I p → Q (f p).0 (f p).1

module _ {I : Pass → Type 0} {Q : Outcome → Pass → Type 0} where
  pub Meets-if :
      (b : Bool) (f g : Flow)
      → (b ≡ true → Meets I Q f)
      → (b ≡ false → Meets I Q g)
      → Meets I Q (if b then f else g)
  Meets-if true f g hf hg = hf refl
  Meets-if false f g hf hg = hg refl

module _ {I : Pass → Type 0} {Q : Outcome → Pass → Type 0} {A : Type 0} where
  pub Meets-proceed :
      (reason : String) (r : Result A) (next : A → Flow)
      → ((e : Failure) → Meets I Q (set_failed_status reason e))
      → ((a : A) → r ≡ ok a → Meets I Q (next a))
      → Meets I Q (proceed reason r next)
  Meets-proceed reason (ok a) next he ha = ha a refl
  Meets-proceed reason (err e) next he ha = he e

  pub Meets-must :
      {C : Type 0} (tag : C → Effect) (reason : String) (m : Exec (List C) A) (next : A → Flow)
      → ((p : Pass) → I p → I (note tag (m []).1 p))
      → ((e : Failure) → Meets I Q (set_failed_status reason e))
      → ((a : A) → (m []).0 ≡ ok a → Meets I Q (next a))
      → Meets I Q (must tag reason m next)
  Meets-must tag reason m next keep he ha = record {
    at = λ p i. (Meets-proceed reason (m []).0 next he ha).at (note tag (m []).1 p) (keep p i);
  }

  pub Meets-try :
      {C : Type 0} (tag : C → Effect) (m : Exec (List C) A) (next : Flow)
      → ((p : Pass) → I p → I (note tag (m []).1 p))
      → Meets I Q next
      → Meets I Q (try tag m next)
  Meets-try tag m next keep h = record { at = λ p i. h.at (note tag (m []).1 p) (keep p i) }
