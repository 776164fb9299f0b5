-- ===== src/Jobs/Actions.antt =====
-- The statements of a job, one after another, on the world of the worker, and what keeps a run ready.
use fraudhunter.Common.{String, Bool, true, false, ◌≡◌, refl, ◌∙◌, if◌then◌else◌}
use fraudhunter.Common.Result.{Result, ok, err}
use fraudhunter.Queue.Handover.{IsReady}
use fraudhunter.Jobs.Execute.{World, Action, after}

module _ {R A : Type 0} where
  abbrev pub returns : A → Action R A
  returns a w = (ok a, w)

  -- A call that only reads the process: it returns, or raises.
  abbrev pub lift : Result A → Action R A
  lift r w = (r, w)

  -- The rest of a function, after a statement that ended so.
  abbrev pub continue : {B : Type 0} → (A → Action R B) → Result A × World R → Result B × World R
  continue rest (err e, w) = (err e, w)
  continue rest (ok a, w) = rest a w

infixl 4 ◌>>=◌
abbrev pub ◌>>=◌ : {R A B : Type 0} → Action R A → (A → Action R B) → Action R B
(m >>= rest) w = continue rest (m w)

module _ {R A : Type 0} where
  -- The action leaves the locks, and the run `i` ready.
  pub record Keeps (i : String) (a : Action R A) : Type 0 where
    pub locks : (w : World R) → (a w).1.held ≡ w.held
    pub ready : (w : World R) → IsReady i w.table → IsReady i (a w).1.table

module _ {R : Type 0} (i : String) where
  pub lift-Keeps : {A : Type 0} (r : Result A) → Keeps i (lift {R = R} r)
  lift-Keeps r = record { locks = λ w. refl; ready = λ w h. h }

  -- What keeps the run after a statement that kept it.
  KeepsFrom : {A : Type 0} → World R → Result A × World R → Type 0
  KeepsFrom w (r, v) = (v.held ≡ w.held) × (IsReady i w.table → IsReady i v.table)

  continue-Keeps :
      {A B : Type 0} (rest : A → Action R B) (w : World R) (x : Result A × World R)
      → ((a : A) → Keeps i (rest a))
      → KeepsFrom w x
      → KeepsFrom w (continue rest x)
  unfolding KeepsFrom
  continue-Keeps rest w (err e, v) keeps h = h
  continue-Keeps rest w (ok a, v) keeps (same, ready) =
      ((keeps a).locks v ∙ same, λ r. (keeps a).ready v (ready r))

  pub bind-Keeps :
      {A B : Type 0} (m : Action R A) (rest : A → Action R B)
      → Keeps i m
      → ((a : A) → Keeps i (rest a))
      → Keeps i (m >>= rest)
  unfolding KeepsFrom
  bind-Keeps m rest h keeps = record {
    locks = λ w. (continue-Keeps rest w (m w) keeps (h.locks w, h.ready w)).0;
    ready = λ w. (continue-Keeps rest w (m w) keeps (h.locks w, h.ready w)).1;
  }

  pub after-Keeps :
      {A B : Type 0} (r : Result A) (rest : A → Action R B)
      → ((a : A) → Keeps i (rest a))
      → Keeps i (after r rest)
  after-Keeps (ok a) rest keeps = record {
    locks = λ w. (keeps a).locks w;
    ready = λ w. (keeps a).ready w;
  }
  after-Keeps (err e) rest keeps = record { locks = λ w. refl; ready = λ w h. h }

  pub if-Keeps :
      {A : Type 0} (b : Bool) (x y : Action R A)
      → Keeps i x
      → Keeps i y
      → Keeps i (if b then x else y)
  if-Keeps true x y h k = h
  if-Keeps false x y h k = k
