-- ===== src/Workflow/Keeps.antt =====
-- Invariants of the workflow's actions: one rule for each way to build an action.
use capstone_project_git_fla.Prelude.{Bool, true, false, if◌then◌else◌}
use capstone_project_git_fla.Errors.{Err, Result, ok, err}
use capstone_project_git_fla.Workflow.Effects.{
  World, Action, resume, ◌>>=◌, pure, raise, lift, attempt, peek, or_fail,
}

-- The action keeps the predicate, whether it succeeds or fails.
pub record Keeps {A : Type 0} (P : World → Type 0) (m : Action A) : Type 0 where
  pub at : (w : World) → P w → P (m w).1

module _ {P : World → Type 0} where
  pub Keeps-pure : {A : Type 0} (a : A) → Keeps P (pure a)
  Keeps-pure a = record { at = λ w h. h }

  pub Keeps-raise : {A : Type 0} (e : Err) → Keeps P (raise {A = A} e)
  Keeps-raise e = record { at = λ w h. h }

  pub Keeps-lift : {A : Type 0} (r : Result A) → Keeps P (lift r)
  Keeps-lift r = record { at = λ w h. h }

  pub Keeps-attempt : {A : Type 0} (m : Action A) → Keeps P m → Keeps P (attempt m)
  Keeps-attempt m k = record { at = λ w h. k.at w h }

  pub Keeps-or_fail :
      {A : Type 0} (r : Result A) (f : Err → Action (Unit {0}))
      → ((e : Err) → Keeps P (f e))
      → Keeps P (or_fail r f)
  Keeps-or_fail (ok a) f k = record { at = λ w h. h }
  Keeps-or_fail (err e) f k = record { at = λ w h. (k e).at w h }

  pub Keeps-resume :
      {A B : Type 0} (r : Result A) (f : A → Action B)
      → ((a : A) → Keeps P (f a))
      → Keeps P (resume r f)
  Keeps-resume (ok a) f k = k a
  Keeps-resume (err e) f k = record { at = λ w h. h }

  pub Keeps-bind :
      {A B : Type 0} (m : Action A) (f : A → Action B)
      → Keeps P m
      → ((a : A) → Keeps P (f a))
      → Keeps P (m >>= f)
  Keeps-bind m f km kf = record {
    at = λ w h. let (r, w') = m w in (Keeps-resume r f kf).at w' (km.at w h);
  }

  pub Keeps-if :
      {A : Type 0} (b : Bool) (m n : Action A)
      → Keeps P m
      → Keeps P n
      → Keeps P (if b then m else n)
  Keeps-if true m n km kn = km
  Keeps-if false m n km kn = kn

  pub Keeps-peek :
      {A B : Type 0} (m : Action A) (f : Result A → Action B)
      → Keeps P m
      → ((r : Result A) → Keeps P (f r))
      → Keeps P (peek m f)
  Keeps-peek m f km kf = record { at = λ w h. let (r, w') = m w in (kf r).at w' (km.at w h) }

pub ruleset keeps_rules = (
  Keeps-pure, Keeps-raise, Keeps-lift, Keeps-attempt, Keeps-or_fail, Keeps-bind, Keeps-if,
  Keeps-peek,
)
