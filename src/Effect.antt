-- ===== src/Effect.antt =====
-- Computations with a state and an error: Go code that calls a service or a store, one call after
-- another. A failing one keeps the state that it reached.
use capstone_project_git_fla.Errors.{Err, Result, ok, err}

abbrev pub Step : Type 0 → Type 0 → Type 0
Step S A = S → Result A × S

module _ {S : Type 0} where
  abbrev pub continue_with : {A B : Type 0} → Result A → (A → Step S B) → Step S B
  continue_with (ok value) next s = next value s
  continue_with (err cause) next s = (err cause, s)

  infixl 5 ◌>>=◌ ◌>>◌
  abbrev pub ◌>>=◌ : {A B : Type 0} → Step S A → (A → Step S B) → Step S B
  ◌>>=◌ first next s = let (result, reached) = first s in continue_with result next reached

  abbrev pub ◌>>◌ : {A B : Type 0} → Step S A → Step S B → Step S B
  first >> second = first >>= λ _. second

  abbrev pub give : {A : Type 0} → A → Step S A
  give value s = (ok value, s)

  abbrev pub fail : {A : Type 0} → Err → Step S A
  fail cause s = (err cause, s)

  abbrev pub from : {A : Type 0} → Result A → Step S A
  from result s = (result, s)

  -- the call's result, an error too, goes to `next`
  abbrev pub inspect : {A B : Type 0} → Step S A → (Result A → Step S B) → Step S B
  inspect first next s = let (result, reached) = first s in next result reached
