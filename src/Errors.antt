-- ===== src/Errors.antt =====
-- Go's `error` values, and results of code that may fail. `Error()` is `message`; `errors.As` with
-- an `*agent.Error` (backend/internal/agent/client.go) is `as_engine`.
use capstone_project_git_fla.Prelude.{
  ℕ, String, Bool, true, false, Option, none, some, ◌++◌, Bytes, codes, ◌≡◌, ◌↔◌, refl,
}

pub record EngineError : Type 0 where
  pub status : ℕ
  pub code : Bytes
  pub detail : Bytes

pub data Err : Type 0 where
  -- `errors.New` of a fixed text
  text : String → Err
  -- `fmt.Errorf` of a text, an argument and a text
  about : String → Bytes → String → Err
  -- `fmt.Errorf` of two arguments, the second one by `%q`
  quoted : String → Bytes → String → Bytes → Err
  -- `*agent.Error`
  engine : EngineError → Err
  -- `repository.ErrNotFound`
  not_found : Err
  -- `fmt.Errorf("%w: %v", ErrDispatch, cause)`
  dispatch_failed : Err → Err
  -- `fmt.Errorf` of a text and an error by `%w`
  wrapped : String → Err → Err

pub data Result {ℓ} (A : Type ℓ) : Type ℓ where
  ok : A → Result A
  err : Err → Result A

infixl 5 ◌>>=◌
abbrev pub ◌>>=◌ {ℓ κ} : {A : Type ℓ} {B : Type κ} → Result A → (A → Result B) → Result B
ok value >>= next = next value
err cause >>= next = err cause

infixl 5 ◌>>◌
abbrev pub ◌>>◌ {ℓ} : {B : Type ℓ} → Result (Unit {0}) → Result B → Result B
first >> second = first >>= λ _. second

-- `if !b { return e }`
abbrev pub guard : Bool → Err → Result (Unit {0})
guard true cause = ok tt
guard false cause = err cause

-- `%q` is rendered by quotation marks; the escapes that it makes inside them are left out.
unfoldable pub message : Err → Bytes
message (text t) = codes t
message (about before arg after) = codes before ++ arg ++ codes after
message (quoted before arg between arg') =
    codes before ++ arg ++ codes between ++ codes "\"" ++ arg' ++ codes "\""
message (engine e) = e.detail
message not_found = codes "repository record was not found"
message (dispatch_failed cause) = codes "task dispatch failed: " ++ message cause
message (wrapped before cause) = codes before ++ message cause

unfoldable pub as_engine : Err → Option EngineError
as_engine (engine e) = some e
as_engine (wrapped before cause) = as_engine cause
as_engine other = none

-- The outcome is a success.
abbrev pub IsOk {ℓ} : {A : Type ℓ} → Result A → Type 0
IsOk (ok a) = Unit {0}
IsOk (err e) = ⊥

pub ok_injective {ℓ} : {A : Type ℓ} (a b : A) → ok a ≡ ok b → a ≡ b
ok_injective a b e = cc

-- A sequence succeeds exactly when both parts do.
pub >>_iff : (m k : Result (Unit {0})) → ((m >> k) ≡ ok tt) ↔ ((m ≡ ok tt) × (k ≡ ok tt))
>>_iff (ok u) k = ((λ h. (refl, h)), (λ (_, h). h))
>>_iff (err e) k = ((λ h. (h, cc)), (λ (h, _). h))

pub guard_iff : (b : Bool) (e : Err) → (guard b e ≡ ok tt) ↔ (b ≡ true)
guard_iff true e = ((λ h. refl), (λ h. refl))
guard_iff false e = ((λ h. cc), (λ h. cc))
