-- ===== src/Prelude/Map.antt =====
-- Go's `map[string]V` as a list of entries in an arbitrary order. A write to a key that is there
-- stays in place; a new key goes last.
use mathlib.Core.Path.{◌≡◌, refl}
use mathlib.Core.Option.{Option, none, some}
use mathlib.Core.List.{List, [], ◌∷◌}
use native.Mathlib.Omega.{arith}
use capstone_project_git_fla.Prelude.Tests.{if◌then◌else◌}
use capstone_project_git_fla.Prelude.Strings.{Bytes, ◌==◌, eq_iff, eq_refl}

abbrev pub Map {ℓ} : Type ℓ → Type ℓ
Map V = List (Bytes × V)

module _ {ℓ} {V : Type ℓ} where
  unfoldable pub lookup : Bytes → Map V → Option V
  lookup key [] = none
  lookup key ((name, value) ∷ rest) = if name == key then some value else lookup key rest

  unfoldable pub insert : Bytes → V → Map V → Map V
  insert key new [] = (key, new) ∷ []
  insert key new ((name, value) ∷ rest) =
      if name == key then (key, new) ∷ rest else (name, value) ∷ insert key new rest

  pub lookup-insert :
      (key asked : Bytes) (new : V) (entries : Map V)
      → lookup asked (insert key new entries)
        ≡ (if key == asked then some new else lookup asked entries)
  unfolding lookup insert
  lookup-insert key asked new [] = refl
  lookup-insert key asked new ((name, value) ∷ rest) = ground (
    arith,
    eq_iff key asked,
    eq_iff name key,
    eq_iff name asked,
    lookup-insert key asked new rest,
  )

  pub lookup-insert_self :
      (key : Bytes) (new : V) (entries : Map V) → lookup key (insert key new entries) ≡ some new
  lookup-insert_self key new entries = simp (lookup-insert, eq_refl)

  pub lookup-nil : (key : Bytes) → lookup key [] ≡ none
  unfolding lookup
  lookup-nil key = refl
