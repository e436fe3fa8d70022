-- ===== src/Prelude/Strings.antt =====
-- Go strings as lists of bytes, their equality, and literals.
use Prim.Native.Nat.{ℕ}
use Prim.Native.Char.{code}
use Prim.Native.String.{String}
use mathlib.Core.Path.{◌≡◌, refl}
use mathlib.Core.Bool.{Bool, true, false, ◌&&◌, ◌||◌}
use mathlib.Core.Logic.{◌↔◌, ◌≢◌}
use mathlib.Core.List.{List, [], ◌∷◌}
use native.Mathlib.Omega.{arith}
use capstone_project_git_fla.Prelude.Tests.{eqb}
use capstone_project_git_fla.Prelude.Lists.{All, Member}

abbrev pub Bytes : Type 0
Bytes = List ℕ

-- The bytes of an ASCII literal.
abbrev pub codes : String → Bytes
codes String.[] = []
codes (String.◌∷◌ c s) = code c ∷ codes s

infix 50 ◌==◌
unfoldable pub ◌==◌ : Bytes → Bytes → Bool
[] == [] = true
[] == (b ∷ t) = false
(a ∷ s) == [] = false
(a ∷ s) == (b ∷ t) = eqb a b && s == t

eq_sound : (s t : Bytes) → (s == t) ≡ true → s ≡ t
unfolding ◌==◌
eq_sound [] [] h = refl
eq_sound [] (b ∷ t) h = cc
eq_sound (a ∷ s) [] h = cc
eq_sound (a ∷ s) (b ∷ t) h = ground (arith, eq_sound s t)

pub eq_refl : (s : Bytes) → (s == s) ≡ true
unfolding ◌==◌
eq_refl [] = refl
eq_refl (a ∷ s) = ground (arith, eq_refl s)

pub eq_iff : (s t : Bytes) → ((s == t) ≡ true) ↔ (s ≡ t)
eq_iff s t = (eq_sound s t, λ e. cc (eq_refl s, e))

abbrev pub is_empty : Bytes → Bool
is_empty [] = true
is_empty (_ ∷ _) = false

-- No byte of the text is `b`.
abbrev pub Lacks : ℕ → Bytes → Type 0
Lacks b = All (λ c. c ≢ b)

-- A Go `map[string]struct{}`: its keys.
unfoldable pub contains : List Bytes → Bytes → Bool
contains [] k = false
contains (j ∷ js) k = j == k || contains js k

pub contains_iff : (js : List Bytes) (k : Bytes) → (contains js k ≡ true) ↔ Member k js
unfolding contains
contains_iff [] k = ((λ h. cc), (λ h. absurd h))
contains_iff (j ∷ js) k = ground (arith, eq_iff j k, contains_iff js k)

-- No text stands twice in the list.
abbrev pub Distinct : List Bytes → Type 0
Distinct [] = Unit {0}
Distinct (k ∷ ks) = (¬ Member k ks) × Distinct ks

pub not-contains : (js : List Bytes) (k : Bytes) → contains js k ≡ false → ¬ Member k js
not-contains js k h m = cc (h, (contains_iff js k).1 m)

pub contains-false : (js : List Bytes) (k : Bytes) → ¬ Member k js → contains js k ≡ false
contains-false js k h = ground (arith, contains_iff js k)
