-- ===== src/Prelude/Lists.antt =====
-- Lists measured by native numbers, under the library's names, and predicates on all elements.
use Prim.Native.Nat.{ℕ, zero, suc, ◌+◌, ◌≤◌, ◌<◌, min}
use mathlib.Core.Path.{◌≡◌, refl, sym, ap, ◌∙◌}
use mathlib.Core.Bool.{Bool, true, false, ◌&&◌}
use mathlib.Core.Logic.{◌⊎◌, inl, inr}
use mathlib.Core.List.{List, [], ◌∷◌, ◌++◌, reverse, reverse-append, map}
use mathlib.Core.Option.{Option, none, some}
use native.Mathlib.Omega.{arith}
use capstone_project_git_fla.Prelude.Tests.{if◌then◌else◌, eqb, ltb}

module _ {ℓ} {A : Type ℓ} where
  abbrev pub length : List A → ℕ
  length [] = 0
  length (x ∷ xs) = suc (length xs)

  abbrev pub replicate : ℕ → A → List A
  replicate zero a = []
  replicate (suc n) a = a ∷ replicate n a

  abbrev pub take : ℕ → List A → List A
  take zero xs = []
  take (suc n) [] = []
  take (suc n) (x ∷ xs) = x ∷ take n xs

  abbrev pub drop : ℕ → List A → List A
  drop zero xs = xs
  drop (suc n) [] = []
  drop (suc n) (x ∷ xs) = drop n xs

  -- The elements that pass a Boolean test, in their order.
  abbrev pub keep : (A → Bool) → List A → List A
  keep p [] = []
  keep p (x ∷ xs) = let rest = keep p xs in if p x then x ∷ rest else rest

  abbrev pub any : (A → Bool) → List A → Bool
  any p [] = false
  any p (x ∷ xs) = let rest = any p xs in if p x then true else rest

  pub length-append : (xs ys : List A) → length (xs ++ ys) ≡ length xs + length ys
  length-append [] ys = omega arith
  length-append (x ∷ xs) ys = omega (arith, length-append xs ys)

  pub length-take : (n : ℕ) (xs : List A) → length (take n xs) ≡ min n (length xs)
  length-take zero xs = omega arith
  length-take (suc n) [] = omega arith
  length-take (suc n) (x ∷ xs) = omega (arith, length-take n xs)

  pub length-keep : (p : A → Bool) (xs : List A) → length (keep p xs) ≤ length xs
  length-keep p [] = omega arith
  length-keep p (x ∷ xs) = ground (arith, length-keep p xs)

  pub reverse-cons : (x : A) (xs : List A) → reverse (x ∷ xs) ≡ reverse xs ++ x ∷ []
  reverse-cons x xs = reverse-append (x ∷ []) xs

module _ {ℓ κ} {A : Type ℓ} (P : A → Type κ) where
  abbrev pub All : List A → Type κ
  All [] = Unit
  All (x ∷ xs) = P x × All xs

  pub All-append : (xs ys : List A) → All xs → All ys → All (xs ++ ys)
  All-append [] ys _ hy = hy
  All-append (x ∷ xs) ys (px, hx) hy = (px, All-append xs ys hx hy)

  pub All-tail : (x : A) (xs : List A) → All (x ∷ xs) → All xs
  All-tail x xs h = h.1

  All-if : (b : Bool) (x : A) (xs : List A) → P x → All xs → All (if b then x ∷ xs else xs)
  All-if true x xs px hx = (px, hx)
  All-if false x xs px hx = hx

  pub All-keep : (p : A → Bool) (xs : List A) → All xs → All (keep p xs)
  All-keep p [] h = tt
  All-keep p (x ∷ xs) (px, hx) = All-if (p x) x (keep p xs) px (All-keep p xs hx)

  pub All-reverse : (xs : List A) → All xs → All (reverse xs)
  All-reverse [] h = h
  All-reverse (x ∷ xs) (px, hx) =
      rw (reverse-cons x xs) (All-append (reverse xs) (x ∷ []) (All-reverse xs hx) (px, tt))

  pub All-replicate : (n : ℕ) (x : A) → P x → All (replicate n x)
  All-replicate zero x px = tt
  All-replicate (suc n) x px = (px, All-replicate n x px)

pub All-map {ℓ κ μ} :
    {A : Type ℓ} (P : A → Type κ) (Q : A → Type μ) (f : (x : A) → P x → Q x) (xs : List A)
    → All P xs
    → All Q xs
All-map P Q f [] h = tt
All-map P Q f (x ∷ xs) (px, hx) = (f x px, All-map P Q f xs hx)

module _ {ℓ} {A : Type ℓ} where
  abbrev pub get_elem? : List A → ℕ → Option A
  get_elem? [] i = none
  get_elem? (x ∷ xs) zero = some x
  get_elem? (x ∷ xs) (suc i) = get_elem? xs i

  -- A write out of bounds changes nothing.
  abbrev pub set : List A → ℕ → A → List A
  set [] i v = []
  set (x ∷ xs) zero v = v ∷ xs
  set (x ∷ xs) (suc i) v = x ∷ set xs i v

  pub get_elem?-set :
      (xs : List A) (i j : ℕ) (v : A)
      → get_elem? (set xs i v) j ≡ (if eqb i j && ltb j (length xs) then some v else get_elem? xs j)
  get_elem?-set [] i j v = ground arith
  get_elem?-set (x ∷ xs) zero zero v = ground arith
  get_elem?-set (x ∷ xs) zero (suc j) v = ground arith
  get_elem?-set (x ∷ xs) (suc i) zero v = ground arith
  get_elem?-set (x ∷ xs) (suc i) (suc j) v = ground (arith, get_elem?-set xs i j v)

  pub get_elem?-lt : (xs : List A) (i : ℕ) {v : A} → get_elem? xs i ≡ some v → i < length xs
  get_elem?-lt [] i h = cc
  get_elem?-lt (x ∷ xs) zero h = omega arith
  get_elem?-lt (x ∷ xs) (suc i) h = omega (arith, get_elem?-lt xs i h)

  pub get_elem?-append_one :
      (xs : List A) (v : A) (i : ℕ)
      → get_elem? (xs ++ v ∷ []) i ≡ (if eqb i (length xs) then some v else get_elem? xs i)
  get_elem?-append_one [] v zero = ground arith
  get_elem?-append_one [] v (suc i) = ground arith
  get_elem?-append_one (x ∷ xs) v zero = ground arith
  get_elem?-append_one (x ∷ xs) v (suc i) = ground (arith, get_elem?-append_one xs v i)

-- The value stands in the list.
abbrev pub Member : {A : Type 0} → A → List A → Type 0
Member k [] = ⊥
Member k (j ∷ js) = (j ≡ k) ⊎ Member k js

module _ {A B : Type 0} where
  pub Member-map : (f : A → B) (x : A) (xs : List A) → Member x xs → Member (f x) (map f xs)
  Member-map f x [] m = m
  Member-map f x (y ∷ ys) (inl e) = inl (ap f e)
  Member-map f x (y ∷ ys) (inr m) = inr (Member-map f x ys m)

  pub map-keep-Member :
      (f : A → B) (p : A → Bool) (k : B) (xs : List A)
      → Member k (map f (keep p xs))
      → Member k (map f xs)
  map-keep-Member f p k [] m = m
  map-keep-Member f p k (y ∷ ys) m = go (p y) m (map-keep-Member f p k ys)
    where
      go :
          (b : Bool)
          → Member k (map f (if b then y ∷ keep p ys else keep p ys))
          → (Member k (map f (keep p ys)) → Member k (map f ys))
          → Member k (map f (y ∷ ys))
      go true (inl e) ih = inl e
      go true (inr m') ih = inr (ih m')
      go false m' ih = inr (ih m')

module _ {A : Type 0} where
  pub Member-of_keep :
      (p : A → Bool) (x : A) (xs : List A) → Member x (keep p xs) → Member x xs × (p x ≡ true)
  Member-of_keep p x [] m = absurd m
  Member-of_keep p x (y ∷ ys) m = go (p y) refl m (Member-of_keep p x ys)
    where
      go :
          (b : Bool)
          → p y ≡ b
          → Member x (if b then y ∷ keep p ys else keep p ys)
          → (Member x (keep p ys) → Member x ys × (p x ≡ true))
          → Member x (y ∷ ys) × (p x ≡ true)
      go true e (inl q) ih = (inl q, ap p (sym q) ∙ e)
      go true e (inr m') ih = let (a, b) = ih m' in (inr a, b)
      go false e m' ih = let (a, b) = ih m' in (inr a, b)

  pub Member-keep :
      (p : A → Bool) (x : A) (xs : List A) → Member x xs → p x ≡ true → Member x (keep p xs)
  Member-keep p x [] m h = m
  Member-keep p x (y ∷ ys) m h = go (p y) refl m (λ m'. Member-keep p x ys m' h)
    where
      go :
          (b : Bool)
          → p y ≡ b
          → Member x (y ∷ ys)
          → (Member x ys → Member x (keep p ys))
          → Member x (if b then y ∷ keep p ys else keep p ys)
      go true e (inl q) ih = inl q
      go true e (inr m') ih = inr (ih m')
      go false e (inl q) ih = absurd (ground (arith, ap p q))
      go false e (inr m') ih = ih m'
