-- ===== src/Paths/Safety.antt =====
-- `safePlanPath` accepts exactly the normalised paths that stay inside the repository.
use capstone_project_git_fla.Prelude.{
  Bool, true, false, List, [], ◌∷◌, ◌++◌, ◌≡◌, ◌≢◌, ◌↔◌, refl, sym, arith, Bytes, codes, ◌==◌,
  eq_iff, All, Lacks,
}
use capstone_project_git_fla.Text.{has_prefix, trim_prefix, replace_byte, split, join}
use capstone_project_git_fla.Text.Laws.{
  split-join, join-split, join-cons, tail_of, has_prefix-join, join-eq_of_Lacks,
}
use capstone_project_git_fla.Paths.{dot_git, normalize_plan_path, safe_plan_path}
use capstone_project_git_fla.Paths.Clean.{Cleaned, dot, dot_dot, parts, is_rooted, render, clean}
use mathlib.Core.Path.{subst}
use capstone_project_git_fla.Paths.Clean.Shape.{
  IsName, IsClean, collected, collected-IsClean, clean-render, parts-Lacks, parts-IsKept, IsKept,
  parts-IsName, render_rooted, render-cons, render-nil,
}

-- The path is not empty, names files and directories only, and does not begin with ".git".
abbrev pub StaysInside : List Bytes → Type 0
StaysInside [] = ⊥
StaysInside (e ∷ es) = All IsName (e ∷ es) × (e ≢ dot_git)

-- What the tests of `safePlanPath` ask of the first part of a path.
record IsFirst (e : Bytes) (es : List Bytes) : Type 0 where
  filled : e ≢ []
  below : e ≢ dot_dot
  not_git : e ≢ dot_git
  not_here : es ≡ [] → e ≢ dot

-- A path whose first part is empty, ".." or ".git" is refused, and so is ".".
unsafe_first :
    (es : List Bytes)
    → (safe_plan_path (tail_of b'/' es) ≡ false)
      × (safe_plan_path (dot_dot ++ tail_of b'/' es) ≡ false)
      × (safe_plan_path (dot_git ++ tail_of b'/' es) ≡ false)
unfolding safe_plan_path has_prefix ◌==◌
unsafe_first [] = (refl, refl, refl)
unsafe_first (e ∷ es) = (refl, refl, refl)

unsafe_dot : safe_plan_path dot ≡ false
unfolding safe_plan_path has_prefix ◌==◌
unsafe_dot = refl

unsafe_rooted : (s : Bytes) → safe_plan_path (b'/' ∷ s) ≡ false
unfolding safe_plan_path has_prefix ◌==◌
unsafe_rooted s = ground arith

module _ (e : Bytes) (es : List Bytes) where
  safe-join : safe_plan_path (e ++ tail_of b'/' es) ≡ true → IsFirst e es
  safe-join s = record {
    filled = λ p. ground (arith, (unsafe_first es).0);
    below = λ p. ground (arith, (unsafe_first es).1);
    not_git = λ p. ground (arith, (unsafe_first es).2);
    not_here = λ n p. ground (arith, unsafe_dot);
  }

  safe_of_IsFirst : Lacks b'/' e → IsFirst e es → safe_plan_path (e ++ tail_of b'/' es) ≡ true
  unfolding safe_plan_path
  safe_of_IsFirst h f =
      let path = e ++ tail_of b'/' es in
      ground (
        arith,
        eq_iff path dot,
        eq_iff path dot_dot,
        eq_iff path dot_git,
        join-eq_of_Lacks b'/' e dot es h,
        join-eq_of_Lacks b'/' e dot_dot es h,
        join-eq_of_Lacks b'/' e dot_git es h,
        has_prefix-join b'/' e [] es h,
        has_prefix-join b'/' e dot_dot es h,
        has_prefix-join b'/' e dot_git es h,
        join-eq_of_Lacks b'/' e [] es h,
      )

pub replace_byte-Lacks : (s : Bytes) → Lacks b'\\' (replace_byte b'\\' b'/' s)
unfolding replace_byte
replace_byte-Lacks [] = tt
replace_byte-Lacks (c ∷ s) = ground (arith, replace_byte-Lacks s)

-- The path with slashes for backslashes.
abbrev pub slashed : Bytes → Bytes
slashed value = replace_byte b'\\' b'/' value

-- How a cleaned path looks: rooted, ".", or parts without slashes that are not empty.
data Shape (path : Bytes) : Type 0 where
  rooted : (s : Bytes) → path ≡ b'/' ∷ s → Shape path
  here : path ≡ dot → Shape path
  listed :
      (e : Bytes) (es : List Bytes)
      → path ≡ e ++ tail_of b'/' es
      → All (Lacks b'/') (e ∷ es)
      → (e ≢ dot_dot → All IsName (e ∷ es))
      → e ≢ []
      → e ≢ dot
      → Shape path

render-Shape : (r : Bool) (c : Cleaned) → IsClean r c → Shape (render r c)
render-Shape true c h = rooted (join b'/' (parts c)) (render_rooted c)
render-Shape false c h = go (parts c) refl
  where
    go : (ps : List Bytes) → parts c ≡ ps → Shape (render false c)
    go [] p = here (render-nil c p)
    go (e ∷ es) p =
        let ne = subst (All IsKept) p (parts-IsKept c h) in
        listed e es (render-cons c e es p ne.0.0) (subst (All (Lacks b'/')) p (parts-Lacks c h))
          (parts-IsName c e es h p) ne.0.0 ne.0.1

clean-Shape : (path : Bytes) → Lacks b'\\' path → Shape (clean path)
clean-Shape path h =
    subst Shape (sym (clean-render path))
      (render-Shape (is_rooted path) (collected path) (collected-IsClean path h))

-- No cleaned path begins with "./".
Shape-trim : (path : Bytes) → Shape path → trim_prefix path (codes "./") ≡ path
unfolding trim_prefix has_prefix
Shape-trim path (rooted s p) = ground arith
Shape-trim path (here p) = rw p
Shape-trim path (listed e es p hs named ne nd) = ground (arith, has_prefix-join b'/' e dot es hs.0)

pub normalize-clean : (value : Bytes) → normalize_plan_path value ≡ clean (slashed value)
unfolding normalize_plan_path
normalize-clean value =
    Shape-trim (clean (slashed value)) (clean-Shape (slashed value) (replace_byte-Lacks value))

Shape-StaysInside :
    (path : Bytes) → Shape path → safe_plan_path path ≡ true → StaysInside (split b'/' path)
Shape-StaysInside path (rooted s p) h = absurd (ground (arith, unsafe_rooted s))
Shape-StaysInside path (here p) h = cc (unsafe_dot, h, p)
Shape-StaysInside path (listed e es p hs named ne nd) h =
    let f = safe-join e es (subst (λ q. safe_plan_path q ≡ true) p h) in
    subst (λ q. StaysInside (split b'/' q)) (sym p)
      (subst (λ q. StaysInside (split b'/' q)) (join-cons b'/' e es)
        (subst StaysInside (sym (split-join b'/' e es hs)) (named f.below, f.not_git)))

StaysInside-safe : (es : List Bytes) → StaysInside es → safe_plan_path (join b'/' es) ≡ true
StaysInside-safe [] h = absurd h
StaysInside-safe (e ∷ es) ((n, ns), g) = rw join-cons (
    safe_of_IsFirst e es n.no_slash (record {
      filled = n.non_empty;
      below = n.not_dot_dot;
      not_git = g;
      not_here = λ _. n.not_dot;
    }))

-- A normalised path is accepted exactly when it names a file or directory below the repository's root: it is not empty, its parts are neither empty, nor "." nor "..", nor do they hold slashes or backslashes, and the first is not ".git".
pub safe_plan_path_iff :
    (value : Bytes)
    → (safe_plan_path (normalize_plan_path value) ≡ true)
      ↔ StaysInside (split b'/' (normalize_plan_path value))
safe_plan_path_iff value = (
  Shape-StaysInside (normalize_plan_path value) (
      subst Shape (sym (normalize-clean value))
        (clean-Shape (slashed value) (replace_byte-Lacks value))),
  λ h.
      subst (λ path. safe_plan_path path ≡ true) (join-split b'/' (normalize_plan_path value))
        (StaysInside-safe (split b'/' (normalize_plan_path value)) h),
)

Shape-ne-nil : (path : Bytes) → Shape path → path ≢ []
Shape-ne-nil path (rooted s p) h = cc
Shape-ne-nil path (here p) h = cc
Shape-ne-nil path (listed [] es p hs named ne nd) h = ne refl
Shape-ne-nil path (listed (a ∷ e) es p hs named ne nd) h = cc

-- The empty path is normalised to ".", so no normalised path is empty.
pub normalize-ne-nil : (value : Bytes) → normalize_plan_path value ≢ []
normalize-ne-nil value = Shape-ne-nil (normalize_plan_path value) (
    subst Shape (sym (normalize-clean value))
      (clean-Shape (slashed value) (replace_byte-Lacks value)))
