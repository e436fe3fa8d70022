-- ===== src/Paths/Clean/Shape.antt =====
-- The elements that `path.Clean` keeps, and what it does with elements that it has kept before.
use capstone_project_git_fla.Prelude.{
  ℕ, zero, suc, Bool, true, false, List, [], ◌∷◌, ◌++◌, reverse, ◌≡◌, ◌≢◌, refl, arith, Bytes,
  eq_iff, All, All-append, All-reverse, All-replicate, All-map, Lacks, replicate,
}
use mathlib.Core.Path.{subst}
use capstone_project_git_fla.Text.{split, join}
use capstone_project_git_fla.Text.Laws.{split-Lacks, split-All, join-cons, tail_of}
use capstone_project_git_fla.Paths.Clean.{
  Cleaned, dot, dot_dot, go_up, element, elements, start, parts, is_rooted, render, clean,
}

-- An element that names a file or a directory.
pub record IsName (e : Bytes) : Type 0 where
  pub non_empty : e ≢ []
  pub not_dot : e ≢ dot
  pub not_dot_dot : e ≢ dot_dot
  pub no_slash : Lacks b'/' e
  pub no_backslash : Lacks b'\\' e

pub record IsClean (rooted : Bool) (c : Cleaned) : Type 0 where
  pub named : All IsName c.names
  pub confined : rooted ≡ true → c.ups ≡ 0

abbrev pub IsElement : Bytes → Type 0
IsElement e = Lacks b'/' e × Lacks b'\\' e

go_up-IsClean :
    (rooted : Bool) (ups : ℕ) (names : List Bytes)
    → IsClean rooted (record { ups = ups; names = names })
    → IsClean rooted (go_up rooted ups names)
unfolding go_up
go_up-IsClean rooted ups (n ∷ names) h = record { named = h.named.1; confined = h.confined }
go_up-IsClean true ups [] h = h
go_up-IsClean false ups [] h = record { named = tt; confined = λ e. cc }

element-IsClean :
    (rooted : Bool) (c : Cleaned) (e : Bytes)
    → IsElement e
    → IsClean rooted c
    → IsClean rooted (element rooted c e)
unfolding element
element-IsClean rooted c e he h =
    ground (arith, eq_iff e dot, eq_iff e dot_dot, go_up-IsClean rooted c.ups c.names)

elements-IsClean :
    (rooted : Bool) (c : Cleaned) (es : List Bytes)
    → All IsElement es
    → IsClean rooted c
    → IsClean rooted (elements rooted c es)
unfolding elements
elements-IsClean rooted c [] he h = h
elements-IsClean rooted c (e ∷ es) (he, hes) h =
    elements-IsClean rooted (element rooted c e) es hes (element-IsClean rooted c e he h)

All-IsElement : (es : List Bytes) → All (Lacks b'/') es → All (Lacks b'\\') es → All IsElement es
All-IsElement [] h k = tt
All-IsElement (e ∷ es) (h, hs) (k, ks) = ((h, k), All-IsElement es hs ks)

-- What `clean` has collected at the end of a text without backslashes.
abbrev pub collected : Bytes → Cleaned
collected path = elements (is_rooted path) start (split b'/' path)

pub collected-IsClean :
    (path : Bytes) → Lacks b'\\' path → IsClean (is_rooted path) (collected path)
collected-IsClean path h =
    elements-IsClean (is_rooted path) start (split b'/' path)
      (All-IsElement (split b'/' path) (split-Lacks b'/' path)
        (split-All (λ c. c ≢ b'\\') b'/' path h))
      (record { named = tt; confined = λ e. refl })

pub clean-render : (path : Bytes) → clean path ≡ render (is_rooted path) (collected path)
unfolding clean
clean-render path = refl

pub dot_dot-Lacks : Lacks b'/' dot_dot
dot_dot-Lacks = ground arith

-- The parts that are written hold no slash.
pub parts-Lacks : {rooted : Bool} (c : Cleaned) → IsClean rooted c → All (Lacks b'/') (parts c)
parts-Lacks c h =
    All-append (Lacks b'/') (replicate c.ups dot_dot) (reverse c.names)
      (All-replicate (Lacks b'/') c.ups dot_dot dot_dot-Lacks)
      (All-reverse (Lacks b'/') c.names
        (All-map IsName (Lacks b'/') (λ x n. n.no_slash) c.names h.named))

-- The parts that are written are neither empty nor ".".
abbrev pub IsKept : Bytes → Type 0
IsKept e = (e ≢ []) × (e ≢ dot)

pub parts-IsKept : {rooted : Bool} (c : Cleaned) → IsClean rooted c → All IsKept (parts c)
parts-IsKept c h =
    All-append IsKept (replicate c.ups dot_dot) (reverse c.names)
      (All-replicate IsKept c.ups dot_dot ((λ p. cc), (λ p. ground arith)))
      (All-reverse IsKept c.names
        (All-map IsName IsKept (λ x n. (n.non_empty, n.not_dot)) c.names h.named))

-- Unless the first part is "..", all parts are names.
pub parts-IsName :
    {rooted : Bool} (c : Cleaned) (e : Bytes) (es : List Bytes)
    → IsClean rooted c
    → parts c ≡ e ∷ es
    → e ≢ dot_dot
    → All IsName (e ∷ es)
parts-IsName c e es h p n = go c.ups p
  where
    go : (k : ℕ) → replicate k dot_dot ++ reverse c.names ≡ e ∷ es → All IsName (e ∷ es)
    go zero q = subst (All IsName) q (All-reverse IsName c.names h.named)
    go (suc k) q = absurd (n (cc q))

pub render-cons :
    (c : Cleaned) (e : Bytes) (es : List Bytes)
    → parts c ≡ e ∷ es
    → e ≢ []
    → render false c ≡ e ++ tail_of b'/' es
unfolding render
render-cons c [] es p n = absurd (n refl)
render-cons c (a ∷ e) es p n = rw (p, join-cons)

pub render-nil : (c : Cleaned) → parts c ≡ [] → render false c ≡ dot
unfolding render join
render-nil c p = rw p

pub render_rooted : (c : Cleaned) → render true c ≡ b'/' ∷ join b'/' (parts c)
unfolding render
render_rooted c = refl
