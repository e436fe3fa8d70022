-- ===== src/Paths/Clean/Idempotent.antt =====
-- A cleaned path is not changed by another `path.Clean`.
use mathlib.Core.Path.{subst}
use capstone_project_git_fla.Prelude.{
  ℕ, zero, suc, Bool, true, false, List, [], ◌∷◌, ◌++◌, reverse, reverse-cons, reverse-reverse,
  append_assoc, append-nil, ◌+◌, ◌≡◌, ◌≢◌, refl, sym, ap, ◌∙◌, arith, Bytes, ◌==◌, eq_iff, is_empty,
  if◌then◌else◌, All, All-append, All-reverse, All-replicate, All-map, Lacks, replicate,
}
use capstone_project_git_fla.Text.{split, join}
use capstone_project_git_fla.Text.Laws.{join-cons, tail_of, split-join, join-Lacks}
use capstone_project_git_fla.Paths.Clean.{
  Cleaned, dot, dot_dot, go_up, element, elements, start, parts, is_rooted, render, clean,
}
use capstone_project_git_fla.Paths.Clean.Shape.{
  IsName, IsClean, IsKept, parts-IsKept, parts-Lacks, collected, collected-IsClean, clean-render,
  render-cons, render-nil, render_rooted,
}

elements-append :
    (r : Bool) (c : Cleaned) (xs ys : List Bytes)
    → elements r c (xs ++ ys) ≡ elements r (elements r c xs) ys
unfolding elements
elements-append r c [] ys = refl
elements-append r c (x ∷ xs) ys = elements-append r (element r c x) xs ys

element-IsName :
    (r : Bool) (ups : ℕ) (names : List Bytes) (e : Bytes)
    → IsName e
    → element r (record { ups = ups; names = names }) e ≡ record { ups = ups; names = e ∷ names }
unfolding element
element-IsName r ups names [] n = absurd (n.non_empty refl)
element-IsName r ups names (a ∷ e) n = ground (arith, eq_iff (a ∷ e) dot, eq_iff (a ∷ e) dot_dot)

elements-names :
    (r : Bool) (ups : ℕ) (names es : List Bytes)
    → All IsName es
    → elements r (record { ups = ups; names = names }) es
      ≡ record { ups = ups; names = reverse es ++ names }
unfolding elements
elements-names r ups names [] h = refl
elements-names r ups names (e ∷ es) (n, ns) = rw (
  element-IsName r ups names e n,
  elements-names r ups (e ∷ names) es ns,
  reverse-cons,
  append_assoc,
)

elements-ups :
    (k n : ℕ)
    → elements false (record { ups = k; names = [] }) (replicate n dot_dot)
      ≡ record { ups = n + k; names = [] }
unfolding elements element go_up ◌==◌
elements-ups k zero = ground arith
elements-ups k (suc n) = ground (arith, elements-ups (suc k) n)

elements-parts : (r : Bool) (c : Cleaned) → IsClean r c → elements r start (parts c) ≡ c
elements-parts r c h = go r c.ups (λ e. h.confined e)
  where
    named : All IsName (reverse c.names)
    named = All-reverse IsName c.names h.named

    fold :
        (b : Bool) (k : ℕ)
        → elements b (record { ups = k; names = [] }) (reverse c.names)
          ≡ record { ups = k; names = c.names }
    fold b k = rw (elements-names b k [] (reverse c.names) named, reverse-reverse, append-nil)

    go :
        (b : Bool) (k : ℕ)
        → (b ≡ true → k ≡ 0)
        → elements b start (replicate k dot_dot ++ reverse c.names)
          ≡ record { ups = k; names = c.names }
    go true zero z = fold true 0
    go true (suc k) z = absurd (omega (arith, z refl))
    go false k z = rw (elements-append, elements-ups 0 k) (ground (arith, fold false (k + 0)))

-- A rooted text is read back into its parts.
reread_rooted :
    (ps : List Bytes)
    → All (Lacks b'/') ps
    → elements true start (split b'/' (b'/' ∷ join b'/' ps)) ≡ elements true start ps
unfolding split elements element join
reread_rooted [] h = refl
reread_rooted (e ∷ es) h = rw (split-join b'/' e es h)

is_rooted-append : (e t : Bytes) → e ≢ [] → Lacks b'/' e → is_rooted (e ++ t) ≡ false
is_rooted-append [] t ne h = absurd (ne refl)
is_rooted-append (a ∷ e) t ne h = ground arith

rerender-relative : (c : Cleaned) → IsClean false c → clean (render false c) ≡ render false c
rerender-relative c h = go (parts c) refl
  where
    go : (ps : List Bytes) → parts c ≡ ps → clean (render false c) ≡ render false c
    go [] p = rw (render-nil c p) (unfold clean join split ◌==◌ in refl)
    go (e ∷ es) p =
        let kept = subst (All IsKept) p (parts-IsKept c h) in
        let lacks = subst (All (Lacks b'/')) p (parts-Lacks c h) in
        let text = render-cons c e es p kept.0.0 in
        let same : elements false start (e ∷ es) ≡ c =
          subst (λ ps. elements false start ps ≡ c) p (elements-parts false c h) in
        rw text (
          clean-render (e ++ tail_of b'/' es)
          ∙ rw
              (
                is_rooted-append e (tail_of b'/' es) kept.0.0 lacks.0,
                ← join-cons b'/' e es,
                split-join b'/' e es lacks,
                same,
              )
              (text ∙ sym (join-cons b'/' e es)))

rerender : (r : Bool) (c : Cleaned) → IsClean r c → clean (render r c) ≡ render r c
rerender true c h = rw render_rooted (
    clean-render (b'/' ∷ join b'/' (parts c))
    ∙ (ap (render true) (reread_rooted (parts c) (parts-Lacks c h) ∙ elements-parts true c h)
        ∙ render_rooted c))
rerender false c h = rerender-relative c h

pub clean-clean : (path : Bytes) → Lacks b'\\' path → clean (clean path) ≡ clean path
clean-clean path h =
    rw (clean-render path) (rerender (is_rooted path) (collected path) (collected-IsClean path h))

parts-backslash : {r : Bool} (c : Cleaned) → IsClean r c → All (Lacks b'\\') (parts c)
parts-backslash c h =
    All-append (Lacks b'\\') (replicate c.ups dot_dot) (reverse c.names)
      (All-replicate (Lacks b'\\') c.ups dot_dot (ground arith))
      (All-reverse (Lacks b'\\') c.names
        (All-map IsName (Lacks b'\\') (λ x n. n.no_backslash) c.names h.named))

render-Lacks : (r : Bool) (c : Cleaned) → IsClean r c → Lacks b'\\' (render r c)
unfolding render
render-Lacks true c h =
    (ground arith, join-Lacks b'/' b'\\' (parts c) (ground arith) (parts-backslash c h))
render-Lacks false c h =
    go (join b'/' (parts c)) (join-Lacks b'/' b'\\' (parts c) (ground arith) (parts-backslash c h))
  where
    go : (out : Bytes) → Lacks b'\\' out → Lacks b'\\' (if is_empty out then dot else out)
    go [] l = (ground arith, tt)
    go (a ∷ out) l = l

pub clean-Lacks : (path : Bytes) → Lacks b'\\' path → Lacks b'\\' (clean path)
clean-Lacks path h =
    rw (clean-render path)
      (render-Lacks (is_rooted path) (collected path) (collected-IsClean path h))
