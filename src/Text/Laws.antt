-- ===== src/Text/Laws.antt =====
-- Splitting and joining undo one another; tests for a prefix on appended texts.
use capstone_project_git_fla.Prelude.{
  ℕ, true, List, [], ◌∷◌, ◌++◌, ◌≡◌, ◌≢◌, refl, sym, arith, Bytes, All, All-append, All-append,
  Lacks, append-nil,
}
use capstone_project_git_fla.Text.{split, join, cons_head, has_prefix, replace_byte}

split-ne-nil : (sep : ℕ) (s : Bytes) → split sep s ≢ []
unfolding split
split-ne-nil sep [] h = cc
split-ne-nil sep (c ∷ s) h = ground (arith, split-ne-nil sep s)

-- The parts of a split hold no separator.
pub split-Lacks : (sep : ℕ) (s : Bytes) → All (Lacks sep) (split sep s)
unfolding split
split-Lacks sep [] = (tt, tt)
split-Lacks sep (c ∷ s) = ground (arith, split-Lacks sep s)

-- What holds of the bytes of a text holds of the bytes of its parts.
pub split-All {κ} : (P : ℕ → Type κ) (sep : ℕ) (s : Bytes) → All P s → All (All P) (split sep s)
unfolding split
split-All P sep [] h = (tt, tt)
split-All P sep (c ∷ s) (hc, hs) = ground (arith, split-All P sep s hs)

split-append_sep :
    (sep : ℕ) (p rest : Bytes) → Lacks sep p → split sep (p ++ (sep ∷ rest)) ≡ p ∷ split sep rest
unfolding split
split-append_sep sep [] rest h = ground arith
split-append_sep sep (c ∷ p) rest (hc, hp) = ground (arith, split-append_sep sep p rest hp)

pub split-of_Lacks : (sep : ℕ) (p : Bytes) → Lacks sep p → split sep p ≡ p ∷ []
unfolding split
split-of_Lacks sep [] h = refl
split-of_Lacks sep (c ∷ p) (hc, hp) = ground (arith, split-of_Lacks sep p hp)

-- Splitting a join gives the parts back, if there is one and none holds the separator.
pub split-join :
    (sep : ℕ) (p : Bytes) (ps : List Bytes)
    → All (Lacks sep) (p ∷ ps)
    → split sep (join sep (p ∷ ps)) ≡ p ∷ ps
unfolding join
split-join sep p [] (hp, _) = split-of_Lacks sep p hp
split-join sep p (q ∷ ps) (hp, hps) =
    ground (arith, split-append_sep sep p (join sep (q ∷ ps)) hp, split-join sep q ps hps)

pub has_prefix-append : (p s : Bytes) → has_prefix (p ++ s) p ≡ true
unfolding has_prefix
has_prefix-append [] s = refl
has_prefix-append (c ∷ p) s = ground (arith, has_prefix-append p s)

-- What a join holds behind its first part.
abbrev pub tail_of : ℕ → List Bytes → Bytes
tail_of sep [] = []
tail_of sep (p ∷ ps) = sep ∷ join sep (p ∷ ps)

pub join-cons : (sep : ℕ) (p : Bytes) (ps : List Bytes) → join sep (p ∷ ps) ≡ p ++ tail_of sep ps
unfolding join
join-cons sep p [] = sym (append-nil p)
join-cons sep p (q ∷ ps) = refl

join-cons_head :
    (sep c : ℕ) (ps : List Bytes) → ps ≢ [] → join sep (cons_head c ps) ≡ c ∷ join sep ps
unfolding join
join-cons_head sep c [] h = absurd (h refl)
join-cons_head sep c (p ∷ []) h = refl
join-cons_head sep c (p ∷ q ∷ ps) h = refl

join-nil_cons : (sep : ℕ) (ps : List Bytes) → ps ≢ [] → join sep ([] ∷ ps) ≡ sep ∷ join sep ps
unfolding join
join-nil_cons sep [] h = absurd (h refl)
join-nil_cons sep (p ∷ ps) h = refl

-- Joining the parts of a split gives the text back.
pub join-split : (sep : ℕ) (s : Bytes) → join sep (split sep s) ≡ s
unfolding split join
join-split sep [] = refl
join-split sep (c ∷ s) = ground (
  arith,
  join-split sep s,
  split-ne-nil sep s,
  join-cons_head sep c (split sep s),
  join-nil_cons sep (split sep s),
)

-- A prefix that ends in a separator is the first part of a join.
pub has_prefix-join :
    (sep : ℕ) (p q : Bytes) (ps : List Bytes)
    → Lacks sep p
    → Lacks sep q
    → has_prefix (p ++ tail_of sep ps) (q ++ sep ∷ []) ≡ true
    → (p ≡ q) × (ps ≢ [])
unfolding has_prefix
has_prefix-join sep [] [] [] hp hq h = cc
has_prefix-join sep [] [] (r ∷ ps) hp hq h = (refl, λ e. cc)
has_prefix-join sep [] (d ∷ q) [] hp hq h = cc
has_prefix-join sep [] (d ∷ q) (r ∷ ps) hp hq h = ground arith
has_prefix-join sep (c ∷ p) [] ps hp hq h = ground arith
has_prefix-join sep (c ∷ p) (d ∷ q) ps hp hq h = ground (arith, has_prefix-join sep p q ps)

-- A join without separators has one part.
pub join-eq_of_Lacks :
    (sep : ℕ) (p q : Bytes) (ps : List Bytes)
    → Lacks sep p
    → Lacks sep q
    → p ++ tail_of sep ps ≡ q
    → (p ≡ q) × (ps ≡ [])
join-eq_of_Lacks sep [] q [] hp hq e = (e, refl)
join-eq_of_Lacks sep [] [] (r ∷ ps) hp hq e = cc
join-eq_of_Lacks sep [] (d ∷ q) (r ∷ ps) hp hq e = ground arith
join-eq_of_Lacks sep (c ∷ p) [] ps hp hq e = cc
join-eq_of_Lacks sep (c ∷ p) (d ∷ q) ps hp hq e = ground (arith, join-eq_of_Lacks sep p q ps)

-- A byte other than the separator that no part holds is not in the join.
pub join-Lacks : (sep b : ℕ) (ps : List Bytes) → sep ≢ b → All (Lacks b) ps → Lacks b (join sep ps)
unfolding join
join-Lacks sep b [] ne h = tt
join-Lacks sep b (p ∷ []) ne h = h.0
join-Lacks sep b (p ∷ q ∷ ps) ne (hp, hps) =
    All-append (λ c. c ≢ b) p (sep ∷ join sep (q ∷ ps)) hp (ne, join-Lacks sep b (q ∷ ps) ne hps)

pub replace_byte-of_Lacks : (old new : ℕ) (s : Bytes) → Lacks old s → replace_byte old new s ≡ s
unfolding replace_byte
replace_byte-of_Lacks old new [] h = refl
replace_byte-of_Lacks old new (c ∷ s) (hc, hs) = ground (arith, replace_byte-of_Lacks old new s hs)
