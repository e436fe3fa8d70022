-- ===== src/Metrics/Labels.antt =====
-- A label's value is read back from the exposition, and series without NUL have different keys.
use capstone_project_git_fla.Prelude.{
  ℕ, Bool, true, false, Option, none, some, List, [], ◌∷◌, ◌++◌, ◌≡◌, ◌≢◌, refl, sym, ap, ◌∙◌,
  arith, Bytes, eqb, if◌then◌else◌, All, Lacks,
}
use capstone_project_git_fla.Text.{split}
use capstone_project_git_fla.Text.Laws.{split-join}
use capstone_project_git_fla.Metrics.{escape_label_value, series_key}

-- The text format's rule for a value up to its closing quote: "\n" is a line's end, and a
-- backslash takes the next byte as it is.
abbrev unescaped : ℕ → ℕ
unescaped d = if eqb d b'n' then 10 else d

abbrev push : ℕ → Option (Bytes × Bytes) → Option (Bytes × Bytes)
push c none = none
push c (some (value, rest)) = some (c ∷ value, rest)

pub read_label : Bytes → Option (Bytes × Bytes)
read_label [] = none
read_label (c ∷ []) = if eqb c b'"' then some ([], []) else none
read_label (c ∷ d ∷ s) = elim (eqb c b'"') [
  | true ↦ some ([], d ∷ s)
  | false ↦ elim (eqb c b'\\') [
    | true ↦ push (unescaped d) (read_label s)
    | false ↦ elim (eqb c 10) [ true ↦ none | false ↦ push c (read_label (d ∷ s)) ]
  ]
]

append_filled : (xs : Bytes) (y : ℕ) (ys : Bytes) → xs ++ y ∷ ys ≢ []
append_filled [] y ys e = cc
append_filled (x ∷ xs) y ys e = cc

read_quote : (rest : Bytes) → read_label (b'"' ∷ rest) ≡ some ([], rest)
unfolding read_label
read_quote [] = refl
read_quote (d ∷ s) = refl

read_plain :
    (c : ℕ) (s : Bytes)
    → s ≢ []
    → eqb c b'"' ≡ false
    → eqb c b'\\' ≡ false
    → eqb c 10 ≡ false
    → read_label (c ∷ s) ≡ push c (read_label s)
unfolding read_label
read_plain c [] n quote slash line = absurd (n refl)
read_plain c (d ∷ s) n quote slash line = rw (read_label, quote, slash, line) refl

is_byte : (c n : ℕ) → eqb c n ≡ true → c ≡ n
is_byte c n e = ground arith

-- What `escapeLabelValue` makes of any value, a reader of the text format reads back up to the closing quote, whatever follows.
pub read_label-escape_label_value :
    (value rest : Bytes) → read_label (escape_label_value value ++ b'"' ∷ rest) ≡ some (value, rest)
unfolding escape_label_value read_label
read_label-escape_label_value [] rest = read_quote rest
read_label-escape_label_value (c ∷ s) rest =
    step (eqb c b'\\') (eqb c 10) (eqb c b'"') refl refl refl (read_label-escape_label_value s rest)
  where
    step :
        (slash line quote : Bool)
        → eqb c b'\\' ≡ slash
        → eqb c 10 ≡ line
        → eqb c b'"' ≡ quote
        → read_label (escape_label_value s ++ b'"' ∷ rest) ≡ some (s, rest)
        → read_label (
            (if slash
              then b'\\' ∷ b'\\' ∷ escape_label_value s
              else if line
              then b'\\' ∷ b'n' ∷ escape_label_value s
              else if quote
              then b'\\' ∷ b'"' ∷ escape_label_value s
              else c ∷ escape_label_value s)
            ++ b'"' ∷ rest)
          ≡ some (c ∷ s, rest)
    step true line quote e f g ih =
        ap (push b'\\') ih ∙ ap (λ x. some (x ∷ s, rest)) (sym (is_byte c b'\\' e))
    step false true quote e f g ih =
        ap (push 10) ih ∙ ap (λ x. some (x ∷ s, rest)) (sym (is_byte c 10 f))
    step false false true e f g ih =
        ap (push b'"') ih ∙ ap (λ x. some (x ∷ s, rest)) (sym (is_byte c b'"' g))
    step false false false e f g ih =
        read_plain c (escape_label_value s ++ b'"' ∷ rest)
          (append_filled (escape_label_value s) b'"' rest) g e f
        ∙ ap (push c) ih

-- Two series with at least one label value each and without a NUL byte have different keys.
pub series_key_injective :
    (label other : Bytes) (labels others : List Bytes)
    → All (Lacks 0) (label ∷ labels)
    → All (Lacks 0) (other ∷ others)
    → series_key (label ∷ labels) ≡ series_key (other ∷ others)
    → label ∷ labels ≡ other ∷ others
series_key_injective label other labels others h k e =
    sym (split-join 0 label labels h) ∙ ap (split 0) e ∙ split-join 0 other others k
