-- ===== src/Regex.antt =====
-- Go's `regexp` on the patterns of the backend: a backtracking matcher, which finds the match that
-- Go documents (leftmost, and the one that backtracking finds first). Texts are matched byte by
-- byte: the classes of the patterns hold whole non-ASCII characters or none of them.
use capstone_project_git_fla.Prelude.{
  ℕ, zero, suc, ◌+◌, ◌-◌, Bool, true, false, not, ◌||◌, Option, none, some, List, [], ◌∷◌, ◌++◌,
  Bytes, eqb, if◌then◌else◌, length, take, drop,
}

pub data Regex : Type 0 where
  -- a byte of a class
  class : (ℕ → Bool) → Regex
  -- the empty text
  nothing : Regex
  seq : Regex → Regex → Regex
  -- the left side first
  or : Regex → Regex → Regex
  -- any number of rounds: as many as possible first, or as few
  many : Regex → Regex
  few : Regex → Regex
  -- a numbered submatch
  group : ℕ → Regex → Regex
  -- `^` and `$` under `(?m)`
  line_start : Regex
  line_end : Regex

infixr 60 ◌▹◌
abbrev pub ◌▹◌ : Regex → Regex → Regex
a ▹ b = seq a b

abbrev pub char : ℕ → Regex
char c = class (λ b. eqb b c)

abbrev pub literal : Bytes → Regex
literal [] = nothing
literal (c ∷ s) = char c ▹ literal s

abbrev pub many1 : Regex → Regex
many1 r = r ▹ many r

abbrev pub few1 : Regex → Regex
few1 r = r ▹ few r

abbrev pub optional : Regex → Regex
optional r = or r nothing

-- at most `n` rounds, as many as possible first
abbrev pub up_to : ℕ → Regex → Regex
up_to zero r = nothing
up_to (suc n) r = optional (r ▹ up_to n r)

-- `\s`
abbrev pub space : Regex
space = class (λ b. eqb b 9 || eqb b 10 || eqb b 12 || eqb b 13 || eqb b 32)

-- `.`
abbrev pub dot : Regex
dot = class (λ b. not (eqb b 10))

-- Where the matcher stands, and the submatches so far, the last one first.
pub record Cursor : Type 0 where
  pub before : Option ℕ
  pub rest : Bytes
  pub position : ℕ
  pub groups : List (ℕ × Bytes)

abbrev Next : Type 0
Next = Cursor → Option Cursor

match_class : (ℕ → Bool) → Next → Bytes → Cursor → Option Cursor
match_class p k [] c = none
match_class p k (b ∷ s) c = elim (p b) [
  | true ↦ k (record c { before = some b; rest = s; position = c.position + 1 })
  | false ↦ none
]

at_line_start : Option ℕ → Bool
at_line_start none = true
at_line_start (some b) = eqb b 10

at_line_end : Bytes → Bool
at_line_end [] = true
at_line_end (b ∷ s) = eqb b 10

-- Rounds of a loop; a round that consumes nothing ends it. The fuel is the length of the text.
rounds_many : ℕ → (Next → Next) → Next → Next
rounds_many zero body k c = k c
rounds_many (suc fuel) body k c =
    elim (body
      (λ c'. elim (eqb c'.position c.position) [ true ↦ none | false ↦ rounds_many fuel body k c' ])
      c) [ none ↦ k c | some c' ↦ some c' ]

rounds_few : ℕ → (Next → Next) → Next → Next
rounds_few zero body k c = k c
rounds_few (suc fuel) body k c = elim (k c) [
  | some c' ↦ some c'
  | none ↦
      body
        (λ c'. elim (eqb c'.position c.position) [
          | true ↦ none
          | false ↦ rounds_few fuel body k c'
        ])
        c
]

run : Regex → Next → Next
unfolding match_class at_line_start at_line_end rounds_many rounds_few
run (class p) k c = match_class p k c.rest c
run nothing k c = k c
run (seq a b) k c = run a (run b k) c
run (or a b) k c = elim (run a k c) [ some c' ↦ some c' | none ↦ run b k c ]
run (many r) k c = rounds_many (length c.rest) (run r) k c
run (few r) k c = rounds_few (length c.rest) (run r) k c
run (group n r) k c =
    run r (λ c'. k (record c' { groups = (n, take (c'.position - c.position) c.rest) ∷ c'.groups }))
      c
run line_start k c = elim (at_line_start c.before) [ true ↦ k c | false ↦ none ]
run line_end k c = elim (at_line_end c.rest) [ true ↦ k c | false ↦ none ]

pub record Match : Type 0 where
  pub start : ℕ
  pub stop : ℕ
  pub groups : List (ℕ × Bytes)

-- The text of a submatch; the empty text if it took no part.
find_group : ℕ → List (ℕ × Bytes) → Bytes
find_group n [] = []
find_group n ((i, s) ∷ groups) = if eqb i n then s else find_group n groups

unfoldable pub submatch : ℕ → Match → Bytes
unfolding find_group
submatch n m = find_group n m.groups

start_at : Option ℕ → Bytes → ℕ → Cursor
start_at before s position = record { before = before; rest = s; position = position; groups = [] }

-- All matches from left to right; `skip` bytes of a match before are left over. None of the
-- patterns matches the empty text.
scan : Regex → Option ℕ → ℕ → ℕ → Bytes → List Match
scan r before skip position [] = []
scan r before (suc skip) position (b ∷ s) = scan r (some b) skip (position + 1) s
scan r before zero position (b ∷ s) =
    let found = run r some (start_at before (b ∷ s) position) in
    elim found [
      | none ↦ scan r (some b) 0 (position + 1) s
      | some c ↦
          record { start = position; stop = c.position; groups = c.groups }
          ∷ scan r (some b) (c.position - position - 1) (position + 1) s
    ]

-- FindAllStringSubmatch, FindAllStringSubmatchIndex
unfoldable pub find_all : Regex → Bytes → List Match
unfolding run scan start_at
find_all r s = scan r none 0 0 s

-- MatchString
unfoldable pub matches : Regex → Bytes → Bool
matches r s = elim (find_all r s) [ [] ↦ false | m ∷ ms ↦ true ]

-- The text with each match replaced.
replace_from : Bytes → ℕ → Bytes → List Match → Bytes
replace_from new from s [] = s
replace_from new from s (m ∷ ms) =
    take (m.start - from) s ++ new ++ replace_from new m.stop (drop (m.stop - from) s) ms

-- ReplaceAllString
unfoldable pub replace_all : Regex → Bytes → Bytes → Bytes
unfolding replace_from
replace_all r s new = replace_from new 0 s (find_all r s)
