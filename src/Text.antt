-- ===== src/Text.antt =====
-- What the backend uses of Go's `strings` package, over bytes: `TrimSpace`, `HasPrefix`, `Contains`,
-- `TrimPrefix`, `ReplaceAll`, `Split` and `Join` with a one-byte separator.
pub mod Laws
use capstone_project_git_fla.Prelude.{
  ℕ, ◌≤◌, Bool, true, false, ◌&&◌, ◌||◌, List, [], ◌∷◌, ◌++◌, reverse, Bytes, eqb, leb,
  if◌then◌else◌, is_empty,
}

-- unicode.IsSpace by the bytes of its UTF-8 encoding: one, two or three of them
unfoldable pub is_space : ℕ → Bool
is_space c = (leb 9 c && leb c 13) || eqb c 32

unfoldable pub is_space2 : ℕ → ℕ → Bool
is_space2 a b = eqb a 0xc2 && (eqb b 0x85 || eqb b 0xa0)

unfoldable pub is_space3 : ℕ → ℕ → ℕ → Bool
is_space3 a b c =
    (eqb a 0xe1 && eqb b 0x9a && eqb c 0x80)
    || (eqb a 0xe2
        && eqb b 0x80
        && ((leb 0x80 c && leb c 0x8a) || eqb c 0xa8 || eqb c 0xa9 || eqb c 0xaf))
    || (eqb a 0xe2 && eqb b 0x81 && eqb c 0x9f)
    || (eqb a 0xe3 && eqb b 0x80 && eqb c 0x80)

-- Drops white space from the front; the tests for two and three bytes are arguments, since the
-- end of a text is trimmed on its reversal.
unfoldable pub strip : (ℕ → ℕ → Bool) → (ℕ → ℕ → ℕ → Bool) → Bytes → Bytes
strip two three [] = []
strip two three (a ∷ []) = if is_space a then [] else a ∷ []
strip two three (a ∷ b ∷ []) = elim (is_space a) [
  | true ↦ strip two three (b ∷ [])
  | false ↦ if two a b then [] else a ∷ b ∷ []
]
strip two three (a ∷ b ∷ c ∷ s) = elim (is_space a) [
  | true ↦ strip two three (b ∷ c ∷ s)
  | false ↦ elim (two a b) [
    | true ↦ strip two three (c ∷ s)
    | false ↦ elim (three a b c) [ true ↦ strip two three s | false ↦ a ∷ b ∷ c ∷ s ]
  ]
]

unfoldable pub trim_left : Bytes → Bytes
unfolding strip is_space is_space2 is_space3
trim_left = strip is_space2 is_space3

unfoldable pub trim_right : Bytes → Bytes
unfolding strip is_space is_space2 is_space3
trim_right s = reverse (strip (λ a b. is_space2 b a) (λ a b c. is_space3 c b a) (reverse s))

-- strings.TrimSpace
unfoldable pub trim_space : Bytes → Bytes
unfolding trim_left trim_right
trim_space s = trim_right (trim_left s)

-- `strings.TrimSpace(s) == ""`
abbrev pub is_blank : Bytes → Bool
is_blank s = is_empty (trim_space s)

unfoldable pub has_prefix : Bytes → Bytes → Bool
has_prefix s [] = true
has_prefix [] (p ∷ ps) = false
has_prefix (c ∷ s) (p ∷ ps) = eqb c p && has_prefix s ps

drop_prefix : Bytes → Bytes → Bytes
drop_prefix s [] = s
drop_prefix [] (p ∷ ps) = []
drop_prefix (c ∷ s) (p ∷ ps) = drop_prefix s ps

-- strings.Contains(s, t)
unfoldable pub has_infix : Bytes → Bytes → Bool
has_infix [] t = is_empty t
has_infix (c ∷ s) t = has_prefix (c ∷ s) t || has_infix s t

-- strings.TrimPrefix(s, p)
unfoldable pub trim_prefix : Bytes → Bytes → Bytes
unfolding drop_prefix has_prefix
trim_prefix s p = if has_prefix s p then drop_prefix s p else s

-- strings.ReplaceAll of one byte by another
unfoldable pub replace_byte : ℕ → ℕ → Bytes → Bytes
replace_byte old new [] = []
replace_byte old new (c ∷ s) = (if eqb c old then new else c) ∷ replace_byte old new s

-- strings.ReplaceAll(value, "\r\n", "\n")
unfoldable pub replace_crlf : Bytes → Bytes
replace_crlf [] = []
replace_crlf (c ∷ []) = c ∷ []
replace_crlf (c ∷ d ∷ s) = elim (eqb c 13 && eqb d 10) [
  | true ↦ 10 ∷ replace_crlf s
  | false ↦ c ∷ replace_crlf (d ∷ s)
]

abbrev cons_head : ℕ → List Bytes → List Bytes
cons_head c [] = (c ∷ []) ∷ []
cons_head c (p ∷ ps) = (c ∷ p) ∷ ps

-- strings.Split(s, sep)
unfoldable pub split : ℕ → Bytes → List Bytes
split sep [] = [] ∷ []
split sep (c ∷ s) = let rest = split sep s in if eqb c sep then [] ∷ rest else cons_head c rest

-- strings.Join(parts, sep)
unfoldable pub join : ℕ → List Bytes → Bytes
join sep [] = []
join sep (p ∷ []) = p
join sep (p ∷ q ∷ ps) = p ++ (sep ∷ join sep (q ∷ ps))
