-- ===== src/Paths/Clean.antt =====
-- Go's `path.Clean`: multiple slashes and "." elements go, an inner ".." takes the element before
-- it, and ".." at the root of a rooted path goes.
pub mod Shape
pub mod Idempotent
use capstone_project_git_fla.Prelude.{
  ℕ, zero, suc, Bool, true, false, ◌&&◌, List, [], ◌∷◌, ◌++◌, reverse, Bytes, codes, ◌==◌, is_empty,
  eqb, if◌then◌else◌, replicate,
}
use capstone_project_git_fla.Text.{split, join}

abbrev pub dot : Bytes
dot = b'.' ∷ []

abbrev pub dot_dot : Bytes
dot_dot = b'.' ∷ b'.' ∷ []

-- What is written so far: the leading ".." elements, which no later ".." takes back (`dotdot`
-- marks their end), and behind them the other elements, the last one first.
pub record Cleaned : Type 0 where
  pub ups : ℕ
  pub names : List Bytes

-- a ".." element
go_up : Bool → ℕ → List Bytes → Cleaned
go_up rooted ups (n ∷ names) = record { ups = ups; names = names }
go_up true ups [] = record { ups = ups; names = [] }
go_up false ups [] = record { ups = suc ups; names = [] }

-- one round of the loop, over one element
pub element : Bool → Cleaned → Bytes → Cleaned
unfolding go_up
element rooted c e =
    if is_empty e
    then c
    else if e == dot
    then c
    else if e == dot_dot
    then go_up rooted c.ups c.names
    else record c { names = e ∷ c.names }

pub elements : Bool → Cleaned → List Bytes → Cleaned
elements rooted c [] = c
elements rooted c (e ∷ es) = elements rooted (element rooted c e) es

abbrev pub start : Cleaned
start = record { ups = 0; names = [] }

abbrev pub parts : Cleaned → List Bytes
parts c = replicate c.ups dot_dot ++ reverse c.names

abbrev pub is_rooted : Bytes → Bool
is_rooted [] = false
is_rooted (c ∷ s) = eqb c b'/'

pub render : Bool → Cleaned → Bytes
render true c = b'/' ∷ join b'/' (parts c)
render false c = let out = join b'/' (parts c) in if is_empty out then dot else out

unfoldable pub clean : Bytes → Bytes
unfolding element elements render
clean path = let rooted = is_rooted path in render rooted (elements rooted start (split b'/' path))
