-- ===== src/Domain/Json.antt =====
-- What encoding/json makes of a text in an `any`: a float64 stands as the text that
-- `strconv.FormatFloat(value, 'f', -1, 64)` gives.
use capstone_project_git_fla.Prelude.{Bool, Bytes, ◌==◌, if◌then◌else◌}

mutual
  pub data Json : Type 0 where
    null : Json
    boolean : Bool → Json
    number : Bytes → Json
    string : Bytes → Json
    array : Elements → Json
    object : Members → Json

  pub data Elements : Type 0 where
    no_elements : Elements
    element : Json → Elements → Elements

  -- a `map[string]any`
  pub data Members : Type 0 where
    no_members : Members
    member : Bytes → Json → Members → Members

-- `object[key]`; an absent key gives nil, as null does.
unfoldable pub get : Bytes → Members → Json
get key no_members = null
get key (member name value members) = if name == key then value else get key members

-- `object[key] = value`
unfoldable pub put : Bytes → Json → Members → Members
put key value no_members = member key value no_members
put key value (member name old members) =
    if name == key then member name value members else member name old (put key value members)
