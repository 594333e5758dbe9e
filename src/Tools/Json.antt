-- ===== src/Tools/Json.antt =====
-- JSON values as package encoding/json decodes them into `any`, and the argument objects of tool
-- calls, `map[string]any` (internal/tools/gateway.go).
use kontor.Prelude.{
  ℕ, Bool, true, ◌&&◌, ◌||◌, Option, none, some, String, str_eq, Dict, lookup, leb, ◌==◌,
  if◌then◌else◌,
}
use Prim.Native.Char.{code}

mutual
  pub data Json : Type 0 where
    null : Json
    boolean : Bool → Json
    number : String → Json
    string : String → Json
    array : Items → Json
    object : Fields → Json

  pub data Items : Type 0 where
    no_items : Items
    item : Json → Items → Items

  pub data Fields : Type 0 where
    no_fields : Fields
    field : String → Json → Fields → Fields

abbrev pub Object : Type 0
Object = Dict Json

-- A string field of a Go struct: a missing or null member leaves it empty, and a member of another
-- type makes the decoding fail.
unfoldable pub string_of : Option Json → Option String
string_of none = some ""
string_of (some null) = some ""
string_of (some (string s)) = some s
string_of (some _) = none

unfoldable pub string_field : String → Object → Option String
unfolding string_of
string_field name o = string_of (lookup name o)

-- A member of a nested object: the last of that name wins, as in encoding/json.
unfoldable pub member : String → Fields → Option Json
member name no_fields = none
member name (field k v fs) = elim (member name fs) [
  | some w ↦ some w
  | none ↦ if str_eq k name then some v else none
]

-- `unicode.IsSpace`
unfoldable pub is_space : ℕ → Bool
is_space c =
    (leb 9 c && leb c 13)
    || (c == 32
        || (c == 0x85
            || (c == 0xa0
                || (c == 0x1680
                    || ((leb 0x2000 c && leb c 0x200a)
                        || (c == 0x2028
                            || (c == 0x2029 || (c == 0x202f || (c == 0x205f || c == 0x3000)))))))))

-- `strings.TrimSpace(s) == ""`
unfoldable pub is_blank : String → Bool
unfolding is_space
is_blank String.[] = true
is_blank (String.◌∷◌ c s) = is_space (code c) && is_blank s
