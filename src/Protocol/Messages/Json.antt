-- ===== src/Protocol/Messages/Json.antt =====
-- Go's encoding/json as the messages use it: no code of the repository. The text of a value is
-- printed and parsed by a parameter; what a Go type takes from a value is written out.
use Prim.Native.Char.{code}
use hash_router.Common.{
  ◌≡◌, String, Bool, true, false, Option, none, some, List, [], ◌∷◌, str_eq, if◌then◌else◌, ℕ, ◌+◌,
  ◌==◌, leb, ◌&&◌,
}
use hash_router.Common.Int.{ℤ, pos}
use hash_router.Float.{Float64}

-- A number is the text of its literal.
mutual
  pub data Json : Type 0 where
    null : Json
    boolean : Bool → Json
    num : String → Json
    str : String → Json
    arr : Items → Json
    obj : Fields → Json

  pub data Items : Type 0 where
    nil : Items
    cons : Json → Items → Items

  pub data Fields : Type 0 where
    end : Fields
    field : String → Json → Fields → Fields

-- json.Marshal and json.Unmarshal on values, and the texts of numbers by strconv.
pub record Codec (f : Float64) : Type 1 where
  pub Raw : Type 0
  pub marshal : Json → Raw
  pub unmarshal : Raw → Option Json
  pub format_int : ℤ → String
  pub parse_int : String → Option ℤ
  pub format_float : f.Number → String
  pub parse_float : String → Option f.Number
  -- neither infinite nor NaN
  pub is_finite : f.Number → Bool

-- What is printed is read back.
pub record IsCodec (f : Float64) (c : Codec f) : Type 0 where
  pub unmarshal-marshal : (j : Json) → c.unmarshal (c.marshal j) ≡ some j
  pub parse_int-format_int : (i : ℤ) → c.parse_int (c.format_int i) ≡ some i
  pub parse_float-format_float :
      (x : f.Number) → c.is_finite x ≡ true → c.parse_float (c.format_float x) ≡ some x

-- The numbers of a key's characters, with the capital letters made small, and the long s and the sign of
-- the kelvin made s and k. Other characters are no capitals of what stands in the keys of a struct.
abbrev fold_char : ℕ → ℕ
fold_char c =
    if leb 65 c && leb c 90 then c + 32 else if c == 383 then 115 else if c == 8490 then 107 else c

abbrev folded : String → List ℕ
folded String.[] = []
folded (String.◌∷◌ c s) = fold_char (code c) ∷ folded s

abbrev same_codes : List ℕ → List ℕ → Bool
same_codes [] [] = true
same_codes (a ∷ l) (b ∷ r) = (a == b) && same_codes l r
same_codes _ _ = false

-- Whether a key is that of a member, in whichever letter case.
unfoldable pub equal_fold : String → String → Bool
equal_fold j k = same_codes (folded j) (folded k)

-- The value of a member; the last key that is its key in some letter case counts.
unfoldable pub find : Fields → String → Option Json
unfolding equal_fold
find end k = none
find (field j v rest) k = elim (find rest k) [
  | some w ↦ some w
  | none ↦ if equal_fold j k then some v else none
]

-- The members of a struct. A null leaves the struct at its zeros.
unfoldable pub members : Json → Option Fields
members null = some end
members (obj fields) = some fields
members _ = none

-- A member of a struct as a string, and one of several types that a null leaves at its zero.
unfoldable pub to_string : Option Json → Option String
to_string none = some ""
to_string (some null) = some ""
to_string (some (str s)) = some s
to_string (some _) = none

unfoldable pub to_bool : Option Json → Option Bool
to_bool none = some false
to_bool (some null) = some false
to_bool (some (boolean b)) = some b
to_bool (some _) = none

-- `method,omitempty` before the other members.
unfoldable pub with_method : String → Fields → Fields
with_method method rest = if str_eq method "" then rest else field "method" (str method) rest

unfoldable pub list_items : List Json → Items
list_items [] = nil
list_items (j ∷ l) = cons j (list_items l)

unfoldable pub items_list : Items → List Json
items_list nil = []
items_list (cons j l) = j ∷ items_list l

-- []json.RawMessage; nil is `none`
unfoldable pub to_raws : Option Json → Option (Option (List Json))
unfolding items_list
to_raws none = some none
to_raws (some null) = some none
to_raws (some (arr l)) = some (some (items_list l))
to_raws (some _) = none

unfoldable pub of_raws : Option (List Json) → Json
unfolding list_items
of_raws none = null
of_raws (some l) = arr (list_items l)

unfoldable pub string_items : List String → Items
string_items [] = nil
string_items (s ∷ l) = cons (str s) (string_items l)

unfoldable pub items_strings : Items → Option (List String)
unfolding to_string
items_strings nil = some []
items_strings (cons j l) = elim (to_string (some j)) [
  | none ↦ none
  | some s ↦ elim (items_strings l) [ none ↦ none | some r ↦ some (s ∷ r) ]
]

-- []string
unfoldable pub to_strings : Option Json → Option (Option (List String))
unfolding items_strings
to_strings none = some none
to_strings (some null) = some none
to_strings (some (arr l)) = elim (items_strings l) [ none ↦ none | some r ↦ some (some r) ]
to_strings (some _) = none

unfoldable pub of_strings : Option (List String) → Json
unfolding string_items
of_strings none = null
of_strings (some l) = arr (string_items l)

-- The element of an array of fixed length, at which a shorter array has a zero.
unfoldable pub item : Items → Option Json
item nil = none
item (cons j l) = some j

unfoldable pub rest_items : Items → Items
rest_items nil = nil
rest_items (cons j l) = l

-- *[1]string and *[2]string; nil is `none`
unfoldable pub to_single : Option Json → Option (Option String)
unfolding to_string item
to_single none = some none
to_single (some null) = some none
to_single (some (arr l)) = elim (to_string (item l)) [ none ↦ none | some s ↦ some (some s) ]
to_single (some _) = none

unfoldable pub of_single : Option String → Json
of_single none = null
of_single (some s) = arr (cons (str s) nil)

unfoldable pub to_pair : Option Json → Option (Option (String × String))
unfolding to_string item rest_items
to_pair none = some none
to_pair (some null) = some none
to_pair (some (arr l)) = elim (to_string (item l)) [
  | none ↦ none
  | some s ↦ elim (to_string (item (rest_items l))) [ none ↦ none | some t ↦ some (some (s, t)) ]
]
to_pair (some _) = none

unfoldable pub of_pair : Option (String × String) → Json
of_pair none = null
of_pair (some (s, t)) = arr (cons (str s) (cons (str t) nil))

-- json.RawMessage: nil is written as null.
unfoldable pub of_raw : Option Json → Json
of_raw none = null
of_raw (some j) = j

module _ (f : Float64) (c : Codec f) where
  -- A member as an int.
  unfoldable pub to_int : Option Json → Option ℤ
  to_int none = some (pos 0)
  to_int (some null) = some (pos 0)
  to_int (some (num s)) = c.parse_int s
  to_int (some _) = none

  unfoldable pub of_int : ℤ → Json
  of_int i = num (c.format_int i)

  -- A struct from a text.
  unfoldable pub read_members : c.Raw → Option Fields
  unfolding members
  read_members raw = elim (c.unmarshal raw) [ none ↦ none | some j ↦ members j ]

-- A value in an interface{}: what encoding/json puts there, and an int, which only the program
-- puts there.
pub data Any (f : Float64) : Type 0 where
  nothing : Any f
  text : String → Any f
  whole : ℤ → Any f
  real : f.Number → Any f
  other : Json → Any f

module _ (f : Float64) (c : Codec f) where
  -- Only a number's text can be refused.
  unfoldable pub to_any : Option Json → Option (Any f)
  to_any none = some nothing
  to_any (some null) = some nothing
  to_any (some (str s)) = some (text s)
  to_any (some (num s)) = elim (c.parse_float s) [ none ↦ none | some x ↦ some (real x) ]
  to_any (some (boolean b)) = some (other (boolean b))
  to_any (some (arr l)) = some (other (arr l))
  to_any (some (obj m)) = some (other (obj m))

  unfoldable pub of_any : Any f → Json
  of_any nothing = null
  of_any (text s) = str s
  of_any (whole i) = num (c.format_int i)
  of_any (real x) = num (c.format_float x)
  of_any (other j) = j
