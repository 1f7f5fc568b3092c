-- ===== src/Json.antt =====
-- The values that `json.loads` builds, and Python's ways to read them: `isinstance`, `dict.get`,
-- the truth value, and the normalizers' helpers of forensics/ingest.py on one value.
pub mod Depth
pub mod Load
use goggles.Base.{
  ℕ, Char, String, Bool, true, false, ◌&&◌, Option, none, some, List, [], ◌∷◌, leb, if◌then◌else◌,
  ◌==◌, nat_eq, string_eq,
}
use goggles.Base.Dict
use goggles.Base.Dict.{Dict}
use goggles.Base.Text.{str_len, str_all}
use Prim.Native.Char.{code}

-- `int` is a number from 0 up and `neg n` is -(n + 1); a float keeps its spelling. `constant` is a
-- literal such as NaN, which the parser hands to its `parse_constant` hook.
mutual
  pub data Fields : Type 0 where
    end : Fields
    field : String → Value → Fields → Fields

  pub data Items : Type 0 where
    nil : Items
    cons : Value → Items → Items

  pub data Value : Type 0 where
    null : Value
    bool : Bool → Value
    int : ℕ → Value
    neg : ℕ → Value
    float : String → Value
    constant : String → Value
    str : String → Value
    arr : Items → Value
    obj : Fields → Value

-- A Python list as a list, and a Python dict as its pairs, and back.
abbrev pub items : Items → List Value
items nil = []
items (cons v vs) = v ∷ items vs

abbrev pub of_items : List Value → Items
of_items [] = nil
of_items (v ∷ vs) = cons v (of_items vs)

abbrev pub entries : Fields → Dict String Value
entries end = []
entries (field k v fs) = (k, v) ∷ entries fs

abbrev pub of_entries : Dict String Value → Fields
of_entries [] = end
of_entries ((k, v) ∷ d) = field k v (of_entries d)

-- data.get(key), where a missing key and a null are both None.
abbrev pub get : String → Fields → Value
get k fs = Dict.get_or null k (entries fs)

abbrev pub is_none : Value → Bool
is_none null = true
is_none _ = false

-- key in data
abbrev pub has_key : String → Fields → Bool
has_key k fs = Dict.has k (entries fs)

-- value_if_str: "" stands for what is not a text.
unfoldable pub value_if_str : Value → String
value_if_str (str s) = s
value_if_str _ = ""

-- value_if_int: bool is no int here, and a negative number is none.
unfoldable pub value_if_int : Value → Option ℕ
value_if_int (int n) = some n
value_if_int _ = none

-- HEX_RE.fullmatch of one character.
unfoldable pub is_hex_digit : Char → Bool
is_hex_digit c =
    let n = code c in
    if leb b'0' n && leb n b'9'
    then true
    else if leb b'a' n && leb n b'f'
    then true
    else leb b'A' n && leb n b'F'

-- is_hex(value, exact_len=k) for a text.
unfoldable pub is_hex_str : Option ℕ → String → Bool
unfolding is_hex_digit
is_hex_str exact_len String.[] = false
is_hex_str exact_len (String.◌∷◌ c s) =
    elim exact_len [ none ↦ true | some n ↦ str_len (String.◌∷◌ c s) == n ]
    && str_all is_hex_digit (String.◌∷◌ c s)

unfoldable pub is_hex : Option ℕ → Value → Bool
unfolding is_hex_str
is_hex exact_len (str s) = is_hex_str exact_len s
is_hex exact_len _ = false
