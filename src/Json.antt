-- ===== src/Json.antt =====
-- The values that `json.loads` returns and `json.dumps` takes, with Python's tests on them.
use lapcare.Common.{String, Option, none, some, Bool, str_eq, if◌then◌else◌}
use lapcare.Common.Int.{ℤ}

mutual
  pub data Json : Type 0 where
    null : Json
    boolean : Bool → Json
    integer : ℤ → Json
    -- a number with a fraction or an exponent: the integer that the double equals, if there is one
    real : Option ℤ → Json
    text : String → Json
    array : Items → Json
    object : Fields → Json

  pub data Items : Type 0 where
    nil : Items
    item : Json → Items → Items

  pub data Fields : Type 0 where
    end : Fields
    field : String → Json → Fields → Fields

-- `d.get(key)` on a dict: its keys are distinct.
abbrev pub get : String → Fields → Option Json
get key end = none
get key (field k v rest) = if str_eq k key then some v else get key rest

-- `d[key] = value`: a key that is there keeps its place.
abbrev pub put : String → Json → Fields → Fields
put key value end = field key value end
put key value (field k v rest) =
    let later = put key value rest in if str_eq k key then field k value rest else field k v later

-- `None` is written as null.
abbrev pub nullable : Option String → Json
nullable none = null
nullable (some s) = text s

-- `s or None`
abbrev pub text_or_null : String → Json
text_or_null s = if str_eq s "" then null else text s
