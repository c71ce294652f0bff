-- ===== src/Json.antt =====
-- JSON objects as Python holds them: dictionaries of `None`, Booleans, integers, strings, lists and
-- dictionaries. Floats are not among them.
use ttlock_ble.Base.{suc, Bool, true, false, [], ◌∷◌, Option, none, some, ◌==◌, not, if◌then◌else◌}
use ttlock_ble.Base.Bytes.{equal}
use ttlock_ble.Outcome.{Result, ok, raised, key_error}
use ttlock_ble.Text.{Text, ℤ, pos, negsuc, codes, decimal, int_of}

mutual
  pub data Value : Type 0 where
    null : Value
    boolean : Bool → Value
    integer : ℤ → Value
    text : Text → Value
    array : Values → Value
    object : Members → Value

  pub data Values : Type 0 where
    end : Values
    item : Value → Values → Values

  pub data Members : Type 0 where
    empty : Members
    member : Text → Value → Members → Members

-- `mapping.get(key)`, with `none` for a missing key.
unfoldable pub get : Text → Members → Option Value
unfolding equal
get key empty = none
get key (member k v ms) = if equal k key then some v else get key ms

-- `mapping.get(key, default)`
unfoldable pub get_or : Text → Value → Members → Value
unfolding get
get_or key default ms = elim (get key ms) [ none ↦ default | some v ↦ v ]

-- `mapping[key]`
unfoldable pub get_item : Text → Members → Result Value
unfolding get
get_item key ms = elim (get key ms) [ none ↦ raised key_error | some v ↦ ok v ]

-- `bool(value)`
unfoldable pub truthy : Value → Bool
truthy null = false
truthy (boolean b) = b
truthy (integer (pos n)) = not (n == 0)
truthy (integer (negsuc n)) = true
truthy (text []) = false
truthy (text (c ∷ cs)) = true
truthy (array end) = false
truthy (array (item v vs)) = true
truthy (object empty) = false
truthy (object (member k v ms)) = true

-- `first or second`
unfoldable pub or_else : Value → Value → Value
unfolding truthy
or_else first second = if truthy first then first else second

-- `str(number)`
unfoldable pub str_of_int : ℤ → Text
str_of_int (pos n) = decimal n
str_of_int (negsuc n) = b'-' ∷ decimal (suc n)

-- `str(value)`; `repr` prints lists and dictionaries.
unfoldable pub str_of : (Value → Text) → Value → Text
unfolding str_of_int
str_of repr null = codes "None"
str_of repr (boolean true) = codes "True"
str_of repr (boolean false) = codes "False"
str_of repr (integer n) = str_of_int n
str_of repr (text t) = t
str_of repr (array vs) = repr (array vs)
str_of repr (object ms) = repr (object ms)

-- `int(str(value))`
unfoldable pub int_of_str : (Value → Text) → Value → Result ℤ
unfolding str_of
int_of_str repr v = int_of (str_of repr v)
