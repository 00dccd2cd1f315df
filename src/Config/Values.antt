-- ===== src/Config/Values.antt =====
-- The values of YAML and the end of a load, for src/bms_2030_5_client/runtime_config.py.
use ieee2030_5_cold_client.Prelude.{
  ℕ, ◌*◌, ◌^◌, String, Bool, true, false, Option, List, [], ◌∷◌, not, if◌then◌else◌, str_eq,
  nonempty, ◌==◌,
}
use ieee2030_5_cold_client.Prelude.Int.{ℤ, pos, abs, ltb_ℤ}

-- A float; `infinite true` is the positive infinity.
pub data Float : Type 0 where
  finite : ℤ → Float
  infinite : Bool → Float
  nan : Float

mutual
  pub data Value : Type 0 where
    null : Value
    bool : Bool → Value
    int : ℤ → Value
    float : Float → Value
    text : String → Value
    list : Items → Value
    dict : Fields → Value

  pub data Items : Type 0 where
    no_items : Items
    item : Value → Items → Items

  pub data Fields : Type 0 where
    no_fields : Fields
    entry : String → Value → Fields → Fields

-- A load ends with a value, with a `ConfigValidationError` on a field, or with another exception.
pub data Loaded {ℓ} (A : Type ℓ) : Type ℓ where
  loaded : A → Loaded A
  invalid : String → Loaded A
  crashed : Loaded A

infixl 5 ◌>>=◌ ◌>>◌
abbrev pub ◌>>=◌ {ℓ κ} : {A : Type ℓ} {B : Type κ} → Loaded A → (A → Loaded B) → Loaded B
loaded a >>= f = f a
invalid e >>= f = invalid e
crashed >>= f = crashed

abbrev pub ◌>>◌ {ℓ κ} : {A : Type ℓ} {B : Type κ} → Loaded A → Loaded B → Loaded B
m >> k = m >>= λ a. k

-- `int(v)` or `float(v)`: a number, a TypeError or ValueError, or another exception.
pub data Converted {ℓ} (A : Type ℓ) : Type ℓ where
  converted : A → Converted A
  refused : Converted A
  overflow : Converted A

-- The builtins of Python: `int`, `float`, `str(v).upper()`, and the scheme and the netloc of
-- `urlparse`, which may raise.
pub record Python : Type 0 where
  pub int_of : Value → Converted ℤ
  pub float_of : Value → Converted Float
  pub upper_of : Value → String
  pub url_parts : Value → Option (String × String)

-- `data.get(key, default)`.
abbrev pub get : String → Value → Fields → Value
get k v no_fields = v
get k v (entry j w d) = if str_eq j k then w else get k v d

abbrev pub fields : List (String × Value) → Fields
fields [] = no_fields
fields ((k, v) ∷ kvs) = entry k v (fields kvs)

-- `v.get(...)` is there on a dictionary only.
abbrev pub fields_of : Value → Loaded Fields
fields_of (dict d) = loaded d
fields_of null = crashed
fields_of (bool b) = crashed
fields_of (int z) = crashed
fields_of (float x) = crashed
fields_of (text s) = crashed
fields_of (list vs) = crashed

-- 2 ^ 1074 of the unit.
unfoldable pub unit : ℕ
unit = 2 ^ 1074

abbrev pub whole : ℕ → Float
whole n = finite (pos (n * unit))

-- `a < b` and `a <= b`, both False where one is NaN.
unfoldable pub lt_float : Float → Float → Bool
lt_float (finite a) (finite b) = ltb_ℤ a b
lt_float (finite a) (infinite b) = b
lt_float (infinite a) (finite b) = not a
lt_float (infinite a) (infinite b) = if a then false else b
lt_float nan b = false
lt_float (finite a) nan = false
lt_float (infinite a) nan = false

unfoldable pub le_float : Float → Float → Bool
le_float (finite a) (finite b) = not (ltb_ℤ b a)
le_float (finite a) (infinite b) = b
le_float (infinite a) (finite b) = not a
le_float (infinite a) (infinite b) = if a then b else true
le_float nan b = false
le_float (finite a) nan = false
le_float (infinite a) nan = false

abbrev is_zero : Float → Bool
is_zero (finite z) = abs z == 0
is_zero (infinite b) = false
is_zero nan = false

-- `if v:`
abbrev pub truthy : Value → Bool
truthy null = false
truthy (bool b) = b
truthy (int z) = not (abs z == 0)
truthy (float x) = not (is_zero x)
truthy (text s) = nonempty s
truthy (list no_items) = false
truthy (list (item v vs)) = true
truthy (dict no_fields) = false
truthy (dict (entry k v d)) = true
