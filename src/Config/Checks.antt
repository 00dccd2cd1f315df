-- ===== src/Config/Checks.antt =====
-- The validation helpers of src/bms_2030_5_client/runtime_config.py. An error names its field; the rest of its
-- message is left out.
use ieee2030_5_cold_client.Prelude.{
  String, Bool, true, false, Option, none, some, List, [], ◌∷◌, ◌&&◌, not, if◌then◌else◌, str_eq,
  nonempty,
}
use ieee2030_5_cold_client.Prelude.Int.{ℤ, pos, leb_ℤ}
use ieee2030_5_cold_client.Config.Values.{
  Float, Value, null, bool, int, float, text, list, dict, Items, no_items, item, no_fields, entry,
  Loaded, loaded, invalid, crashed, ◌>>=◌, Converted, converted, refused, overflow, Python,
  lt_float, le_float, whole, truthy,
}

abbrev pub among : String → List String → Bool
among s [] = false
among s (x ∷ xs) = if str_eq x s then true else among s xs

-- `value in valid`, for the texts of an enumeration; a list or a dictionary cannot be hashed.
abbrev pub is_member : List String → Value → Bool
is_member names (text s) = among s names
is_member names null = false
is_member names (bool b) = false
is_member names (int z) = false
is_member names (float x) = false
is_member names (list vs) = false
is_member names (dict d) = false

abbrev pub hashable : Value → Bool
hashable (list vs) = false
hashable (dict d) = false
hashable null = true
hashable (bool b) = true
hashable (int z) = true
hashable (float x) = true
hashable (text s) = true

-- `_validate_enum`.
unfoldable pub validate_enum : Value → List String → String → Loaded Value
validate_enum v names f =
    if is_member names v then loaded v else if hashable v then invalid f else crashed

abbrev pub convert {ℓ} : {A : Type ℓ} → String → Converted A → Loaded A
convert f (converted a) = loaded a
convert f refused = invalid f
convert f overflow = crashed

abbrev pub check {ℓ} : {A : Type ℓ} → (A → Bool) → String → A → Loaded A
check test f a = if test a then loaded a else invalid f

abbrev pub in_port : ℤ → Bool
in_port z = leb_ℤ (pos 1) z && leb_ℤ z (pos 65535)

-- `_validate_port`.
unfoldable pub validate_port : Python → Value → String → Loaded ℤ
validate_port p v f = do z ← convert f (p.int_of v); check in_port f z

abbrev pub is_http : String → Bool
is_http s = if str_eq s "http" then true else str_eq s "https"

abbrev pub url_ok : Option (String × String) → Bool
url_ok none = false
url_ok (some (scheme, netloc)) = is_http scheme && nonempty netloc

-- `_validate_url`.
unfoldable pub validate_url : Python → Value → String → Loaded Value
validate_url p v f = elim (p.url_parts v) [
  | none ↦ crashed
  | some u ↦ if url_ok (some u) then loaded v else invalid f
]

-- `_validate_type`, for `int` and for `float`.
unfoldable pub validate_type {ℓ} :
    {A : Type ℓ} → (Value → Converted A) → Value → String → Loaded (Option A)
validate_type of null f = loaded none
validate_type of (bool b) f = do a ← convert f (of (bool b)); loaded (some a)
validate_type of (int z) f = do a ← convert f (of (int z)); loaded (some a)
validate_type of (float x) f = do a ← convert f (of (float x)); loaded (some a)
validate_type of (text s) f = do a ← convert f (of (text s)); loaded (some a)
validate_type of (list vs) f = do a ← convert f (of (list vs)); loaded (some a)
validate_type of (dict d) f = do a ← convert f (of (dict d)); loaded (some a)

abbrev pub is_positive : Float → Bool
is_positive x = not (le_float x (whole 0))

-- `_validate_positive`.
unfoldable pub validate_positive : Python → Value → String → Loaded Float
validate_positive p v f = do x ← convert f (p.float_of v); check is_positive f x

abbrev pub log_levels : List String
log_levels = "DEBUG" ∷ "INFO" ∷ "WARNING" ∷ "ERROR" ∷ "CRITICAL" ∷ []

-- `_validate_log_level`.
unfoldable pub validate_log_level : Python → Value → String → Loaded String
validate_log_level p v f = check (λ s. among s log_levels) f (p.upper_of v)

-- `_validate_range` with the bounds `ge` and `le`, as every caller has them: the tests are those
-- that raise, so that NaN passes both.
abbrev pub in_range_ℤ : ℤ → ℤ → ℤ → Bool
in_range_ℤ ge le z = leb_ℤ ge z && leb_ℤ z le

unfoldable pub validate_range_ℤ : Python → ℤ → ℤ → Value → String → Loaded ℤ
validate_range_ℤ p ge le v f = do z ← convert f (p.int_of v); check (in_range_ℤ ge le) f z

abbrev pub in_range_float : Float → Float → Float → Bool
in_range_float ge le x = not (lt_float x ge) && not (lt_float le x)

unfoldable pub validate_range_float : Python → Float → Float → Value → String → Loaded Float
validate_range_float p ge le v f = do x ← convert f (p.float_of v); check (in_range_float ge le) f x

-- `_warn_tls_path`: the warning is left out, but `Path(path_str)` wants a text.
abbrev pub path_ok : Value → Bool
path_ok (text s) = true
path_ok null = true
path_ok (bool b) = not b
path_ok (int z) = not (truthy (int z))
path_ok (float x) = not (truthy (float x))
path_ok (list vs) = not (truthy (list vs))
path_ok (dict d) = not (truthy (dict d))

unfoldable pub warn_tls_path : Value → Loaded Value
warn_tls_path v = if path_ok v then loaded v else crashed

-- `[f(x) for x in v]`: over a list; the keys of a dictionary and the characters of a text have no
-- `get`, so that these must be empty.
unfoldable pub each_item {ℓ} : {A : Type ℓ} → (Value → Loaded A) → Items → Loaded (List A)
each_item f no_items = loaded []
each_item f (item v vs) = do a ← f v; rest ← each_item f vs; loaded (a ∷ rest)

unfoldable pub each {ℓ} : {A : Type ℓ} → (Value → Loaded A) → Value → Loaded (List A)
each f (list vs) = each_item f vs
each f (dict no_fields) = loaded []
each f (dict (entry k v d)) = crashed
each f (text s) = if nonempty s then crashed else loaded []
each f null = crashed
each f (bool b) = crashed
each f (int z) = crashed
each f (float x) = crashed
