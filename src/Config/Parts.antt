-- ===== src/Config/Parts.antt =====
-- Reading and writing a section of the configuration of src/bms_2030_5_client/runtime_config.py, and its
-- enumerations.
use ieee2030_5_cold_client.Prelude.{String, Option, none, some, List, [], ◌∷◌, if◌then◌else◌}
use ieee2030_5_cold_client.Prelude.Int.{ℤ}
use ieee2030_5_cold_client.Config.Values.{
  Float, Value, null, int, float, dict, Fields, Loaded, loaded, ◌>>=◌, fields_of, truthy,
}

-- `T.from_dict(v)`, `T.from_dict(v) if v else T()` and `T.from_dict(v) if v else None`.
unfoldable pub section {ℓ} : {A : Type ℓ} → (Fields → Loaded A) → Value → Loaded A
section f v = do d ← fields_of v; f d

unfoldable pub section_or {ℓ} : {A : Type ℓ} → A → (Fields → Loaded A) → Value → Loaded A
unfolding section
section_or a f v = if truthy v then section f v else loaded a

unfoldable pub section_if {ℓ} : {A : Type ℓ} → (Fields → Loaded A) → Value → Loaded (Option A)
unfolding section
section_if f v =
    let given = (do a ← section f v; loaded (some a)) in if truthy v then given else loaded none

abbrev pub int_or_null : Option ℤ → Value
int_or_null none = null
int_or_null (some z) = int z

abbrev pub float_or_null : Option Float → Value
float_or_null none = null
float_or_null (some x) = float x

abbrev pub dict_or_null {ℓ} : {A : Type ℓ} → (A → Fields) → Option A → Value
dict_or_null f none = null
dict_or_null f (some a) = dict (f a)

abbrev pub content_types : List String
content_types = "application/sep+xml" ∷ "application/sep-exi" ∷ []

abbrev pub modbus_modes : List String
modbus_modes = "tcp" ∷ "rtu" ∷ []

abbrev pub parse_formats : List String
parse_formats = "sep_xml" ∷ "sep_exi" ∷ "json" ∷ []

abbrev pub modbus_data_types : List String
modbus_data_types = "int16" ∷ "uint16" ∷ "int32" ∷ "uint32" ∷ "float32" ∷ []

abbrev pub power_control_modes : List String
power_control_modes = "dry_run" ∷ "production" ∷ []
