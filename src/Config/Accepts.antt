-- ===== src/Config/Accepts.antt =====
-- What the helpers of src/bms_2030_5_client/runtime_config.py make of the values that `to_dict` writes.
use ieee2030_5_cold_client.Prelude.{
  ◌≡◌, arith, refl, ap, ◌∙◌, String, Bool, true, Option, none, some, List, [], ◌∷◌, if◌then◌else◌,
}
use ieee2030_5_cold_client.Prelude.Int.{ℤ}
use ieee2030_5_cold_client.Prelude.Lists.{All}
use ieee2030_5_cold_client.Config.Values.{
  Float, Value, int, float, text, list, dict, Fields, Loaded, loaded, invalid, crashed, ◌>>=◌,
  Python, converted, truthy,
}
use ieee2030_5_cold_client.Config.Checks.{
  is_member, hashable, validate_enum, convert, check, in_port, validate_port, url_ok, validate_url,
  validate_type, is_positive, validate_positive, among, log_levels, validate_log_level, in_range_ℤ,
  validate_range_ℤ, in_range_float, validate_range_float, path_ok, warn_tls_path, each_item, each,
}
use ieee2030_5_cold_client.Config.Parts.{
  section, section_or, section_if, int_or_null, float_or_null, dict_or_null,
}
use ieee2030_5_cold_client.Config.Runtime.{items}
use ieee2030_5_cold_client.Config.Targets.{
  SubscriptionConditions, conditions_from_dict, conditions_to_dict, conditions_of,
}
use ieee2030_5_cold_client.Config.Checked.{WhereSome}

-- A load ends so.
pub record Ends {ℓ} {A : Type ℓ} (m r : Loaded A) : Type ℓ where
  pub same : m ≡ r

pub bind-Ends {ℓ κ} :
    {A : Type ℓ} {B : Type κ} (m : Loaded A) (a : A) (f : A → Loaded B) {r : Loaded B}
    → m ≡ loaded a
    → Ends (f a) r
    → Ends (m >>= f) r
bind-Ends m a f h k = record { same = ap (λ n. n >>= f) h ∙ k.same }

pub check-loaded {ℓ} :
    {A : Type ℓ} (test : A → Bool) (f : String) (a : A) → test a ≡ true → check test f a ≡ loaded a
check-loaded test f a h = ap (λ b. if b then loaded a else invalid f) h

pub validate_enum-loaded :
    (v : Value) (names : List String) (f : String)
    → is_member names v ≡ true
    → validate_enum v names f ≡ loaded v
unfolding validate_enum
validate_enum-loaded v names f h =
    ap (λ b. if b then loaded v else if hashable v then invalid f else crashed) h

pub warn_tls_path-loaded : (v : Value) → path_ok v ≡ true → warn_tls_path v ≡ loaded v
unfolding warn_tls_path
warn_tls_path-loaded v h = ap (λ b. if b then loaded v else crashed) h

pub validate_url-loaded :
    (p : Python) (v : Value) (f : String)
    → url_ok (p.url_parts v) ≡ true
    → validate_url p v f ≡ loaded v
unfolding validate_url
validate_url-loaded p v f h = read_parts (p.url_parts v) h
  where
    read_parts :
        (o : Option (String × String))
        → url_ok o ≡ true
        → (elim o [ none ↦ crashed | some u ↦ if url_ok (some u) then loaded v else invalid f ])
          ≡ loaded v
    read_parts none e = absurd (ground (arith, e))
    read_parts (some u) e = ap (λ b. if b then loaded v else invalid f) e

module _ (p : Python) (int_law : (z : ℤ) → p.int_of (int z) ≡ converted z) where
  pub validate_port-loaded :
      (z : ℤ) (f : String) → in_port z ≡ true → validate_port p (int z) f ≡ loaded z
  unfolding validate_port
  validate_port-loaded z f h =
      ap (λ c. convert f c >>= check in_port f) (int_law z) ∙ check-loaded in_port f z h

  pub validate_range_ℤ-loaded :
      (ge le z : ℤ) (f : String)
      → in_range_ℤ ge le z ≡ true
      → validate_range_ℤ p ge le (int z) f ≡ loaded z
  unfolding validate_range_ℤ
  validate_range_ℤ-loaded ge le z f h =
      ap (λ c. convert f c >>= check (in_range_ℤ ge le) f) (int_law z)
      ∙ check-loaded (in_range_ℤ ge le) f z h

  pub validate_int-loaded :
      (o : Option ℤ) (f : String) → validate_type p.int_of (int_or_null o) f ≡ loaded o
  unfolding validate_type
  validate_int-loaded none f = refl
  validate_int-loaded (some z) f = ap (λ c. convert f c >>= λ a. loaded (some a)) (int_law z)

module _ (p : Python) (float_law : (x : Float) → p.float_of (float x) ≡ converted x) where
  pub validate_positive-loaded :
      (x : Float) (f : String) → is_positive x ≡ true → validate_positive p (float x) f ≡ loaded x
  unfolding validate_positive
  validate_positive-loaded x f h =
      ap (λ c. convert f c >>= check is_positive f) (float_law x) ∙ check-loaded is_positive f x h

  pub validate_range_float-loaded :
      (ge le x : Float) (f : String)
      → in_range_float ge le x ≡ true
      → validate_range_float p ge le (float x) f ≡ loaded x
  unfolding validate_range_float
  validate_range_float-loaded ge le x f h =
      ap (λ c. convert f c >>= check (in_range_float ge le) f) (float_law x)
      ∙ check-loaded (in_range_float ge le) f x h

  pub validate_float-loaded :
      (o : Option Float) (f : String) → validate_type p.float_of (float_or_null o) f ≡ loaded o
  unfolding validate_type
  validate_float-loaded none f = refl
  validate_float-loaded (some x) f = ap (λ c. convert f c >>= λ a. loaded (some a)) (float_law x)

pub validate_log_level-loaded :
    (p : Python) (s f : String)
    → p.upper_of (text s) ≡ s
    → among s log_levels ≡ true
    → validate_log_level p (text s) f ≡ loaded s
unfolding validate_log_level
validate_log_level-loaded p s f u h =
    ap (check (λ x. among x log_levels) f) u ∙ check-loaded (λ x. among x log_levels) f s h

module _ {ℓ} {A : Type ℓ} (f : Fields → Loaded A) where
  pub section-loaded : (d : Fields) (a : A) → f d ≡ loaded a → section f (dict d) ≡ loaded a
  unfolding section
  section-loaded d a h = h

  pub section_or-loaded :
      (d : Fields) (b a : A)
      → truthy (dict d) ≡ true
      → f d ≡ loaded a
      → section_or b f (dict d) ≡ loaded a
  unfolding section_or section
  section_or-loaded d b a t h = ap (λ c. if c then f d else loaded b) t ∙ h

  module _ {κ} (g : A → Fields) (P : A → Type κ) (back : (a : A) → P a → f (g a) ≡ loaded a) where
    pub section_if-loaded :
        ((a : A) → truthy (dict (g a)) ≡ true)
        → (o : Option A) → WhereSome P o
        → section_if f (dict_or_null g o) ≡ loaded o
    unfolding section_if section
    section_if-loaded t none h = refl
    section_if-loaded t (some a) h =
        ap (λ b. if b then (f (g a) >>= λ x. loaded (some x)) else loaded none) (t a)
        ∙ ap (λ m. m >>= λ x. loaded (some x)) (back a h)

    each_item-loaded :
        (as_ : List A)
        → All P as_
        → each_item (section f) (items (λ a. dict (g a)) as_) ≡ loaded as_
    unfolding each_item section
    each_item-loaded [] h = refl
    each_item-loaded (a ∷ as_) (h, hs) =
        (bind-Ends (f (g a)) a _ (back a h) (
          bind-Ends (each_item (section f) (items (λ x. dict (g x)) as_)) as_ _
            (each_item-loaded as_ hs) (record { same = refl }))).same

    pub each-loaded :
        (as_ : List A)
        → All P as_
        → each (section f) (list (items (λ a. dict (g a)) as_)) ≡ loaded as_
    unfolding each
    each-loaded as_ h = each_item-loaded as_ h

pub conditions_of-loaded :
    (o : Option SubscriptionConditions)
    → conditions_of (dict_or_null conditions_to_dict o) ≡ loaded o
unfolding conditions_of section conditions_from_dict conditions_to_dict
conditions_of-loaded none = refl
conditions_of-loaded (some c) = refl
