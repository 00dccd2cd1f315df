-- ===== src/Config/Checked.antt =====
-- What the validation helpers of src/bms_2030_5_client/runtime_config.py let through, and what they accept.
use mathlib.Core.Path.{transport}
use ieee2030_5_cold_client.Prelude.{
  ◌≡◌, refl, sym, ap, ◌∙◌, String, Bool, true, Option, none, some, List, if_intro_eq,
  option_intro_eq, nonempty,
}
use ieee2030_5_cold_client.Prelude.Int.{ℤ}
use ieee2030_5_cold_client.Prelude.Lists.{All}
use ieee2030_5_cold_client.Config.Values.{
  Float, Value, null, bool, int, float, text, list, dict, Items, no_items, item, Fields, no_fields,
  entry, Loaded, loaded, invalid, crashed, ◌>>=◌, Python, fields_of, truthy,
}
use ieee2030_5_cold_client.Config.Checks.{
  is_member, hashable, validate_enum, convert, check, in_port, validate_port, url_ok, validate_url,
  is_positive, validate_positive, among, log_levels, validate_log_level, in_range_ℤ,
  validate_range_ℤ, in_range_float, validate_range_float, path_ok, warn_tls_path, each_item, each,
}
use ieee2030_5_cold_client.Config.Parts.{section, section_or, section_if}

-- What holds of the value of a load that goes through.
pub record Yields {ℓ κ} {A : Type ℓ} (P : A → Type κ) (m : Loaded A) : Type (ℓ ⊔ κ) where
  pub apply : (a : A) → m ≡ loaded a → P a

module _ {ℓ} {A : Type ℓ} where
  loaded_value : A → Loaded A → A
  loaded_value a (loaded x) = x
  loaded_value a (invalid e) = a
  loaded_value a crashed = a

  loaded_inj : (a b : A) → loaded a ≡ loaded b → a ≡ b
  unfolding loaded_value
  loaded_inj a b h = ap (loaded_value a) h

  IsLoaded : Loaded A → Type 0
  IsLoaded (loaded x) = Unit
  IsLoaded (invalid e) = ⊥
  IsLoaded crashed = ⊥

  invalid_not : (e : String) (a : A) → invalid e ≡ loaded a → ⊥
  unfolding IsLoaded
  invalid_not e a h = transport (ap IsLoaded (sym h)) tt

  crashed_not : (a : A) → crashed ≡ loaded a → ⊥
  unfolding IsLoaded
  crashed_not a h = transport (ap IsLoaded (sym h)) tt

  pub loaded-Yields {κ} : {P : A → Type κ} {a : A} → P a → Yields P (loaded a)
  loaded-Yields {P} {a} x = record { apply = λ b h. transport (ap P (loaded_inj a b h)) x }

  pub invalid-Yields {κ} : {P : A → Type κ} {e : String} → Yields P (invalid e)
  invalid-Yields {e} = record { apply = λ b h. absurd (invalid_not e b h) }

  pub crashed-Yields {κ} : {P : A → Type κ} → Yields P crashed
  crashed-Yields = record { apply = λ b h. absurd (crashed_not b h) }

  pub any-Yields : (m : Loaded A) → Yields (λ a. Unit {0}) m
  any-Yields m = record { apply = λ a h. tt }

module _ {ℓ κ μ ν} {A : Type ℓ} {B : Type κ} {Q : A → Type μ} {P : B → Type ν} where
  pub bind-Yields :
      (m : Loaded A) {f : A → Loaded B}
      → Yields Q m
      → ((a : A) → Q a → Yields P (f a))
      → Yields P (m >>= f)
  bind-Yields (loaded a) q r = r a (q.apply a refl)
  bind-Yields (invalid e) q r = invalid-Yields
  bind-Yields crashed q r = crashed-Yields

pub check-Yields {ℓ} :
    {A : Type ℓ} (test : A → Bool) (f : String) (a : A)
    → Yields (λ x. test x ≡ true) (check test f a)
check-Yields test f a =
    if_intro_eq (Yields (λ x. test x ≡ true)) (test a) (λ e. loaded-Yields e) (λ e. invalid-Yields)

pub validate_port-Yields :
    (p : Python) (v : Value) (f : String) → Yields (λ z. in_port z ≡ true) (validate_port p v f)
unfolding validate_port
validate_port-Yields p v f =
    bind-Yields (convert f (p.int_of v)) (any-Yields (convert f (p.int_of v)))
      (λ z h. check-Yields in_port f z)

pub validate_positive-Yields :
    (p : Python) (v : Value) (f : String)
    → Yields (λ x. is_positive x ≡ true) (validate_positive p v f)
unfolding validate_positive
validate_positive-Yields p v f =
    bind-Yields (convert f (p.float_of v)) (any-Yields (convert f (p.float_of v)))
      (λ z h. check-Yields is_positive f z)

pub validate_range_ℤ-Yields :
    (p : Python) (ge le : ℤ) (v : Value) (f : String)
    → Yields (λ z. in_range_ℤ ge le z ≡ true) (validate_range_ℤ p ge le v f)
unfolding validate_range_ℤ
validate_range_ℤ-Yields p ge le v f =
    bind-Yields (convert f (p.int_of v)) (any-Yields (convert f (p.int_of v)))
      (λ z h. check-Yields (in_range_ℤ ge le) f z)

pub validate_range_float-Yields :
    (p : Python) (ge le : Float) (v : Value) (f : String)
    → Yields (λ x. in_range_float ge le x ≡ true) (validate_range_float p ge le v f)
unfolding validate_range_float
validate_range_float-Yields p ge le v f =
    bind-Yields (convert f (p.float_of v)) (any-Yields (convert f (p.float_of v)))
      (λ z h. check-Yields (in_range_float ge le) f z)

pub validate_log_level-Yields :
    (p : Python) (v : Value) (f : String)
    → Yields (λ s. among s log_levels ≡ true) (validate_log_level p v f)
unfolding validate_log_level
validate_log_level-Yields p v f = check-Yields (λ s. among s log_levels) f (p.upper_of v)

pub validate_enum-Yields :
    (v : Value) (names : List String) (f : String)
    → Yields (λ w. is_member names w ≡ true) (validate_enum v names f)
unfolding validate_enum
validate_enum-Yields v names f =
    let P = Yields (λ w. is_member names w ≡ true) in
    if_intro_eq P (is_member names v) (λ e. loaded-Yields e)
      (λ e. if_intro_eq P (hashable v) (λ e'. invalid-Yields) (λ e'. crashed-Yields))

pub warn_tls_path-Yields : (v : Value) → Yields (λ w. path_ok w ≡ true) (warn_tls_path v)
unfolding warn_tls_path
warn_tls_path-Yields v =
    if_intro_eq (Yields (λ w. path_ok w ≡ true)) (path_ok v) (λ e. loaded-Yields e)
      (λ e. crashed-Yields)

pub validate_url-Yields :
    (p : Python) (v : Value) (f : String)
    → Yields (λ w. url_ok (p.url_parts w) ≡ true) (validate_url p v f)
unfolding validate_url
validate_url-Yields p v f =
    let P = Yields (λ w. url_ok (p.url_parts w) ≡ true) in
    option_intro_eq P (p.url_parts v) (λ e. crashed-Yields)
      (λ u e.
        if_intro_eq P (url_ok (some u)) (λ e'. loaded-Yields (ap url_ok e ∙ e'))
          (λ e'. invalid-Yields))

pub section-Yields {ℓ κ} :
    {A : Type ℓ} {P : A → Type κ} {f : Fields → Loaded A} (v : Value)
    → ((d : Fields) → Yields P (f d))
    → Yields P (section f v)
unfolding section
section-Yields v h = bind-Yields (fields_of v) (any-Yields (fields_of v)) (λ d x. h d)

pub section_or-Yields {ℓ κ} :
    {A : Type ℓ} {P : A → Type κ} {f : Fields → Loaded A} (a : A) (v : Value)
    → P a
    → ((d : Fields) → Yields P (f d))
    → Yields P (section_or a f v)
unfolding section_or
section_or-Yields {P} a v x h =
    if_intro_eq (Yields P) (truthy v) (λ e. section-Yields v h) (λ e. loaded-Yields x)

-- What holds where there is a value.
abbrev pub WhereSome {ℓ κ} : {A : Type ℓ} → (A → Type κ) → Option A → Type κ
WhereSome P none = Unit
WhereSome P (some a) = P a

pub section_if-Yields {ℓ κ} :
    {A : Type ℓ} {P : A → Type κ} {f : Fields → Loaded A} (v : Value)
    → ((d : Fields) → Yields P (f d))
    → Yields (WhereSome P) (section_if f v)
unfolding section_if
section_if-Yields {P} {f} v h =
    if_intro_eq (Yields (WhereSome P)) (truthy v)
      (λ e. bind-Yields (section f v) (section-Yields v h) (λ a x. loaded-Yields x))
      (λ e. loaded-Yields tt)

each_item-Yields {ℓ κ} :
    {A : Type ℓ} {P : A → Type κ} {f : Value → Loaded A} (vs : Items)
    → ((v : Value) → Yields P (f v))
    → Yields (All P) (each_item f vs)
unfolding each_item
each_item-Yields no_items h = loaded-Yields tt
each_item-Yields {f} (item v vs) h =
    bind-Yields (f v) (h v) (λ a x.
      bind-Yields (each_item f vs) (each_item-Yields vs h) (λ as_ xs. loaded-Yields (x, xs)))

pub each-Yields {ℓ κ} :
    {A : Type ℓ} {P : A → Type κ} {f : Value → Loaded A} (v : Value)
    → ((w : Value) → Yields P (f w))
    → Yields (All P) (each f v)
unfolding each
each-Yields (list vs) h = each_item-Yields vs h
each-Yields (dict no_fields) h = loaded-Yields tt
each-Yields (dict (entry k v d)) h = crashed-Yields
each-Yields {P} (text s) h =
    if_intro_eq (Yields (All P)) (nonempty s) (λ e. crashed-Yields) (λ e. loaded-Yields tt)
each-Yields null h = crashed-Yields
each-Yields (bool b) h = crashed-Yields
each-Yields (int z) h = crashed-Yields
each-Yields (float x) h = crashed-Yields
