-- ===== src/Power/Limits/Range.antt =====
-- What `PowerLimits` admits, and which requests `PowerValidator.validate` lets pass.
use ieee2030_5_cold_client.Prelude.{◌≡◌, ◌<◌, ◌↔◌, Option, none, some, [], arith, returned, ◌+◌}
use ieee2030_5_cold_client.Prelude.Int.{ℤ, pos, negsuc, pos_part, neg_part, ◌≤ℤ◌, ◌+ℤ◌}
use ieee2030_5_cold_client.Power.Limits.{PowerLimits, percent, post_init, validate}

infix 50 ◌<ℤ◌
abbrev pub ◌<ℤ◌ : ℤ → ℤ → Type 0
a <ℤ b = pos_part a + neg_part b < pos_part b + neg_part a

-- The limits that `__post_init__` accepts.
pub record IsValid (l : PowerLimits) : Type 0 where
  pub charge : pos 0 ≤ℤ l.max_charge_w
  pub discharge : pos 0 ≤ℤ l.max_discharge_w
  pub soc_low : pos 0 ≤ℤ l.min_soc_percent
  pub soc_order : l.min_soc_percent <ℤ l.max_soc_percent
  pub soc_high : l.max_soc_percent ≤ℤ percent 100

-- `__post_init__` returns the limits exactly when both powers are at least 0 and the state of charge
-- limits are ordered within 0 and 100 percent.
pub post_init_iff : (l : PowerLimits) → (post_init l ≡ returned l) ↔ IsValid l
unfolding post_init
post_init_iff l = (λ h. ground arith, λ v. ground arith)

-- A charge at a state of charge below the maximum, a discharge at one above the minimum.
abbrev pub SocAllows : PowerLimits → ℤ → Option ℤ → Type 0
SocAllows l p none = Unit
SocAllows l p (some soc) =
    (p <ℤ pos 0 → soc <ℤ l.max_soc_percent) × (pos 0 <ℤ p → l.min_soc_percent <ℤ soc)

-- A power between a full charge, which is negative, and a full discharge.
abbrev pub Allowed : PowerLimits → ℤ → Option ℤ → Type 0
Allowed l p soc =
    (p <ℤ pos 0 → pos 0 ≤ℤ p +ℤ l.max_charge_w) × (p ≤ℤ l.max_discharge_w) × SocAllows l p soc

validate_nil :
    (l : PowerLimits) (p : ℤ) (soc : Option ℤ) → IsValid l → validate l p soc ≡ [] → Allowed l p soc
unfolding validate ◌+ℤ◌
validate_nil l (pos n) none v h = ground arith
validate_nil l (pos n) (some s) v h = ground arith
validate_nil l (negsuc n) none v h = ground arith
validate_nil l (negsuc n) (some s) v h = ground arith

validate-Allowed :
    (l : PowerLimits) (p : ℤ) (soc : Option ℤ) → Allowed l p soc → validate l p soc ≡ []
unfolding validate ◌+ℤ◌
validate-Allowed l (pos n) none a = ground arith
validate-Allowed l (pos n) (some s) a = ground arith
validate-Allowed l (negsuc n) none a = ground arith
validate-Allowed l (negsuc n) (some s) a = ground arith

-- Under valid limits `validate` returns no error exactly for a request that is no charge beyond the
-- maximum and no discharge beyond the maximum and, where the state of charge is known, no charge at
-- or above its maximum and no discharge at or below its minimum.
pub validate_iff :
    (l : PowerLimits) (p : ℤ) (soc : Option ℤ)
    → IsValid l
    → (validate l p soc ≡ []) ↔ Allowed l p soc
validate_iff l p soc v = (validate_nil l p soc v, validate-Allowed l p soc)
