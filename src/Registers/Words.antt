-- ===== src/Registers/Words.antt =====
-- What the registers of src/bms_2030_5_client/modbus/register_writer.py hold, read back as two's
-- complement.
use ieee2030_5_cold_client.Prelude.{
  ℕ, ◌+◌, ◌-◌, ◌*◌, ◌<◌, ◌≡◌, ap, ◌∙◌, ◌⊎◌, ◌↔◌, Bool, true, Option, none, List, [], ◌∷◌, String,
  arith, if◌then◌else◌, ltb, Outcome, returned,
}
use ieee2030_5_cold_client.Prelude.Int.{ℤ, pos, negsuc, ◌+ℤ◌}
use ieee2030_5_cold_client.Prelude.Lists.{All}
use ieee2030_5_cold_client.Pcs.Words.{signed16}
use ieee2030_5_cold_client.Registers.{
  DataType, int16, uint16, int32, uint32, float32, other, Scaled, clamp, wrap, split, convert_value,
  RegisterWriter, reply_result, write,
}

-- One word or two as a number, the high one first, and that as two's complement.
abbrev pub joined : List ℕ → ℕ
joined (l ∷ []) = l
joined (h ∷ l ∷ []) = h * 65536 + l
joined _ = 0

abbrev pub signed32 : ℕ → ℤ
signed32 n = if ltb n 2147483648 then pos n else negsuc (4294967295 - n)

-- Every register that a value becomes is a word of 16 bits, when the two words of its float are.
pub convert_value-lt :
    (t : DataType) (v : Scaled)
    → v.high < 65536
    → v.low < 65536
    → All (λ n. n < 65536) (convert_value t v)
unfolding convert_value wrap split ◌+ℤ◌
convert_value-lt int16 v h l = ground arith
convert_value-lt uint16 v h l = ground arith
convert_value-lt int32 v h l = ground arith
convert_value-lt uint32 v h l = ground arith
convert_value-lt float32 v h l = ground arith
convert_value-lt other v h l = ground arith

joined-split : (n : ℕ) → n < 4294967296 → joined (split n) ≡ n
unfolding split
joined-split n lt = omega (arith, lt)

abbrev within16 : ℤ → ℤ
within16 = clamp (negsuc 32767) (pos 32767)

abbrev within32 : ℤ → ℤ
within32 = clamp (negsuc 2147483647) (pos 2147483647)

wrap16 : (z : ℤ) → signed16 (wrap (pos 65536) (within16 z)) ≡ within16 z
unfolding wrap ◌+ℤ◌
wrap16 (pos n) = ground arith
wrap16 (negsuc n) = ground arith

wrap32 :
    (z : ℤ)
    → (signed32 (wrap (pos 4294967296) (within32 z)) ≡ within32 z)
      × (wrap (pos 4294967296) (within32 z) < 4294967296)
unfolding wrap ◌+ℤ◌
wrap32 (pos n) = ground arith
wrap32 (negsuc n) = ground arith

wrap_unsigned :
    (size high : ℕ) (z : ℤ)
    → (pos (wrap (pos size) (clamp (pos 0) (pos high) z)) ≡ clamp (pos 0) (pos high) z)
      × (wrap (pos size) (clamp (pos 0) (pos high) z) < high + 1)
unfolding wrap
wrap_unsigned size high (pos n) = ground arith
wrap_unsigned size high (negsuc n) = ground arith

-- The words read back give the truncated value, clamped to the range of the type: as two's
-- complement for the signed types, the high word first for the types of 32 bits.
pub convert_value_reads :
    (v : Scaled)
    → (signed16 (joined (convert_value int16 v)) ≡ clamp (negsuc 32767) (pos 32767) v.truncated)
      × (pos (joined (convert_value uint16 v)) ≡ clamp (pos 0) (pos 65535) v.truncated)
      × (signed32 (joined (convert_value int32 v))
          ≡ clamp (negsuc 2147483647) (pos 2147483647) v.truncated)
      × (pos (joined (convert_value uint32 v)) ≡ clamp (pos 0) (pos 4294967295) v.truncated)
unfolding convert_value
convert_value_reads v =
    let z = v.truncated in
    let u = wrap_unsigned 4294967296 4294967295 z in
    (
      wrap16 z,
      (wrap_unsigned 65536 65535 z).0,
      ap signed32 (joined-split (wrap (pos 4294967296) (within32 z)) (wrap32 z).1) ∙ (wrap32 z).0,
      ap pos (joined-split (wrap (pos 4294967296) (clamp (pos 0) (pos 4294967295) z)) u.1) ∙ u.0,
    )

-- A write succeeds exactly in the simulation mode, or over a connection, old or new, when the
-- device answers without an error.
pub write_success_iff :
    (address : ℕ) (t : DataType) (v : Scaled) (connects : Bool) (reply : Outcome (Option String))
    (w : RegisterWriter)
    → ((write address t v connects reply w).0.success ≡ true) ↔ (
        (w.simulation_mode ≡ true)
        ⊎ (((w.connected ≡ true) ⊎ (connects ≡ true)) × (reply ≡ returned none)))
unfolding write reply_result
write_success_iff address t v connects reply w = (λ h. ground arith, λ h. ground arith)
