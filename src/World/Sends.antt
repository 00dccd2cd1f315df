-- ===== src/World/Sends.antt =====
-- What a run may have written to registers of the power conversion system.
use ieee2030_5_cold_client.Prelude.{ℕ, suc, ◌+◌, ◌≤◌, ◌≡◌, List, [], ◌∷◌, ◌++◌, arith, ◌∙◌, ap}
use mathlib.Core.List.{append_assoc}
use ieee2030_5_cold_client.Prelude.Lists.{length, All, length-append, All-append, All-map}
use ieee2030_5_cold_client.World.{World, Write, wait}

-- The register writes of a run: at most `n` new ones, each of which has `P`.
pub record Sends (P : Write → Type 0) (n : ℕ) (w w' : World) : Type 0 where
  pub sent : List Write
  pub writes : w'.writes ≡ sent ++ w.writes
  pub each : All P sent
  pub count : length sent ≤ n

pub Sends-map :
    (P Q : Write → Type 0) (n : ℕ) (w w' : World)
    → ((e : Write) → P e → Q e)
    → Sends P n w w'
    → Sends Q n w w'
Sends-map P Q n w w' f s = record {
  sent = s.sent;
  writes = s.writes;
  each = All-map P Q s.sent f s.each;
  count = s.count;
}

pub Sends-le :
    (P : Write → Type 0) (n m : ℕ) (w w' : World) → n ≤ m → Sends P n w w' → Sends P m w w'
Sends-le P n m w w' le s = record {
  sent = s.sent;
  writes = s.writes;
  each = s.each;
  count = omega (arith, s.count);
}

-- The writes alone decide: the worlds may differ in all else.
pub Sends-writes :
    (P : Write → Type 0) (n : ℕ) (w₁ w₁' w₂ w₂' : World)
    → w₂.writes ≡ w₁.writes
    → w₂'.writes ≡ w₁'.writes
    → Sends P n w₁ w₁'
    → Sends P n w₂ w₂'
Sends-writes P n w₁ w₁' w₂ w₂' e e' s = record {
  sent = s.sent;
  writes = rw (e, e') s.writes;
  each = s.each;
  count = s.count;
}

pub Sends-none : (P : Write → Type 0) (n : ℕ) (w w' : World) → w'.writes ≡ w.writes → Sends P n w w'
Sends-none P n w w' e = record { sent = []; writes = e; each = tt; count = omega arith }

-- One write `e`, and after it a run of at most `n` more.
pub Sends-cons :
    (P : Write → Type 0) (n : ℕ) (e : Write) (w w₁ w₂ : World)
    → w₁.writes ≡ e ∷ w.writes
    → P e
    → Sends P n w₁ w₂
    → Sends P (suc n) w w₂
Sends-cons P n e w w₁ w₂ h p s = record {
  sent = s.sent ++ e ∷ [];
  writes = s.writes ∙ (rw h (rw append_assoc));
  each = All-append P s.sent (e ∷ []) s.each (p, tt);
  count = omega (arith, length-append s.sent (e ∷ []), s.count);
}

pub Sends-wait :
    (P : Write → Type 0) (n : ℕ) (w w' : World) → Sends P n (wait w) w' → Sends P n w w'
unfolding wait
Sends-wait P n w w' s = record { sent = s.sent; writes = s.writes; each = s.each; count = s.count }

-- A run of at most `n` writes, and after it one of at most `m`.
pub Sends-append :
    (P : Write → Type 0) (n m : ℕ) (w w₁ w₂ : World)
    → Sends P n w w₁
    → Sends P m w₁ w₂
    → Sends P (n + m) w w₂
Sends-append P n m w w₁ w₂ s t = record {
  sent = t.sent ++ s.sent;
  writes = t.writes ∙ ap (λ ws. t.sent ++ ws) s.writes ∙ rw append_assoc;
  each = All-append P t.sent s.sent t.each s.each;
  count = omega (arith, length-append t.sent s.sent, s.count, t.count);
}
