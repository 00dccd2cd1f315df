-- ===== src/Modbus/Attempts.antt =====
-- The attempts of `write_register` in src/bms_2030_5_client/modbus/modbus_client.py.
use ieee2030_5_cold_client.Prelude.{
  ℕ, zero, suc, ◌≡◌, refl, String, Bool, ◌∷◌, if_intro, ◌==◌, Outcome,
}
use ieee2030_5_cold_client.Stop.{is_stopped}
use ieee2030_5_cold_client.World.{
  World, Write, Reply, turn, wait, replied, error_response, modbus_exception, other_exception,
}
use ieee2030_5_cold_client.World.Sends.{Sends, Sends-none, Sends-cons, Sends-wait}
use ieee2030_5_cold_client.Modbus.{
  ModbusBmsClient, after_reply, put_register, write_attempts, write_register,
}

pub after_reply_intro {ℓ κ} :
    {A : Type 0} {R : Type ℓ} (P : R → Type κ) (o : Reply A) {done : A → R} {retry : R}
    {other : String → R}
    → ((a : A) → P (done a))
    → P retry
    → ((e : String) → P (other e))
    → P (after_reply o done retry other)
after_reply_intro P (replied a) d r o = d a
after_reply_intro P error_response d r o = r
after_reply_intro P modbus_exception d r o = r
after_reply_intro P (other_exception e) d r o = o e

-- A write of `value` to `address`, asked for at a moment when the stop was as `asked` says.
abbrev pub IsAsked : ℕ → ℕ → Bool → Write → Type 0
IsAsked address value asked e =
    (e.address ≡ address) × (e.value ≡ value) × (e.asked_while_stopped ≡ asked)

module _ (address value : ℕ) (asked : Bool) where
  abbrev pub put : World → World
  put w = put_register address value asked w

  abbrev pub sent : World → Write
  sent w = record {
    address = address;
    value = value;
    asked_while_stopped = asked;
    while_stopped = is_stopped w.stop;
  }

  pub writes-put_register : (w : World) → (put w).writes ≡ sent w ∷ w.writes
  unfolding put_register wait
  writes-put_register w = refl

  -- What follows the first of `suc n` attempts.
  pub rest-Sends :
      (n : ℕ) (w : World)
      → Sends
          (IsAsked address value asked)
          n
          (wait (put w))
          (write_attempts address value asked n (wait (put w))).1
      → Sends
          (IsAsked address value asked)
          n
          (put w)
          (write_attempts address value asked (suc n) w).1
  unfolding write_attempts
  rest-Sends n w h =
      let P = IsAsked address value asked in
      let rest = write_attempts address value asked n (wait (put w)) in
      let S = λ (r : Outcome Bool × World). Sends P n (put w) r.1 in
      let none_more = Sends-none P n (put w) (put w) refl in
      after_reply_intro S (turn w).wrote (λ u. none_more)
        (if_intro S (n == 0) none_more (Sends-wait P n (put w) rest.1 h)) (λ e. none_more)

  pub write_attempts-Sends :
      (n : ℕ) (w : World)
      → Sends (IsAsked address value asked) n w (write_attempts address value asked n w).1
  unfolding write_attempts
  write_attempts-Sends zero w = Sends-none _ zero w w refl
  write_attempts-Sends (suc n) w =
      Sends-cons (IsAsked address value asked) n (sent w) w (put w) _ (writes-put_register w)
        (refl, refl, refl) (rest-Sends n w (write_attempts-Sends n (wait (put w))))

pub write_register-Sends :
    (c : ModbusBmsClient) (address value : ℕ) (w : World)
    → Sends
        (IsAsked address value (is_stopped w.stop))
        c.read_max_retries
        w
        (write_register c address value w).1
unfolding write_register
write_register-Sends c address value w =
    let P = IsAsked address value (is_stopped w.stop) in
    let S = λ (r : Outcome Bool × World). Sends P c.read_max_retries w r.1 in
    if_intro S (turn w).connected
      (if_intro S (turn (wait w)).connected
        (Sends-wait P c.read_max_retries w _
          (write_attempts-Sends address value (is_stopped w.stop) c.read_max_retries (wait w)))
        (Sends-wait P c.read_max_retries w _ (Sends-none P _ (wait w) (wait w) refl)))
      (Sends-none P c.read_max_retries w w refl)
