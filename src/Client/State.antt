-- ===== src/Client/State.antt =====
-- The state of `DERClient` in src/bms_2030_5_client/dera/der_client.py. Tracked controls are shared objects: the
-- dictionaries `_tracked_controls` and `_active_by_mode` hold references into `objects`. The client's
-- power controller is the one in its handler. The counters of `_stats` other than the two below, the
-- history for the web pages and the callback are not kept.
use ieee2030_5_cold_client.Prelude.{
  ℕ, ◌-◌, String, Bool, true, false, Option, none, some, List, [], ◌∷◌, ◌++◌, ◌||◌, if◌then◌else◌,
  ◌==◌, str_eq, eq_iff, ◌≡◌, ◌+◌, ◌<◌, ◌≤◌, arith, or_text, is_some,
}
use ieee2030_5_cold_client.Prelude.Int.{ℤ}
use ieee2030_5_cold_client.Prelude.Dict.{Dict}
use ieee2030_5_cold_client.Prelude.Lists.{length, drop, length-append, length-drop, drop-append}
use ieee2030_5_cold_client.Models.{DerControl, DerControlBase, DerProgram, DefaultDerControl}
use ieee2030_5_cold_client.Handler.{Status, Handler}

-- The members of `ResponseStatusType` that the client sends.
pub data ResponseStatus : Type 0 where
  event_received event_started event_completed event_superseded event_cancelled event_expired
        event_aborted_server :
      ResponseStatus

-- A POST of a `DERControlResponseFull`. The bitmap stands for its hexadecimal text.
pub record Response : Type 0 where
  pub reply_to : String
  pub end_device_lfdi : String
  pub status : ResponseStatus
  pub subject : String
  pub modes_responded : ℕ

pub record TrackedProgram : Type 0 where
  pub program : DerProgram
  pub primacy : ℤ
  pub last_poll_time : ℕ
  pub default_control : Option DefaultDerControl

pub record TrackedControl : Type 0 where
  pub control : DerControl
  pub program : DerProgram
  pub primacy : ℤ
  pub event : Option ℕ
  pub randomized_start : Option ℤ
  pub randomized_duration : Option ℤ
  pub response_sent : Bool
  pub status : Status
  pub pending_response : Option ResponseStatus
  pub response_retry_count : ℕ
  pub last_response_attempt : ℕ

pub record Client : Type 0 where
  pub handler : Handler
  pub lfdi : Option String
  pub enable_randomization : Bool
  pub processed_event_retention : ℕ
  pub response_max_retries : ℕ
  pub tracked_programs : Dict TrackedProgram
  pub objects : ℕ → TrackedControl
  pub allocated : ℕ
  pub tracked_controls : Dict ℕ
  pub active_by_mode : Dict ℕ
  pub processed : List String
  pub cancelled : List String
  pub active_default : Option DefaultDerControl
  pub active_default_program : Option DerProgram
  pub controls_executed : ℕ
  pub responses_sent : ℕ
  -- what was posted, the newest first
  pub posts : List Response

abbrev pub change : ℕ → (TrackedControl → TrackedControl) → Client → Client
change r f c = record c { objects = λ k. if k == r then f (c.objects k) else c.objects k }

abbrev pub set_status : Status → TrackedControl → TrackedControl
set_status s t = record t { status = s }

-- `control.mRID or str(id(control))`.
abbrev pub control_id : DerControl → String
control_id control = or_text control.m_rid control.object_id

-- `program.mRID or program.href or str(id(program))`.
abbrev pub program_id : DerProgram → String
program_id p = or_text p.m_rid (or_text p.href p.object_id)

abbrev pub mem : String → List String → Bool
mem s [] = false
mem s (x ∷ xs) = str_eq x s || mem s xs

-- `deque.append` with a maximal length: the oldest entries, at the front, go.
abbrev pub keep_last : ℕ → List String → List String
keep_last n xs = drop (length xs - n) xs

mem-append : (s : String) (xs : List String) → mem s (xs ++ s ∷ []) ≡ true
mem-append s [] = ground (arith, eq_iff s s)
mem-append s (x ∷ xs) = ground (arith, mem-append s xs)

pub mem-keep_last :
    (n : ℕ) (s : String) (xs : List String) → 0 < n → mem s (keep_last n (xs ++ s ∷ [])) ≡ true
mem-keep_last n s xs lt =
    rw (length-append xs (s ∷ []), drop-append (length xs + 1 - n) xs (s ∷ []) (omega (arith, lt)))
      (mem-append s (drop (length xs + 1 - n) xs))

pub length-keep_last : (n : ℕ) (xs : List String) → length (keep_last n xs) ≤ n
length-keep_last n xs = omega (arith, length-drop (length xs - n) xs)

-- The modes of a control, in the order of the code's tests.
abbrev mode_if : Bool → String → List String
mode_if true m = m ∷ []
mode_if false m = []

unfoldable pub base_modes : DerControlBase → List String
base_modes b =
    mode_if (is_some b.op_mod_fixed_w) "opModFixedW"
    ++ (mode_if (is_some b.op_mod_fixed_var) "opModFixedVar"
        ++ (mode_if (is_some b.op_mod_max_lim_w) "opModMaxLimW"
            ++ (mode_if (is_some b.op_mod_connect) "opModConnect"
                ++ mode_if (is_some b.op_mod_energize) "opModEnergize")))

unfoldable pub modes : DerControl → List String
unfolding base_modes
modes control = elim control.base [ none ↦ [] | some b ↦ base_modes b ]
