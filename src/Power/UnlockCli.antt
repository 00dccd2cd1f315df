-- ===== src/Power/UnlockCli.antt =====
-- `main` of src/bms_2030_5_client/cli/unlock_production.py: the command that writes, revokes or shows the
-- lockfile. What it prints is left out. The configuration is the value that YAML gives, or none
-- where it cannot be read; the answer to the prompt is given stripped.
use ieee2030_5_cold_client.Prelude.{
  ℕ, ◌≡◌, ◌⊎◌, inl, inr, refl, String, Bool, true, false, Option, none, some, if◌then◌else◌, str_eq,
  eq_iff, if_intro_eq, if_intro, ◌&&◌, not,
}
use ieee2030_5_cold_client.Config.Values.{
  Value, null, bool, int, float, text, list, dict, no_fields, Loaded, loaded, crashed, ◌>>=◌, get,
  fields_of, truthy,
}
use ieee2030_5_cold_client.Config.Checked.{
  Yields, loaded-Yields, crashed-Yields, any-Yields, bind-Yields,
}
use ieee2030_5_cold_client.Power.Unlock.{
  is_truthy, equals, is_string, LockFile, absent, undecodable, no_object, signed, create_lockfile,
  revoke_lockfile,
}

-- `_load_safety_token`: null where there is none.
unfoldable pub load_safety_token : Option Value → Loaded Value
load_safety_token none = loaded null
load_safety_token (some v) = do
  d ← fields_of v
  p ← fields_of (get "power_control" (dict no_fields) d)
  a ← fields_of (get "production_auth" (dict no_fields) p)
  loaded (if truthy (get "safety_token" (text "") a) then get "safety_token" (text "") a else null)

pub record Arguments : Type 0 where
  pub status : Bool
  pub revoke : Bool

-- A text, or None; anything else has no `encode`.
abbrev pub is_text : Value → Bool
is_text (text s) = true
is_text null = true
is_text (bool b) = false
is_text (int z) = false
is_text (float x) = false
is_text (list vs) = false
is_text (dict d) = false

-- `--status`, which changes nothing: `verify_lockfile` comes to the signature where the fields are
-- there and the machine is the same, and raises where the token or the signature is no text.
abbrev pub show_status : (node : String) → Option Value → LockFile → Loaded (ℕ × LockFile)
show_status node c absent = loaded (0, absent)
show_status node c undecodable = loaded (0, undecodable)
show_status node c no_object = crashed
show_status node c (signed h t s) = load_safety_token c >>= λ token.
    let reached = is_truthy h && is_truthy t && is_truthy s && equals node h in
    if reached && not (is_text token && is_string s) then crashed else loaded (0, signed h t s)

module _ (compute_signature : (token hostname timestamp : String) → String)
    (compare_digest : String → String → Bool) where
  -- The answer to the prompt and what follows it; without a token there is no prompt.
  abbrev pub confirmed : (node now answer : String) → Value → LockFile → Loaded (ℕ × LockFile)
  confirmed node now answer (text token) f =
      if str_eq answer "YES"
      then loaded (0, create_lockfile compute_signature compare_digest node token now)
      else loaded (1, f)
  confirmed node now answer null f = loaded (1, f)
  confirmed node now answer (bool b) f = if str_eq answer "YES" then crashed else loaded (1, f)
  confirmed node now answer (int z) f = if str_eq answer "YES" then crashed else loaded (1, f)
  confirmed node now answer (float x) f = if str_eq answer "YES" then crashed else loaded (1, f)
  confirmed node now answer (list vs) f = if str_eq answer "YES" then crashed else loaded (1, f)
  confirmed node now answer (dict d) f = if str_eq answer "YES" then crashed else loaded (1, f)

  -- The exit code, and the lockfile afterwards.
  unfoldable pub main :
      Arguments → Option Value → (node now answer : String) → LockFile → Loaded (ℕ × LockFile)
  main args c node now answer f =
      if args.status
      then show_status node c f
      else if args.revoke
      then loaded (0, (revoke_lockfile compute_signature compare_digest f).1)
      else load_safety_token c >>= λ token. confirmed node now answer token f

  -- What is left: the file as it was, none, or a new one for a confirmed token.
  abbrev pub Left : (node now answer : String) → LockFile → ℕ × LockFile → Type 0
  Left node now answer f r =
      (r.1 ≡ f)
      ⊎ ((r.1 ≡ absent)
          ⊎ ((answer ≡ "YES")
              × (token : String) × (r.1
                  ≡ create_lockfile compute_signature compare_digest node token now)))

  unless_confirmed :
      (node now answer : String) (f : LockFile)
      → Yields (Left node now answer f) (if str_eq answer "YES" then crashed else loaded (1, f))
  unless_confirmed node now answer f =
      if_intro (Yields (Left node now answer f)) (str_eq answer "YES") crashed-Yields
        (loaded-Yields (inl refl))

  confirmed-Left :
      (node now answer : String) (v : Value) (f : LockFile)
      → Yields (Left node now answer f) (confirmed node now answer v f)
  confirmed-Left node now answer (text token) f =
      if_intro_eq (Yields (Left node now answer f)) (str_eq answer "YES")
        (λ e. loaded-Yields (inr (inr ((eq_iff answer "YES").0 e, token, refl))))
        (λ e. loaded-Yields (inl refl))
  confirmed-Left node now answer null f = loaded-Yields (inl refl)
  confirmed-Left node now answer (bool b) f = unless_confirmed node now answer f
  confirmed-Left node now answer (int z) f = unless_confirmed node now answer f
  confirmed-Left node now answer (float x) f = unless_confirmed node now answer f
  confirmed-Left node now answer (list vs) f = unless_confirmed node now answer f
  confirmed-Left node now answer (dict d) f = unless_confirmed node now answer f

  show_status-Left :
      (node now answer : String) (c : Option Value) (f : LockFile)
      → Yields (Left node now answer f) (show_status node c f)
  show_status-Left node now answer c absent = loaded-Yields (inl refl)
  show_status-Left node now answer c undecodable = loaded-Yields (inl refl)
  show_status-Left node now answer c no_object = crashed-Yields
  show_status-Left node now answer c (signed h t s) =
      let L = Yields (Left node now answer (signed h t s)) in
      bind-Yields (load_safety_token c) (any-Yields (load_safety_token c))
        (λ token x. if_intro L _ crashed-Yields (loaded-Yields (inl refl)))

  revoke_absent : (f : LockFile) → (revoke_lockfile compute_signature compare_digest f).1 ≡ absent
  unfolding revoke_lockfile
  revoke_absent absent = refl
  revoke_absent undecodable = refl
  revoke_absent no_object = refl
  revoke_absent (signed h t s) = refl

  -- A run of the command that ends without an exception leaves the lockfile as it was, or none, or,
  -- where the answer was YES, one that is signed with some token for this machine and time.
  pub main-Left :
      (args : Arguments) (c : Option Value) (node now answer : String) (f : LockFile)
      (r : ℕ × LockFile)
      → main args c node now answer f ≡ loaded r
      → Left node now answer f r
  unfolding main
  main-Left args c node now answer f =
      let L = Yields (Left node now answer f) in
      (if_intro L args.status (show_status-Left node now answer c f) (
        if_intro L args.revoke (loaded-Yields (inr (inl (revoke_absent f)))) (
          bind-Yields (load_safety_token c) (any-Yields (load_safety_token c))
            (λ token x. confirmed-Left node now answer token f)))).apply
