-- ===== src/Power/Unlock.antt =====
-- src/bms_2030_5_client/cli/unlock_production.py: the signed lockfile without which the production mode does
-- not start. HMAC-SHA256 and `hmac.compare_digest` are Python's own, and parameters here. The
-- prompts of the command line are not modelled, nor texts that are not ASCII, for which
-- `compare_digest` raises.
use ieee2030_5_cold_client.Prelude.{
  String, ◌≡◌, ◌↔◌, Bool, true, false, ◌&&◌, not, if◌then◌else◌, Outcome, returned, raised,
  nonempty, str_eq, eq_iff, arith,
}

-- The value of a field of the object: a text, one that is falsy and no text, or another one with its
-- `str`. A field that the object lacks reads as the empty text.
pub data Field : Type 0 where
  text : String → Field
  falsy : Field
  other : String → Field

abbrev pub is_truthy : Field → Bool
is_truthy (text s) = nonempty s
is_truthy falsy = false
is_truthy (other s) = true

abbrev pub shown : Field → String
shown (text s) = s
shown falsy = ""
shown (other s) = s

abbrev pub equals : String → Field → Bool
equals s (text t) = str_eq t s
equals s falsy = false
equals s (other t) = false

abbrev pub is_string : Field → Bool
is_string (text s) = true
is_string falsy = false
is_string (other s) = false

-- What the path of the lockfile holds.
pub data LockFile : Type 0 where
  absent : LockFile
  undecodable : LockFile
  no_object : LockFile
  signed : (hostname timestamp signature : Field) → LockFile

module _ (compute_signature : (token hostname timestamp : String) → String)
    (compare_digest : String → String → Bool) where
  -- `hmac.compare_digest(signature, expected_sig)`, which raises where the signature is no text.
  abbrev pub compared : Field → String → Outcome Bool
  compared (text s) expected = returned (compare_digest s expected)
  compared falsy expected = raised "unsupported operand types"
  compared (other s) expected = raised "unsupported operand types"

  unfoldable pub verify_lockfile : (node token : String) → LockFile → Outcome Bool
  verify_lockfile node token absent = returned false
  verify_lockfile node token undecodable = returned false
  verify_lockfile node token no_object = raised "object has no attribute 'get'"
  verify_lockfile node token (signed hostname timestamp signature) =
      if not (is_truthy hostname && is_truthy timestamp && is_truthy signature)
      then returned false
      else if not (equals node hostname)
      then returned false
      else compared signature (compute_signature token (shown hostname) (shown timestamp))

  unfoldable pub create_lockfile : (node token now : String) → LockFile
  create_lockfile node token now =
      signed (text node) (text now) (text (compute_signature token node now))

  -- The file is gone; the result says whether there was one.
  unfoldable pub revoke_lockfile : LockFile → Bool × LockFile
  revoke_lockfile absent = (false, absent)
  revoke_lockfile _ = (true, absent)

  module _ (digest_iff : (a b : String) → (compare_digest a b ≡ true) ↔ (a ≡ b)) where
    -- The lockfile that `create_lockfile` writes for one machine and token is accepted, on a machine
    -- `node'` and for a token `token'`, exactly when the machine is the same and the token signs the
    -- same text alike, given that no field of the file is empty.
    pub verify_lockfile-create_lockfile_iff :
        (node token now node' token' : String)
        → nonempty node ≡ true
        → nonempty now ≡ true
        → nonempty (compute_signature token node now) ≡ true
        → (verify_lockfile node' token' (create_lockfile node token now) ≡ returned true) ↔ (
            (node ≡ node') × (compute_signature token node now ≡ compute_signature token' node now))
    unfolding verify_lockfile create_lockfile
    verify_lockfile-create_lockfile_iff node token now node' token' a b c = (
      λ h. ground (
        arith,
        eq_iff node node',
        digest_iff (compute_signature token node now) (compute_signature token' node now),
      ),
      λ h. ground (
        arith,
        eq_iff node node',
        digest_iff (compute_signature token node now) (compute_signature token' node now),
      ),
    )
