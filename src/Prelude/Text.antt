-- ===== src/Prelude/Text.antt =====
-- The methods of Python's `str` that the code calls, on texts by their characters.
use Prim.Native.Char.{code}
use Prim.Native.String.{String, [], ◌∷◌, ◌++◌ as append}
use text.Mathlib.Text.{starts_with}
use mathlib.Core.Option.{Option, none, some}
use mathlib.Core.Bool.{Bool, true, false, ◌&&◌, ◌||◌}
use ieee2030_5_cold_client.Prelude.Tests.{◌==◌, if◌then◌else◌}

abbrev is_empty : String → Bool
is_empty [] = true
is_empty (c ∷ s) = false

-- `s.rstrip('/')`
unfoldable pub rstrip_slash : String → String
rstrip_slash [] = []
rstrip_slash (c ∷ s) =
    let rest = rstrip_slash s in if code c == 47 && is_empty rest then [] else c ∷ rest

-- What stands before the last '/' of `s`, where there is one: `s.rsplit('/', 1)[0]`.
unfoldable pub before_slash : String → Option String
before_slash [] = none
before_slash (c ∷ s) = elim (before_slash s) [
  | some p ↦ some (c ∷ p)
  | none ↦ if code c == 47 then some [] else none
]

-- `"/".join(s.split("."))`
unfoldable pub dots_to_slashes : String → String
dots_to_slashes [] = []
dots_to_slashes (c ∷ s) =
    let rest = dots_to_slashes s in if code c == 46 then append "/" rest else c ∷ rest

-- `s.lstrip('/')`
unfoldable pub lstrip_slash : String → String
lstrip_slash [] = []
lstrip_slash (c ∷ s) = let rest = lstrip_slash s in if code c == 47 then rest else c ∷ s

-- `s[1:]`
abbrev pub tail : String → String
tail [] = []
tail (c ∷ s) = s

-- `part in s`
unfoldable pub is_in : String → String → Bool
is_in part [] = starts_with [] part
is_in part (c ∷ s) = let rest = is_in part s in starts_with (c ∷ s) part || rest

-- What stands before the first '}', and what stands after it.
unfoldable before_brace : String → String
before_brace [] = []
before_brace (c ∷ s) = let rest = before_brace s in if code c == 125 then [] else c ∷ rest

unfoldable after_brace : String → Option String
after_brace [] = none
after_brace (c ∷ s) = let rest = after_brace s in if code c == 125 then some s else rest

-- `_strip_ns`.
unfoldable pub strip_ns : String → String
unfolding after_brace before_brace
strip_ns tag = elim (after_brace tag) [ none ↦ tag | some s ↦ before_brace s ]
