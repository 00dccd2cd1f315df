-- ===== src/Polling/Extract.antt =====
-- `XPathParser`, `FieldPathParser` and `_parse_response` of src/bms_2030_5_client/polling/worker.py.
use Prim.Native.String.{◌++◌ as append}
use text.Mathlib.Text.{starts_with}
use ieee2030_5_cold_client.Prelude.{
  ◌≡◌, refl, ap, ◌∙◌, if_intro_eq, Bool-cases, inl, inr, String, true, Option, none, some, List, [],
  ◌∷◌, if◌then◌else◌, str_eq, nonempty,
}
use ieee2030_5_cold_client.Prelude.Text.{dots_to_slashes, lstrip_slash, tail}
use ieee2030_5_cold_client.Polling.{Xml, ParseConfig}

-- `_normalize_xpath`.
unfoldable pub normalize_xpath : String → String
normalize_xpath xpath =
    if starts_with xpath "//" then append ".//" (tail (tail xpath)) else lstrip_slash xpath

-- `_convert_descendant_xpath`.
unfoldable pub convert_descendant_xpath : String → String
convert_descendant_xpath xpath =
    if starts_with xpath "//" then append ".//" (tail (tail xpath)) else xpath

-- The first text that is not empty, of the elements in order.
abbrev pub first_text : List (Option String) → Option String
first_text [] = none
first_text (none ∷ es) = first_text es
first_text (some t ∷ es) = let rest = first_text es in if nonempty t then some t else rest

-- `root.find(path)`, with its text where that is not empty.
abbrev pub found_text : List (Option String) → Option String
found_text [] = none
found_text (none ∷ es) = none
found_text (some t ∷ es) = if nonempty t then some t else none

abbrev pub stripped : Xml → Option String → Option String
stripped x none = none
stripped x (some t) = some (x.strip t)

abbrev pub or_next : Option String → Option String → Option String
or_next none o = o
or_next (some t) o = some t

-- `XPathParser.parse`: `find`, then `findall`, then `findall` with the other form of a path that
-- starts with two slashes. An exception of any of them gives None.
unfoldable pub parse_xpath : Xml → String → String → Option String
parse_xpath x body xpath = elim (x.findall body (normalize_xpath xpath)) [
  | none ↦ none
  | some es ↦
      let again : Option String = elim (x.findall body (convert_descendant_xpath xpath)) [
        | none ↦ none
        | some as_ ↦ first_text as_
      ] in
      let last : Option String = if starts_with xpath "//" then again else none in
      stripped x (or_next (found_text es) (or_next (first_text es) last))
]

-- `FieldPathParser.parse`.
unfoldable pub parse_field_path : Xml → String → String → Option String
unfolding parse_xpath
parse_field_path x body path = parse_xpath x body (append ".//" (dots_to_slashes path))

-- `_parse_response`.
unfoldable pub parse_response : Xml → String → ParseConfig → Option String
parse_response x body c =
    let by_field : Option String = elim c.field_path [
      | none ↦ none
      | some f ↦ if nonempty f then parse_field_path x body f else none
    ] in
    let by_path : Option String = elim c.xpath [
      | none ↦ by_field
      | some p ↦ if nonempty p then parse_xpath x body p else by_field
    ] in
    if str_eq c.format "sep_xml" then by_path else none

found_first :
    (es : List (Option String)) (o : Option String)
    → or_next (found_text es) (or_next (first_text es) o) ≡ or_next (first_text es) o
found_first [] o = refl
found_first (none ∷ es) o = refl
found_first (some t ∷ es) o = elim (Bool-cases (nonempty t)) [ inl e ↦ cc e | inr e ↦ cc e ]

itself : (o : Option String) → or_next o o ≡ o
itself none = refl
itself (some t) = refl

nothing_next : (o : Option String) → or_next o none ≡ o
nothing_next none = refl
nothing_next (some t) = refl

same_path :
    (xpath : String)
    → starts_with xpath "//" ≡ true
    → convert_descendant_xpath xpath ≡ normalize_xpath xpath
unfolding normalize_xpath convert_descendant_xpath
same_path xpath h = cc h

abbrev texts_at : Xml → String → String → Option String
texts_at x body path = elim (x.findall body path) [ none ↦ none | some es ↦ first_text es ]

by_document :
    (x : Xml) (last : Option String) (o : Option (List (Option String)))
    → ((es : List (Option String)) → o ≡ some es → or_next (first_text es) last ≡ first_text es)
    → (elim o [
      | none ↦ none
      | some es ↦ stripped x (or_next (found_text es) (or_next (first_text es) last))
    ])
      ≡ (elim o [ none ↦ none | some es ↦ stripped x (first_text es) ])
by_document x last none h = refl
by_document x last (some es) h = ap (stripped x) (found_first es last ∙ h es refl)

-- The value is the first text that is not empty, stripped, among all elements that the normalized
-- path finds; a document that does not parse has none.
pub parse_xpath-first_text :
    (x : Xml) (body xpath : String)
    → parse_xpath x body xpath ≡ (elim (x.findall body (normalize_xpath xpath)) [
      | none ↦ none
      | some es ↦ stripped x (first_text es)
    ])
unfolding parse_xpath
parse_xpath-first_text x body xpath =
    by_document x
      (if starts_with xpath "//" then texts_at x body (convert_descendant_xpath xpath) else none)
      (x.findall body (normalize_xpath xpath))
      (λ es e.
        if_intro_eq (λ (o : Option String). or_next (first_text es) o ≡ first_text es)
          (starts_with xpath "//")
          (λ b.
            ap (λ path. or_next (first_text es) (texts_at x body path)) (same_path xpath b)
            ∙ ap (λ o. or_next (first_text es) (elim o [ none ↦ none | some as_ ↦ first_text as_ ]))
                e
            ∙ itself (first_text es))
          (λ b. nothing_next (first_text es)))
