-- ===== src/Hashing/Tests.antt =====
-- domain/hashing.py at concrete values.
use mathlib.Core.List.{Permᴰ}
use google_workspace_gmail_a.Common.{String, false, List, Distinct, map, true, [], ◌∷◌, ◌≡◌, refl}
use google_workspace_gmail_a.Hashing.Unordered.{
  sort_text, Reordered, items, in_item, in_field, then, canonical_hash-perm,
}
use google_workspace_gmail_a.Hashing.{
  items_of, fields_of, canonical_hash, Json, null, boolean, number, text, sequence, mapping,
  no_items, item, no_fields, field, dumps, canonicalize, canonical_json,
}

abbrev same : String → String
same s = s

-- A sequence is sorted by the text of its items, but for the one under "actions"; keys are sorted.
sorts :
    canonical_json same (
      mapping (
        field "rules"
          (sequence (item (text "b") (item (text "a") no_items)))
          (field "actions" (sequence (item (number 120) (item (number 7) no_items))) no_fields)))
    ≡ "{\"actions\":[120,7],\"rules\":[\"a\",\"b\"]}"
unfolding canonical_json canonicalize dumps
sorts = refl

escapes :
    canonical_json same (sequence (item (text "q\"\n") (item null (item (boolean true) no_items))))
    ≡ "[\"q\\\"\\n\",null,true]"
unfolding canonical_json canonicalize dumps
escapes = refl

-- A change set whose state before lists two address lists, one with two entries.
abbrev entry : String → Json
entry id = mapping (field "normalized_value" (text id) no_fields)

abbrev list_of : String → List Json → Json
list_of name entries =
    mapping
      (fields_of (("display_name", text name) ∷ ("entries", sequence (items_of entries)) ∷ []))

abbrev change_set : List Json → Json
change_set lists = mapping (
    field "before_state" (mapping (field "address_lists" (sequence (items_of lists)) no_fields))
      no_fields)

abbrev lists_read : List Json
lists_read = list_of "one" (entry "b" ∷ entry "a" ∷ []) ∷ list_of "two" [] ∷ []

abbrev lists_again : List Json
lists_again = list_of "two" [] ∷ list_of "one" (entry "a" ∷ entry "b" ∷ []) ∷ []

distinct_entries : Distinct (map (sort_text same) (entry "b" ∷ entry "a" ∷ []))
unfolding canonicalize dumps
distinct_entries = (refl, (refl, tt))

abbrev swapped : List Json
swapped = list_of "two" [] ∷ list_of "one" (entry "b" ∷ entry "a" ∷ []) ∷ []

distinct_lists : Distinct (map (sort_text same) lists_read)
unfolding canonicalize dumps
distinct_lists = (refl, (refl, tt))

-- The lists are swapped, and then the entries of one of them.
abbrev lists_reordered :
    Reordered same false (sequence (items_of lists_read)) (sequence (items_of lists_again))
lists_reordered =
    then (sequence (items_of lists_read)) (sequence (items_of swapped))
      (sequence (items_of lists_again))
      (items lists_read swapped (Permᴰ.swap refl refl) distinct_lists)
      (in_item (list_of "two" [] ∷ []) [] (list_of "one" (entry "b" ∷ entry "a" ∷ []))
        (list_of "one" (entry "a" ∷ entry "b" ∷ []))
        (in_field (("display_name", text "one") ∷ []) [] "entries"
          (sequence (items_of (entry "b" ∷ entry "a" ∷ [])))
          (sequence (items_of (entry "a" ∷ entry "b" ∷ [])))
          (items (entry "b" ∷ entry "a" ∷ []) (entry "a" ∷ entry "b" ∷ []) (Permᴰ.swap refl refl)
            distinct_entries)))

abbrev reordered : Reordered same false (change_set lists_read) (change_set lists_again)
reordered = in_field [] [] "before_state" _ _ (
    in_field [] [] "address_lists" (sequence (items_of lists_read))
      (sequence (items_of lists_again)) lists_reordered)

canonical_hash-perm_example :
    canonical_hash same same (change_set lists_read)
    ≡ canonical_hash same same (change_set lists_again)
canonical_hash-perm_example =
    canonical_hash-perm same same (change_set lists_read) (change_set lists_again) reordered

-- The order of the actions of a plan is part of its hash.
keeps_actions :
    canonical_json same
      (mapping (field "actions" (sequence (items_of (text "b" ∷ text "a" ∷ []))) no_fields))
    ≡ "{\"actions\":[\"b\",\"a\"]}"
unfolding canonical_json canonicalize dumps
keeps_actions = refl
