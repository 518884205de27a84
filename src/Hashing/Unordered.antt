-- ===== src/Hashing/Unordered.antt =====
-- domain/hashing.py: the order in which a state lists its resources.
use mathlib.Core.List.{Permᴰ}
use google_workspace_gmail_a.Common.{
  String, Bool, false, if◌then◌else◌, List, [], ◌∷◌, ◌++◌, map, ◌≡◌, refl, sym, ap, ◌∙◌, subst,
  ◌=s=◌, Distinct, sort_by, sort_by-perm_eq,
}
use google_workspace_gmail_a.Hashing.{
  Json, sequence, mapping, items_of, fields_of, item_text, item_leb, key_leb, canonicalize,
  canonical_items, canonical_fields, canonical_json, canonical_hash, dumps,
}

map-Permᴰ : {A B : Type 0} (f : A → B) {xs ys : List A} → Permᴰ xs ys → Permᴰ (map f xs) (map f ys)
map-Permᴰ f Permᴰ.nil = Permᴰ.nil
map-Permᴰ f (Permᴰ.cons e p) = Permᴰ.cons (ap f e) (map-Permᴰ f p)
map-Permᴰ f (Permᴰ.swap e g) = Permᴰ.swap (ap f e) (ap f g)
map-Permᴰ f (Permᴰ.trans p q) = Permᴰ.trans (map-Permᴰ f p) (map-Permᴰ f q)

module _ (nfc : String → String) where
  -- the text by which an item of an unordered sequence is sorted
  abbrev pub sort_text : Json → String
  sort_text v = item_text (canonicalize nfc false v)

  canonical_items-map :
      (vs : List Json) → canonical_items nfc (items_of vs) ≡ map (canonicalize nfc false) vs
  unfolding canonicalize
  canonical_items-map [] = refl
  canonical_items-map (v ∷ vs) =
      ap (λ rest. canonicalize nfc false v ∷ rest) (canonical_items-map vs)

  texts-map : (vs : List Json) → map item_text (map (canonicalize nfc false) vs) ≡ map sort_text vs
  texts-map [] = refl
  texts-map (v ∷ vs) = ap (λ rest. sort_text v ∷ rest) (texts-map vs)

  sequence-perm :
      (xs ys : List Json)
      → Permᴰ xs ys
      → Distinct (map sort_text xs)
      → canonicalize nfc false (sequence (items_of xs))
        ≡ canonicalize nfc false (sequence (items_of ys))
  unfolding canonicalize
  sequence-perm xs ys p distinct =
      ap (λ vs. sequence (items_of vs))
        (ap (sort_by item_leb) (canonical_items-map xs)
          ∙ sort_by-perm_eq item_text (map-Permᴰ (canonicalize nfc false) p)
              (subst Distinct (sym (texts-map xs)) distinct)
          ∙ ap (sort_by item_leb) (sym (canonical_items-map ys)))

  canonical_fields-at :
      (before after : List (String × Json)) (key : String) (v w : Json)
      → canonicalize nfc (key =s= "actions") v ≡ canonicalize nfc (key =s= "actions") w
      → canonical_fields nfc (fields_of (before ++ (key, v) ∷ after))
        ≡ canonical_fields nfc (fields_of (before ++ (key, w) ∷ after))
  unfolding canonicalize
  canonical_fields-at [] after key v w same =
      ap (λ x. (key, x) ∷ canonical_fields nfc (fields_of after)) same
  canonical_fields-at ((k, u) ∷ before) after key v w same =
      ap (λ rest. (k, canonicalize nfc (k =s= "actions") u) ∷ rest)
        (canonical_fields-at before after key v w same)

  canonical_items-at :
      (before after : List Json) (v w : Json)
      → canonicalize nfc false v ≡ canonicalize nfc false w
      → canonical_items nfc (items_of (before ++ v ∷ after))
        ≡ canonical_items nfc (items_of (before ++ w ∷ after))
  unfolding canonicalize
  canonical_items-at [] after v w same = ap (λ x. x ∷ canonical_items nfc (items_of after)) same
  canonical_items-at (u ∷ before) after v w same =
      ap (λ rest. canonicalize nfc false u ∷ rest) (canonical_items-at before after v w same)

  -- Two values that differ in the order of sequences within them, at any depth: each sequence is
  -- one whose order is not kept, and its items are sorted by different texts. The Boolean tells
  -- whether the order of the value itself is kept, as it is for the actions of a plan.
  pub data Reordered : Bool → Json → Json → Type 0 where
    items :
        (xs ys : List Json)
        → Permᴰ xs ys
        → Distinct (map sort_text xs)
        → Reordered false (sequence (items_of xs)) (sequence (items_of ys))
    in_item :
        {preserve : Bool} (before after : List Json) (v w : Json)
        → Reordered false v w
        → Reordered preserve
            (sequence (items_of (before ++ v ∷ after)))
            (sequence (items_of (before ++ w ∷ after)))
    in_field :
        {preserve : Bool} (before after : List (String × Json)) (key : String) (v w : Json)
        → Reordered (key =s= "actions") v w
        → Reordered preserve
            (mapping (fields_of (before ++ (key, v) ∷ after)))
            (mapping (fields_of (before ++ (key, w) ∷ after)))
    then :
        {preserve : Bool} (u v w : Json)
        → Reordered preserve u v
        → Reordered preserve v w
        → Reordered preserve u w

  canonicalize-Reordered :
      (preserve : Bool) (v w : Json)
      → Reordered preserve v w
      → canonicalize nfc preserve v ≡ canonicalize nfc preserve w
  unfolding canonicalize
  canonicalize-Reordered preserve v w (Reordered.items xs ys p distinct) =
      sequence-perm xs ys p distinct
  canonicalize-Reordered preserve v w (Reordered.in_item before after x y r) =
      ap (λ vs. sequence (items_of (if preserve then vs else sort_by item_leb vs)))
        (canonical_items-at before after x y (canonicalize-Reordered false x y r))
  canonicalize-Reordered preserve v w (Reordered.in_field before after key x y r) =
      ap (λ fields. mapping (fields_of (sort_by key_leb fields)))
        (canonical_fields-at before after key x y
          (canonicalize-Reordered (key =s= "actions") x y r))
  canonicalize-Reordered preserve v w (Reordered.then u x y r q) =
      canonicalize-Reordered preserve u x r ∙ canonicalize-Reordered preserve x y q

  -- Two dumped models that differ in the order of their collections, at any depth, but not in the
  -- order of the actions of a plan, have the same canonical hash, where the items of each collection
  -- that is reordered are sorted by different texts.
  pub canonical_hash-perm :
      (sha256 : String → String) (v w : Json)
      → Reordered false v w
      → canonical_hash nfc sha256 v ≡ canonical_hash nfc sha256 w
  unfolding canonical_hash canonical_json
  canonical_hash-perm sha256 v w r =
      ap (λ c. sha256 (dumps "," ":" c)) (canonicalize-Reordered false v w r)
