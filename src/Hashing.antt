-- ===== src/Hashing.antt =====
-- domain/hashing.py: canonical JSON of a dumped model, and its digest. What pydantic dumps is a
-- value of `Json`, so the closing `TypeError` cannot arise; a number is a natural number. The
-- Unicode normal form NFC and SHA-256 are arguments: they are tables and bit arithmetic of the
-- standard library. The keys of a mapping are its own, so sorting its items sorts them by key, and
-- the canonical form of an item does not change its key.
mod Decimal
pub mod Unordered
pub mod Tests
use Prim.Native.String
use Prim.Native.String.{◌++◌ as concat}
use Prim.Native.Char.{code}
use google_workspace_gmail_a.Common.{
  ℕ, zero, suc, ◌/◌, ◌%◌, String, Bool, true, false, List, [], ◌∷◌, map, ltb, ◌==◌, leb_text, ◌=s=◌,
  sort_by, if◌then◌else◌,
}

mutual
  pub data Json : Type 0 where
    null : Json
    boolean : Bool → Json
    number : ℕ → Json
    text : String → Json
    sequence : Items → Json
    mapping : Fields → Json

  pub data Items : Type 0 where
    no_items : Items
    item : Json → Items → Items

  pub data Fields : Type 0 where
    no_fields : Fields
    field : String → Json → Fields → Fields

abbrev pub items_of : List Json → Items
items_of [] = no_items
items_of (v ∷ vs) = item v (items_of vs)

abbrev pub fields_of : List (String × Json) → Fields
fields_of [] = no_fields
fields_of ((k, v) ∷ fields) = field k v (fields_of fields)

-- `sorted(value.items())`, of keys that occur once
abbrev pub key_leb {ℓ} : {A : Type ℓ} → String × A → String × A → Bool
key_leb (j, v) (k, w) = leb_text j k

abbrev nth : ℕ → List String → String
nth n [] = ""
nth zero (t ∷ ts) = t
nth (suc n) (t ∷ ts) = nth n ts

-- a decimal digit, or a hexadecimal one
abbrev digit : ℕ → String
digit n = nth n (
    "0" ∷ "1" ∷ "2" ∷ "3" ∷ "4" ∷ "5" ∷ "6" ∷ "7" ∷ "8" ∷ "9" ∷ "a" ∷ "b" ∷ "c" ∷ "d" ∷ "e" ∷ "f"
    ∷ [])

-- the decimal digits of a number, before those that are there; `n` steps are enough for `n`
abbrev decimal_onto : ℕ → ℕ → String → String
decimal_onto zero n tail = tail
decimal_onto (suc steps) n tail =
    let shown = concat (digit (n % 10)) tail in
    let rest = decimal_onto steps (n / 10) shown in if ltb n 10 then shown else rest

abbrev pub decimal : ℕ → String
decimal n = decimal_onto (suc n) n ""

-- one character of a JSON text, with `ensure_ascii=False`
abbrev escape : ℕ → String → String
escape n c =
    if n == 34
    then "\\\""
    else if n == 92
    then "\\\\"
    else if n == 8
    then "\\b"
    else if n == 9
    then "\\t"
    else if n == 10
    then "\\n"
    else if n == 12
    then "\\f"
    else if n == 13
    then "\\r"
    else if ltb n 32
    then concat "\\u00" (concat (digit (n / 16)) (digit (n % 16)))
    else c

abbrev escaped : String → String
escaped String.[] = String.[]
escaped (String.◌∷◌ c s) = concat (escape (code c) (String.◌∷◌ c String.[])) (escaped s)

abbrev quote : String → String
quote s = concat "\"" (concat (escaped s) "\"")

-- `separator.join(texts)`
abbrev join : String → List String → String
join separator [] = ""
join separator (t ∷ []) = t
join separator (t ∷ ts) = concat t (concat separator (join separator ts))

abbrev truth : Bool → String
truth true = "true"
truth false = "false"

-- `json.dumps(value, ensure_ascii=False, sort_keys=True, separators=(comma, colon))`
unfoldable mutual
  pub dumps : String → String → Json → String
  dumps comma colon null = "null"
  dumps comma colon (boolean b) = truth b
  dumps comma colon (number n) = decimal n
  dumps comma colon (text s) = quote s
  dumps comma colon (sequence items) =
      concat "[" (concat (join comma (dump_items comma colon items)) "]")
  dumps comma colon (mapping fields) = concat "{" (
      concat
        (join comma (
          map (λ e. concat (quote e.0) (concat colon e.1))
            (sort_by key_leb (dump_fields comma colon fields))))
        "}")

  pub dump_items : String → String → Items → List String
  dump_items comma colon no_items = []
  dump_items comma colon (item v items) = dumps comma colon v ∷ dump_items comma colon items

  pub dump_fields : String → String → Fields → List (String × String)
  dump_fields comma colon no_fields = []
  dump_fields comma colon (field k v fields) =
      (k, dumps comma colon v) ∷ dump_fields comma colon fields

-- the key by which unordered items are sorted, with the default separators
abbrev pub item_text : Json → String
item_text v = dumps ", " ": " v

-- the order of the canonical items
abbrev pub item_leb : Json → Json → Bool
item_leb v w = leb_text (item_text v) (item_text w)

module _ (nfc : String → String) where
  -- `_canonicalize`; the Boolean is `preserve_sequence_order`
  unfoldable mutual
    pub canonicalize : Bool → Json → Json
    canonicalize preserve null = null
    canonicalize preserve (boolean b) = boolean b
    canonicalize preserve (number n) = number n
    canonicalize preserve (text s) = text (nfc s)
    canonicalize preserve (sequence items) =
        let canonical = canonical_items items in
        sequence (items_of (if preserve then canonical else sort_by item_leb canonical))
    canonicalize preserve (mapping fields) =
        mapping (fields_of (sort_by key_leb (canonical_fields fields)))

    pub canonical_items : Items → List Json
    canonical_items no_items = []
    canonical_items (item v items) = canonicalize false v ∷ canonical_items items

    pub canonical_fields : Fields → List (String × Json)
    canonical_fields no_fields = []
    canonical_fields (field k v fields) =
        (k, canonicalize (k =s= "actions") v) ∷ canonical_fields fields

  -- `canonical_json`, of a dumped model
  unfoldable pub canonical_json : Json → String
  canonical_json dumped = dumps "," ":" (canonicalize false dumped)

  -- `canonical_hash`
  unfoldable pub canonical_hash : (String → String) → Json → String
  canonical_hash sha256 dumped = sha256 (canonical_json dumped)
