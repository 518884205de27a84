-- ===== src/Schemas/Resources.antt =====
-- schemas/resources.py: address entries, managed address lists, managed blocked-sender rules.
-- UUIDs are 128-bit numbers; the source orders them by their hexadecimal text, which has a fixed
-- width, and that is the order of the numbers.
pub mod Validated
use Prim.Native.String
use text.Mathlib.Text.{find?, starts_with}
use google_workspace_gmail_a.Common.{
  ℕ, String, Bool, true, false, not, ◌&&◌, ◌||◌, Option, none, some, List, map, leb, if◌then◌else◌,
  Result, ok, err, value_error, raise_if, ◌>>=◌, ◌>>◌, has_duplicates, is_empty, strip, is_blank,
}

pub data AddressKind : Type 0 where
  email domain : AddressKind

pub record AddressEntry : Type 0 where
  pub kind : AddressKind
  pub value : String
  pub normalized_value : String

pub record ManagedAddressList : Type 0 where
  pub ownership_id : ℕ
  pub display_name : String
  pub entries : List AddressEntry

pub record ManagedBlockedSenderRule : Type 0 where
  pub ownership_id : ℕ
  pub display_name : String
  pub target_ou : String
  pub address_list_names : List String
  pub bypass_address_list_names : List String
  pub rejection_notice : Option String
  pub enabled : Bool
  pub inherited : Bool

-- `Field(min_length=lo, max_length=hi)`
abbrev pub is_within : ℕ → ℕ → String → Bool
is_within lo hi s = leb lo (String.count s) && leb (String.count s) hi

-- `t in s`
abbrev pub has_text : String → String → Bool
has_text t s = elim (find? s t) [ none ↦ false | some _ ↦ true ]

-- `reject_duplicate_entries`, after the bounds on the name
unfoldable pub validate_address_list : ManagedAddressList → Result ManagedAddressList
validate_address_list l = do
  raise_if (not (is_within 1 200 l.display_name)) value_error
  raise_if (has_duplicates (map (λ e. e.normalized_value) l.entries)) value_error
  ok l

-- A notice is stripped, and a blank one is refused.
unfoldable pub validate_notice : Option String → Result (Option String)
validate_notice none = ok none
validate_notice (some text) =
    let notice = strip text in if is_blank notice then err value_error else ok (some notice)

abbrev is_notice_short : Option String → Bool
is_notice_short none = true
is_notice_short (some text) = leb (String.count text) 1000

-- `validate_notice_and_lists`, after the bounds on the fields
unfoldable pub validate_rule : ManagedBlockedSenderRule → Result ManagedBlockedSenderRule
unfolding validate_notice
validate_rule r = do
  raise_if (not (is_within 1 200 r.display_name)) value_error
  raise_if (not (is_within 1 1000 r.target_ou)) value_error
  raise_if (not (is_notice_short r.rejection_notice)) value_error
  raise_if (is_empty r.address_list_names) value_error
  raise_if (has_duplicates r.address_list_names) value_error
  raise_if (has_duplicates r.bypass_address_list_names) value_error
  let target_ou = strip r.target_ou
  raise_if (not (starts_with target_ou "/") || has_text "//" target_ou) value_error
  notice ← validate_notice r.rejection_notice
  ok (record r { target_ou = target_ou; rejection_notice = notice })
