-- ===== src/Ownership/Names.antt =====
-- The visible names of managed resources, and the test for the managed prefix.
use Prim.Native.Char.{Char}
use Prim.Native.String.{char_at, [], ◌∷◌, ◌++◌}
use text.Mathlib.Text.{starts_with}
use google_workspace_gmail_a.Common.{ℕ, zero, suc, ◌/◌, ◌%◌, ◌^◌, String, Bool, ◌≡◌, refl}

hex_digit : ℕ → Char
hex_digit d = char_at "0123456789abcdef" d

hex_digits : ℕ → ℕ → String
hex_digits zero n = ""
hex_digits (suc width) n = hex_digits width (n / 16) ++ (hex_digit (n % 16) ∷ [])

-- `ownership_id.hex[:8]`, of a 128-bit number
pub short_id : ℕ → String
short_id id = hex_digits 8 (id / 2 ^ 96)

-- `managed_resource_names`
unfoldable pub managed_resource_names : String → ℕ → String × String
unfolding short_id hex_digits hex_digit
managed_resource_names prefix id =
    (prefix ++ " Block rule " ++ short_id id, prefix ++ " Addresses " ++ short_id id)

-- `managed_compliance_rule_name`
unfoldable pub managed_compliance_rule_name : String → ℕ → String
unfolding short_id hex_digits hex_digit
managed_compliance_rule_name prefix id = prefix ++ " Compliance rule " ++ short_id id

-- the name of a bypass list, `f"{bypass_name} bypass"`
unfoldable pub bypass_list_name : String → ℕ → String
unfolding managed_resource_names
bypass_list_name prefix id = (managed_resource_names prefix id).1 ++ " bypass"

-- `display_name.startswith(f"{prefix} ")`
unfoldable pub is_visible : String → String → Bool
is_visible prefix display_name = starts_with display_name (prefix ++ " ")

short_id_runs :
    managed_resource_names "[M]" 0x0123abcd_00000000_00000000_00000001
    ≡ ("[M] Block rule 0123abcd", "[M] Addresses 0123abcd")
unfolding managed_resource_names
short_id_runs = refl
