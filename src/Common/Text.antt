-- ===== src/Common/Text.antt =====
-- Text as the source uses it: `==`, `startswith`, `strip`, membership in a collection of texts,
-- and the length of `set(xs)` against that of `xs`.
pub mod Stripped
use Prim.Native.Nat.{ℕ, Ordering}
use Prim.Native.Char.{Char, code}
use Prim.Native.String
use Prim.Native.String.{String}
use mathlib.Core.Path.{◌≡◌, refl}
use mathlib.Core.Bool.{Bool, true, false, ◌&&◌, ◌||◌}
use mathlib.Core.Option.{Option, none, some}
use mathlib.Core.List.{List, [], ◌∷◌}
use text.Mathlib.Text.{◌==◌ as str_eq}
use google_workspace_gmail_a.Common.Tests.{leb, ◌==◌, if◌then◌else◌}
use google_workspace_gmail_a.Common.Duplicates.{mem_by, repeats_by, DistinctBy}

infix 50 ◌=s=◌
abbrev pub ◌=s=◌ : String → String → Bool
s =s= t = str_eq s t

-- `s <= t` on texts: by code points
abbrev pub leb_text : String → String → Bool
leb_text s t = elim (String.compare s t) [ Ordering.gt ↦ false | _ ↦ true ]

-- `s in ss`
abbrev pub mem_text : String → List String → Bool
mem_text = mem_by ◌=s=◌

-- `len(ss) != len(set(ss))`
abbrev pub has_duplicates : List String → Bool
has_duplicates = repeats_by ◌=s=◌

-- No text occurs twice.
abbrev pub Distinct : List String → Type 0
Distinct = DistinctBy ◌=s=◌

-- `str.isspace` of one character
is_space : Char → Bool
is_space c =
    let n = code c in
    (leb 9 n && leb n 13)
    || (leb 28 n && leb n 32)
    || n == 0x85
    || n == 0xa0
    || n == 0x1680
    || (leb 0x2000 n && leb n 0x200a)
    || n == 0x2028
    || n == 0x2029
    || n == 0x202f
    || n == 0x205f
    || n == 0x3000

-- `s.lstrip()`
lstrip : String → String
unfolding is_space
lstrip String.[] = String.[]
lstrip (String.◌∷◌ c s) = if is_space c then lstrip s else String.◌∷◌ c s

-- a character before a text that is already stripped on the right
abbrev push_kept : Char → Bool → String → String
push_kept c blank String.[] = if blank then String.[] else String.◌∷◌ c String.[]
push_kept c blank (String.◌∷◌ d s) = String.◌∷◌ c (String.◌∷◌ d s)

-- `s.rstrip()`
rstrip : String → String
unfolding is_space
rstrip String.[] = String.[]
rstrip (String.◌∷◌ c s) = push_kept c (is_space c) (rstrip s)

-- `s.strip()`
unfoldable pub strip : String → String
unfolding lstrip rstrip
strip s = rstrip (lstrip s)

-- a character in front of the first piece
abbrev push_first : Char → List String → List String
push_first c [] = (String.◌∷◌ c String.[]) ∷ []
push_first c (p ∷ ps) = String.◌∷◌ c p ∷ ps

-- `s.split(separator)`, at one character
unfoldable pub split_on : ℕ → String → List String
split_on separator String.[] = String.[] ∷ []
split_on separator (String.◌∷◌ c s) =
    let rest = split_on separator s in
    if code c == separator then String.[] ∷ rest else push_first c rest

-- `s.endswith(t)`
unfoldable pub ends_with : String → String → Bool
ends_with String.[] t = String.[] =s= t
ends_with (String.◌∷◌ c s) t = String.◌∷◌ c s =s= t || ends_with s t

-- `not s`
abbrev pub is_blank : String → Bool
is_blank String.[] = true
is_blank (String.◌∷◌ c s) = false

strip_runs : strip " \t ab c\n " ≡ "ab c"
unfolding strip
strip_runs = refl

-- `==` on optional texts
abbrev pub same_notice : Option String → Option String → Bool
same_notice none none = true
same_notice none (some t) = false
same_notice (some s) none = false
same_notice (some s) (some t) = s =s= t
