-- ===== src/Common/Text/Stripped.antt =====
-- `str.strip` leaves a text that it has stripped as it is, and makes no text longer.
use Prim.Native.Nat.{suc, ◌≤◌}
use Prim.Native.Char.{Char}
use Prim.Native.String
use Prim.Native.String.{String}
use Prim.Native.String.count
use mathlib.Core.Path.{◌≡◌, refl, ap, ◌∙◌}
use mathlib.Core.Logic.{inl, inr}
use mathlib.Core.Bool.{Bool, true, false}
use native.Mathlib.Omega.{arith}
use google_workspace_gmail_a.Common.Tests.{Bool-cases}
use google_workspace_gmail_a.Common.Text.{strip, lstrip, rstrip, is_space, push_kept}

push_kept_again :
    (c : Char) (blank : Bool) (s : String)
    → is_space c ≡ blank
    → rstrip s ≡ s
    → rstrip (push_kept c blank s) ≡ push_kept c blank s
unfolding rstrip
push_kept_again c true String.[] e h = refl
push_kept_again c false String.[] e h = rw e refl
push_kept_again c blank (String.◌∷◌ d s) e h = rw h refl

rstrip_again : (s : String) → rstrip (rstrip s) ≡ rstrip s
unfolding rstrip
rstrip_again String.[] = refl
rstrip_again (String.◌∷◌ c s) = push_kept_again c (is_space c) (rstrip s) refl (rstrip_again s)

lstrip_kept :
    (c : Char) (s : String)
    → is_space c ≡ false
    → lstrip (push_kept c false s) ≡ push_kept c false s
unfolding lstrip
lstrip_kept c String.[] e = rw e refl
lstrip_kept c (String.◌∷◌ d s) e = rw e refl

lstrip-rstrip : (s : String) → lstrip (rstrip (lstrip s)) ≡ rstrip (lstrip s)
unfolding lstrip rstrip
lstrip-rstrip String.[] = refl
lstrip-rstrip (String.◌∷◌ c s) = elim (Bool-cases (is_space c)) [
  | inl e ↦ rw e (lstrip-rstrip s)
  | inr e ↦ rw (e, rstrip, e) (lstrip_kept c (rstrip s) e)
]

pub strip_again : (s : String) → strip (strip s) ≡ strip s
unfolding strip
strip_again s = ap rstrip (lstrip-rstrip s) ∙ rstrip_again (lstrip s)

push_kept-le :
    (c : Char) (blank : Bool) (s : String)
    → String.count (push_kept c blank s) ≤ suc (String.count s)
push_kept-le c true String.[] = omega arith
push_kept-le c false String.[] = omega (arith, count.cons c String.[])
push_kept-le c blank (String.◌∷◌ d s) = omega (arith, count.cons c (String.◌∷◌ d s))

rstrip-le : (s : String) → String.count (rstrip s) ≤ String.count s
unfolding rstrip
rstrip-le String.[] = omega arith
rstrip-le (String.◌∷◌ c s) =
    omega (arith, count.cons c s, push_kept-le c (is_space c) (rstrip s), rstrip-le s)

lstrip-le : (s : String) → String.count (lstrip s) ≤ String.count s
unfolding lstrip
lstrip-le String.[] = omega arith
lstrip-le (String.◌∷◌ c s) = elim (Bool-cases (is_space c)) [
  | inl e ↦ rw e (omega (arith, count.cons c s, lstrip-le s))
  | inr e ↦ rw e (omega arith)
]

pub strip-le : (s : String) → String.count (strip s) ≤ String.count s
unfolding strip
strip-le s = omega (arith, rstrip-le (lstrip s), lstrip-le s)
