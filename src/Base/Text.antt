-- ===== src/Base/Text.antt =====
-- What the code uses of package strings, over lists of code points (or of bytes, where it slices).
-- Case mapping goes rune by rune. Beyond ASCII it is written out where it leads into ASCII (U+0130
-- and U+212A below, U+0131 and U+017F above); the other runes stay as they are, which no comparison
-- with an ASCII text can tell.
use Prim.Native.Nat.{ℕ, ◌+◌, ◌-◌}
use Prim.Native.Char.{code}
use Prim.Native.String.{String}
use mathlib.Core.Path.{◌≡◌, refl}
use mathlib.Core.Logic.{◌↔◌}
use mathlib.Core.Bool.{Bool, true, false, not, ◌&&◌, ◌||◌}
use mathlib.Core.List.{List, [], ◌∷◌, map, reverse}
use native.Mathlib.Omega.{arith}
use openlocalcrm.Base.Tests.{leb, eqb, eqb_iff, if◌then◌else◌, Comparable}

abbrev pub Text : Type 0
Text = List ℕ

abbrev pub codes : String → Text
codes String.[] = []
codes (String.◌∷◌ c s) = code c ∷ codes s

abbrev pub text_eq : Text → Text → Bool
text_eq [] [] = true
text_eq [] (b ∷ t) = false
text_eq (a ∷ s) [] = false
text_eq (a ∷ s) (b ∷ t) = eqb a b && text_eq s t

unfoldable pub lower_rune : ℕ → ℕ
lower_rune r =
    if leb b'A' r && leb r b'Z'
    then r + 32
    else (if eqb r 0x130 then b'i' else (if eqb r 0x212a then b'k' else r))

unfoldable pub upper_rune : ℕ → ℕ
upper_rune r =
    if leb b'a' r && leb r b'z'
    then r - 32
    else (if eqb r 0x131 then b'I' else (if eqb r 0x17f then b'S' else r))

unfoldable pub to_lower : Text → Text
to_lower = map lower_rune

unfoldable pub to_upper : Text → Text
unfolding upper_rune
to_upper = map upper_rune

lower_rune_idem : (r : ℕ) → lower_rune (lower_rune r) ≡ lower_rune r
unfolding lower_rune
lower_rune_idem r = ground arith

pub to_lower_idem : (s : Text) → to_lower (to_lower s) ≡ to_lower s
unfolding to_lower
to_lower_idem [] = refl
to_lower_idem (r ∷ s) = cc (lower_rune_idem r, to_lower_idem s)

-- `unicode.IsSpace`.
unfoldable pub is_space : ℕ → Bool
is_space r =
    (leb 9 r && leb r 13)
    || eqb r 0x20
    || eqb r 0x85
    || eqb r 0xa0
    || eqb r 0x1680
    || (leb 0x2000 r && leb r 0x200a)
    || eqb r 0x2028
    || eqb r 0x2029
    || eqb r 0x202f
    || eqb r 0x205f
    || eqb r 0x3000

unfoldable pub trim_left : Text → Text
unfolding is_space
trim_left [] = []
trim_left (r ∷ s) = let rest = trim_left s in if is_space r then rest else r ∷ s

unfoldable pub trim_space : Text → Text
unfolding trim_left
trim_space s = reverse (trim_left (reverse (trim_left s)))

abbrev pub has_prefix : Text → Text → Bool
has_prefix s [] = true
has_prefix [] (p ∷ ps) = false
has_prefix (r ∷ s) (p ∷ ps) = eqb r p && has_prefix s ps

unfoldable pub contains : Text → Text → Bool
contains [] word = has_prefix [] word
contains (r ∷ s) word = has_prefix (r ∷ s) word || contains s word

pub text_eq_iff : (s t : Text) → (text_eq s t ≡ true) ↔ (s ≡ t)
text_eq_iff [] [] = (λ _. refl, λ _. refl)
text_eq_iff [] (b ∷ t) = (λ h. cc, λ h. cc)
text_eq_iff (a ∷ s) [] = (λ h. cc, λ h. cc)
text_eq_iff (a ∷ s) (b ∷ t) = ground (arith, eqb_iff a b, text_eq_iff s t)

instance abbrev pub text_comparable : Comparable Text
text_comparable = record { same = text_eq; same_iff = text_eq_iff }

-- The rune for all those that `strings.EqualFold` takes as one: of ASCII and Latin-1, with U+212A and
-- U+017F, which fold into ASCII. The other runes stay as they are.
unfoldable pub fold_rune : ℕ → ℕ
fold_rune r =
    if leb b'A' r && leb r b'Z' || leb 0xc0 r && leb r 0xde && not (eqb r 0xd7)
    then r + 32
    else (if eqb r 0x212a then b'k' else (if eqb r 0x17f then b's' else r))

unfoldable pub equal_fold : Text → Text → Bool
unfolding fold_rune
equal_fold s t = text_eq (map fold_rune s) (map fold_rune t)
