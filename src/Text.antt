-- ===== src/Text.antt =====
-- Go strings, and the functions of the package strings that the program calls on them.
--
-- A string is the sequence of its runes (code points); `len` is the number of its bytes in UTF-8.
-- The table of unicode.ToLower beyond ASCII is the argument `lower_rune`.
pub mod Laws
pub mod Hex
pub mod Digits
use Prim.Native.Char.{code}
use Prim.Native.String.{String}
use sauth.Prelude.{
  ℕ, zero, suc, ◌+◌, ◌≡◌, Bool, true, false, ◌&&◌, ◌||◌, List, [], ◌∷◌, ◌++◌, map, reverse, leb,
  ltb, ◌==◌, if◌then◌else◌,
}

abbrev pub Text : Type 0
Text = List ℕ

-- A literal of the source.
abbrev pub lit : String → Text
lit String.[] = []
lit (String.◌∷◌ c s) = code c ∷ lit s

-- a == b
unfoldable pub text_eq : Text → Text → Bool
text_eq [] [] = true
text_eq (a ∷ s) (b ∷ t) = a == b && text_eq s t
text_eq _ _ = false

-- The bytes of one rune in UTF-8.
unfoldable pub rune_len : ℕ → ℕ
rune_len c = if ltb c 0x80 then 1 else if ltb c 0x800 then 2 else if ltb c 0x10000 then 3 else 4

-- len(s)
unfoldable pub len : Text → ℕ
unfolding rune_len
len [] = 0
len (c ∷ s) = rune_len c + len s

-- unicode.IsSpace
unfoldable pub is_space : ℕ → Bool
is_space c =
    (leb 9 c && leb c 13)
    || c == 32
    || c == 0x85
    || c == 0xa0
    || c == 0x1680
    || (leb 0x2000 c && leb c 0x200a)
    || c == 0x2028
    || c == 0x2029
    || c == 0x202f
    || c == 0x205f
    || c == 0x3000

-- strings.TrimLeftFunc(s, p)
unfoldable pub trim_left : (ℕ → Bool) → Text → Text
trim_left p [] = []
trim_left p (c ∷ s) = if p c then trim_left p s else c ∷ s

-- strings.TrimRightFunc(s, p)
unfoldable pub trim_right : (ℕ → Bool) → Text → Text
unfolding trim_left
trim_right p s = reverse (trim_left p (reverse s))

-- strings.TrimSpace(s)
unfoldable pub trim_space : Text → Text
unfolding trim_left trim_right is_space
trim_space s = trim_right is_space (trim_left is_space s)

-- strings.Contains(s, c) for a text of one rune
unfoldable pub contains : ℕ → Text → Bool
contains c [] = false
contains c (d ∷ s) = c == d || contains c s

-- strings.HasPrefix(s, prefix)
unfoldable pub has_prefix : Text → Text → Bool
has_prefix s [] = true
has_prefix [] (c ∷ p) = false
has_prefix (d ∷ s) (c ∷ p) = d == c && has_prefix s p

-- A-Z by their offset, other ASCII unchanged, the rest by the table.
unfoldable pub to_lower_rune : (ℕ → ℕ) → ℕ → ℕ
to_lower_rune lower_rune c =
    if leb 65 c && leb c 90 then c + 32 else if ltb c 0x80 then c else lower_rune c

-- strings.ToLower(s)
unfoldable pub to_lower : (ℕ → ℕ) → Text → Text
unfolding to_lower_rune
to_lower lower_rune = map (to_lower_rune lower_rune)

-- The rune that stands for those that differ in case only: ASCII by its offset, the rest by the
-- table of simple foldings.
unfoldable pub folded : (ℕ → ℕ) → ℕ → ℕ
folded fold_rune c = if leb 65 c && leb c 90 then c + 32 else if ltb c 0x80 then c else fold_rune c

-- strings.EqualFold(s, t)
unfoldable pub equal_fold : (ℕ → ℕ) → Text → Text → Bool
unfolding text_eq folded
equal_fold fold_rune s t = text_eq (map (folded fold_rune) s) (map (folded fold_rune) t)
