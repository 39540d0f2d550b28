-- ===== src/Text/Digits.antt =====
-- Texts of decimal digits, and the number that one writes.
use mathlib.Core.List.{reverse-cons, reverse-reverse}
use sauth.Prelude.{
  ap, ◌∙◌, reverse, false, ℕ, zero, suc, ◌+◌, ◌-◌, ◌*◌, ◌≡◌, refl, Bool, true, ◌&&◌, [], ◌∷◌, ◌++◌,
  length, replicate, arith, leb,
}
use sauth.Text.{Text, len, rune_len, is_space, trim_left, trim_right, trim_space}

abbrev pub is_digit : ℕ → Bool
is_digit r = leb b'0' r && leb r b'9'

abbrev pub all_digits : Text → Bool
all_digits [] = true
all_digits (c ∷ s) = is_digit c && all_digits s

abbrev pub value_from : ℕ → Text → ℕ
value_from n [] = n
value_from n (c ∷ s) = value_from (n * 10 + (c - 48)) s

pub digits-append :
    (s t : Text) → all_digits s ≡ true → all_digits t ≡ true → all_digits (s ++ t) ≡ true
digits-append [] t h k = k
digits-append (c ∷ s) t h k = ground (arith, digits-append s t)

pub digits-zeros : (n : ℕ) → all_digits (replicate n 48) ≡ true
digits-zeros zero = refl
digits-zeros (suc n) = digits-zeros n

pub value-append : (n : ℕ) (s t : Text) → value_from n (s ++ t) ≡ value_from (value_from n s) t
value-append n [] t = refl
value-append n (c ∷ s) t = value-append (n * 10 + (c - 48)) s t

pub value-zeros : (n : ℕ) → value_from 0 (replicate n 48) ≡ 0
value-zeros zero = refl
value-zeros (suc n) = value-zeros n

-- A text of digits has as many bytes as runes.
pub len-digits : (s : Text) → all_digits s ≡ true → len s ≡ length s
unfolding len rune_len
len-digits [] h = refl
len-digits (c ∷ s) h = ground (arith, len-digits s)

not_space : (c : ℕ) → is_digit c ≡ true → is_space c ≡ false
unfolding is_space
not_space c h = ground arith

trim_left-digits : (s : Text) → all_digits s ≡ true → trim_left is_space s ≡ s
unfolding trim_left
trim_left-digits [] h = refl
trim_left-digits (c ∷ s) h = ground (arith, not_space c)

digits-reverse : (s : Text) → all_digits s ≡ true → all_digits (reverse s) ≡ true
digits-reverse [] h = refl
digits-reverse (c ∷ s) h =
    rw (reverse-cons c s)
      (digits-append (reverse s) (c ∷ []) (digits-reverse s (ground arith)) (ground arith))

-- There is nothing to trim around digits.
pub trim-digits : (s : Text) → all_digits s ≡ true → trim_space s ≡ s
unfolding trim_space trim_right
trim-digits s h =
    rw (trim_left-digits s h)
      (ap reverse (trim_left-digits (reverse s) (digits-reverse s h)) ∙ reverse-reverse s)
