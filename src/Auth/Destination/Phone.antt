-- ===== src/Auth/Destination/Phone.antt =====
-- The telephone numbers that normalizePhone returns.
use sauth.Prelude.{
  ℕ, suc, ◌≤◌, ◌≡◌, refl, Bool, true, false, ◌&&◌, ◌||◌, ◌==◌, ◌⊎◌, inl, inr, [], ◌∷◌, ◌++◌, length,
  arith, if◌then◌else◌, append-nil, append_assoc, and_left, and_right, ==_iff, Bool-cases, ap, sym,
  ◌∙◌,
}
use sauth.Text.{Text, text_eq, has_prefix, len, rune_len}
use sauth.Text.Digits.{is_digit, all_digits, digits-append, len-digits}
use sauth.Auth.Destination.{phone_runes, normalize_phone, bounded_phone, is_out_of_bounds}

-- Digits, after a plus sign or not.
abbrev is_partial : Text → Bool
is_partial [] = true
is_partial (c ∷ s) = (is_digit c || c == b'+') && all_digits s

partial-append :
    (b : Text) (r : ℕ) → is_partial b ≡ true → is_digit r ≡ true → is_partial (b ++ r ∷ []) ≡ true
partial-append [] r h d = ground arith
partial-append (c ∷ s) r h d = ground (arith, digits-append s (r ∷ []))

plus-partial : (b : Text) → text_eq b [] ≡ true → is_partial (b ++ b'+' ∷ []) ≡ true
unfolding text_eq
plus-partial [] h = refl
plus-partial (c ∷ s) h = cc h

next : Text → ℕ → Text
next b r = if is_digit r || (r == b'+' && text_eq b []) then b ++ r ∷ [] else b

next-partial : (b : Text) (r : ℕ) → is_partial b ≡ true → is_partial (next b r) ≡ true
unfolding next
next-partial b r h = ground (arith, partial-append b r h, plus-partial b)

runes-partial : (b v : Text) → is_partial b ≡ true → is_partial (phone_runes b v) ≡ true
unfolding phone_runes next
runes-partial b [] h = h
runes-partial b (r ∷ v) h = runes-partial (next b r) v (next-partial b r h)

-- Digits are kept as they are.
runes-digits : (b v : Text) → all_digits v ≡ true → phone_runes b v ≡ b ++ v
unfolding phone_runes next
runes-digits b [] h = sym (append-nil b)
runes-digits b (r ∷ v) h = rw (and_left (is_digit r) (all_digits v) h) (
    runes-digits (b ++ r ∷ []) v (and_right (is_digit r) (all_digits v) h)
    ∙ append_assoc b (r ∷ []) v)

-- A plus sign and 7 to 15 digits.
pub record IsE164 (s : Text) : Type 0 where
  pub digits : Text
  pub shape : s ≡ b'+' ∷ digits
  pub numeric : all_digits digits ≡ true
  pub at_least : 7 ≤ length digits
  pub at_most : length digits ≤ 15

len-plus : (ds : Text) → all_digits ds ≡ true → len (b'+' ∷ ds) ≡ suc (length ds)
unfolding len rune_len
len-plus ds h = omega (arith, len-digits ds h)

bounded-inside :
    (ds : Text) → is_out_of_bounds (b'+' ∷ ds) ≡ false → bounded_phone (b'+' ∷ ds) ≡ b'+' ∷ ds
unfolding bounded_phone has_prefix
bounded-inside ds h = rw h

bounded-outside : (ds : Text) → is_out_of_bounds (b'+' ∷ ds) ≡ true → bounded_phone (b'+' ∷ ds) ≡ []
unfolding bounded_phone has_prefix
bounded-outside ds h = rw h

-- A partial number that is not empty, after its first rune.
bounded-tail :
    (c : ℕ) (ds : Text)
    → all_digits ds ≡ true
    → (bounded_phone (c ∷ ds) ≡ []) ⊎ IsE164 (bounded_phone (c ∷ ds))
unfolding bounded_phone has_prefix
bounded-tail c ds h = elim (Bool-cases (c == b'+')) [
  | inr other ↦ inl (rw other)
  | inl plus ↦ rw ((==_iff c b'+').0 plus) (elim (Bool-cases (is_out_of_bounds (b'+' ∷ ds))) [
    | inl out ↦ inl (bounded-outside ds out)
    | inr inside ↦ inr (record {
      digits = ds;
      shape = bounded-inside ds inside;
      numeric = h;
      at_least = ground (arith, len-plus ds h);
      at_most = ground (arith, len-plus ds h);
    })
  ])
]

bounded-E164 : (s : Text) → is_partial s ≡ true → (bounded_phone s ≡ []) ⊎ IsE164 (bounded_phone s)
unfolding bounded_phone has_prefix
bounded-E164 [] h = inl refl
bounded-E164 (c ∷ ds) h = bounded-tail c ds (and_right (is_digit c || c == b'+') (all_digits ds) h)

-- A normalised telephone number is a plus sign and 7 to 15 digits; whatever else a text is, nothing
-- comes out.
pub normalize-E164 : (v : Text) → (normalize_phone v ≡ []) ⊎ IsE164 (normalize_phone v)
unfolding normalize_phone
normalize-E164 v = bounded-E164 (phone_runes [] v) (runes-partial [] v refl)

-- What is a plus sign and 7 to 15 digits is left as it is.
pub normalize-keeps : (s : Text) → IsE164 s → normalize_phone s ≡ s
unfolding normalize_phone phone_runes text_eq
normalize-keeps s e = rw e.shape (
    ap bounded_phone (runes-digits (b'+' ∷ []) e.digits e.numeric)
    ∙ bounded-inside e.digits (ground (arith, e.at_least, e.at_most, len-plus e.digits e.numeric)))
