-- ===== src/Otp/Codes.antt =====
-- The codes that are generated, and their hashes.
use sauth.Prelude.{
  ℕ, zero, suc, ◌+◌, ◌-◌, ◌*◌, ◌/◌, ◌%◌, ◌<◌, ◌≤◌, ◌≡◌, refl, true, [], ◌∷◌, length, replicate,
  arith, length-append, length-replicate, ap, ◌∙◌,
}
use sauth.Text.{Text, text_eq}
use sauth.Text.Hex.{decode-encode, AreBytes}
use sauth.Text.Digits.{
  all_digits, value_from, digits-append, digits-zeros, value-append, value-zeros,
}
use sauth.Errors.{ok}
use sauth.Env.{Env}
use sauth.Exec.{World}
use sauth.Exec.Laws.{Yields-run, Yields-pure, Yields-bind, Yields-call}
use sauth.Otp.{digits, times_ten, decimal, sprintf_zero_padded, generate, hash, equal}

abbrev pub power : ℕ → ℕ
power zero = 1
power (suc k) = 10 * power k

decimal-value : (fuel n : ℕ) → n < fuel → value_from 0 (decimal fuel n) ≡ n
unfolding decimal
decimal-value zero n h = omega (arith, h)
decimal-value (suc fuel) n h = ground (
  arith,
  value-append 0 (decimal fuel (n / 10)) ((48 + n % 10) ∷ []),
  decimal-value fuel (n / 10),
)

decimal-digits : (fuel n : ℕ) → all_digits (decimal fuel n) ≡ true
unfolding decimal
decimal-digits zero n = refl
decimal-digits (suc fuel) n = ground (
  arith,
  digits-append (decimal fuel (n / 10)) ((48 + n % 10) ∷ []),
  decimal-digits fuel (n / 10),
)

decimal-length : (fuel n k : ℕ) → n < power (suc k) → length (decimal fuel n) ≤ suc k
unfolding decimal
decimal-length zero n k h = omega arith
decimal-length (suc fuel) n zero h = ground arith
decimal-length (suc fuel) n (suc k) h = ground (
  arith,
  length-append (decimal fuel (n / 10)) ((48 + n % 10) ∷ []),
  decimal-length fuel (n / 10) k,
)

-- A number below 10^k, padded to k digits.
padded-length : (k n : ℕ) → n < power (suc k) → length (sprintf_zero_padded (suc k) n) ≡ suc k
unfolding sprintf_zero_padded
padded-length k n h =
    let short = decimal-length (suc n) n k h in
    let c : ℕ = 48 in
    length-append (replicate (suc k - length (decimal (suc n) n)) 48) (decimal (suc n) n)
    ∙ omega (arith, short, length-replicate (suc k - length (decimal (suc n) n)) c)

pub padded-digits : (k n : ℕ) → all_digits (sprintf_zero_padded k n) ≡ true
unfolding sprintf_zero_padded
padded-digits k n =
    digits-append (replicate (k - length (decimal (suc n) n)) 48) (decimal (suc n) n)
      (digits-zeros (k - length (decimal (suc n) n))) (decimal-digits (suc n) n)

padded-value : (k n : ℕ) → value_from 0 (sprintf_zero_padded k n) ≡ n
unfolding sprintf_zero_padded
padded-value k n =
    value-append 0 (replicate (k - length (decimal (suc n) n)) 48) (decimal (suc n) n)
    ∙ ap (λ m. value_from m (decimal (suc n) n)) (value-zeros (k - length (decimal (suc n) n)))
    ∙ decimal-value (suc n) n (omega arith)

module _ (env : Env) where
  -- What a code is, for the number `n` that was drawn.
  pub record IsCode (n : ℕ) (code : Text) : Type 0 where
    pub long : length code ≡ 6
    pub numeric : all_digits code ≡ true
    pub value : value_from 0 code ≡ n

  -- The number that a call draws, written with six digits.
  pub written-IsCode :
      ((k bound : ℕ) → 0 < bound → env.random_below k bound < bound)
      → (k : ℕ)
      → IsCode
          (env.random_below k 1_000_000)
          (sprintf_zero_padded digits (env.random_below k 1_000_000))
  written-IsCode below k = record {
    long = padded-length 5 _ (below k 1_000_000 (omega arith));
    numeric = padded-digits 6 _;
    value = padded-value 6 _;
  }

  -- A generated code is six decimal digits that write the drawn number, if the random source returns
  -- numbers below its bound.
  pub generate-IsCode :
      ((k bound : ℕ) → 0 < bound → env.random_below k bound < bound)
      → (w v : World) (code : Text) → generate env w ≡ (ok code, v)
      → IsCode (env.random_below w.calls 1_000_000) code
  unfolding generate times_ten
  generate-IsCode below w v code h =
      Yields-run {Q = λ c _. IsCode (env.random_below w.calls 1_000_000) c}
        (Yields-bind (Yields-call env (Yields-pure (written-IsCode below w.calls)))) code v h

  -- A code is equal to a stored hash exactly when it has the same MAC as the code that was hashed,
  -- if MACs are bytes.
  pub equal-hash :
      ((c : Text) → AreBytes (env.otp_mac c))
      → (code stored : Text)
      → equal env code (hash env stored) ≡ text_eq (env.otp_mac code) (env.otp_mac stored)
  unfolding equal hash
  equal-hash bytes code stored = rw (equal, decode-encode (env.otp_mac stored) (bytes stored))
