-- ===== src/SecretBox/Laws.antt =====
-- What is sealed is opened.
use sauth.Prelude.{
  ℕ, ◌≡◌, ◌∙◌, sym, ap, refl, some, List, [], ◌∷◌, ◌++◌, length, take, drop, arith, length-append,
  Bool, ltb,
}
use sauth.Text.{Text}
use sauth.Errors.{ok}
use sauth.Env.{Env}
use sauth.Exec.{World}
use sauth.Exec.Laws.{Yields-run, Yields-bind, Yields-call, Yields-pure}
use sauth.SecretBox.{Box, nonce_size, seal, open_sealed}

module _ {A : Type 0} where
  take-append : (xs ys : List A) → take (length xs) (xs ++ ys) ≡ xs
  take-append [] [] = refl
  take-append [] (y ∷ ys) = refl
  take-append (x ∷ xs) ys = ap (λ t. x ∷ t) (take-append xs ys)

  drop-append : (xs ys : List A) → drop (length xs) (xs ++ ys) ≡ ys
  drop-append [] ys = refl
  drop-append (x ∷ xs) ys = drop-append xs ys

-- What the code relies on: decoding undoes encoding, the cipher opens what it sealed under the same
-- key and nonce, and a nonce has 12 bytes.
pub record IsSound (env : Env) : Type 0 where
  pub base64 : (raw : List ℕ) → env.base64_decode (env.base64_encode raw) ≡ some raw
  pub aead : (k n : List ℕ) (t : Text) → env.aead_open k n (env.aead_seal k n t) ≡ some t
  pub nonces : (n : ℕ) → length (env.nonce n) ≡ nonce_size

module _ (env : Env) (sound : IsSound env) where
  open-sealed :
      (b : Box) (n : ℕ) (t : Text)
      → open_sealed env b (env.base64_encode (env.nonce n ++ env.aead_seal b.key (env.nonce n) t))
        ≡ ok t
  unfolding open_sealed
  open-sealed b n t =
      let ct = env.aead_seal b.key (env.nonce n) t in
      let long : ltb (length (env.nonce n ++ ct)) nonce_size ≡ Bool.false =
        ground (arith, length-append (env.nonce n) ct, sound.nonces n) in
      let front : take nonce_size (env.nonce n ++ ct) ≡ env.nonce n =
        ap (λ k. take k (env.nonce n ++ ct)) (sym (sound.nonces n))
        ∙ take-append (env.nonce n) ct in
      let back : drop nonce_size (env.nonce n ++ ct) ≡ ct =
        ap (λ k. drop k (env.nonce n ++ ct)) (sym (sound.nonces n))
        ∙ drop-append (env.nonce n) ct in
      rw (open_sealed, sound.base64, long, front, back, sound.aead)

  -- A secret that was sealed under a box is what the box opens the sealed text to, whatever nonce was
  -- drawn, if base64 decodes what it encodes, AES-GCM opens what it seals and a nonce has 12 bytes.
  pub open-seal :
      (b : Box) (plaintext encoded : Text) (w v : World)
      → seal env b plaintext w ≡ (ok encoded, v)
      → open_sealed env b encoded ≡ ok plaintext
  unfolding seal
  open-seal b plaintext encoded w v h =
      Yields-run {Q = λ r u. open_sealed env b r ≡ ok plaintext}
        (Yields-bind (Yields-call env (Yields-pure (open-sealed b w.calls plaintext)))) encoded v h
