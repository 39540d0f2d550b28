-- ===== src/SecretBox.antt =====
-- backend/internal/secretbox/secretbox.go, and the box that NewServer of
-- backend/internal/httpapi/httpapi.go makes.
--
-- AES-256-GCM and the base64 of the standard library are arguments; what the code relies on is
-- that each opens what it sealed.
pub mod Laws
use sauth.Prelude.{
  ℕ, Option, none, some, List, ◌++◌, length, take, drop, ltb, ◌==◌, not, if◌then◌else◌,
}
use sauth.Text.{Text}
use sauth.Errors.{Outcome, ok, err, fault}
use sauth.Env.{Env}
use sauth.Exec.{Exec, pure, call, ◌>>=◌}

pub record Box : Type 0 where
  pub key : List ℕ

-- aead.NonceSize()
abbrev pub nonce_size : ℕ
nonce_size = 12

-- aes.NewCipher and cipher.NewGCM take every key of 32 bytes.
unfoldable pub new : List ℕ → Outcome Box
new key = if not (length key == 32) then err fault else ok (record { key = key })

abbrev kept_box : Outcome Box → Option Box
kept_box (ok box) = some box
kept_box (err e) = none

-- the box of the server: none unless the key has 32 bytes
unfoldable pub box_of : List ℕ → Option Box
unfolding new
box_of key = if length key == 32 then kept_box (new key) else none

module _ (env : Env) where
  unfoldable pub seal : Box → Text → Exec Text
  seal b plaintext = do
    n ← call env
    pure (env.base64_encode (env.nonce n ++ env.aead_seal b.key (env.nonce n) plaintext))

  abbrev opened : Option Text → Outcome Text
  opened none = err fault
  opened (some pt) = ok pt

  abbrev open_raw : Box → Option (List ℕ) → Outcome Text
  open_raw b none = err fault
  open_raw b (some raw) =
      if ltb (length raw) nonce_size
      then err fault
      else opened (env.aead_open b.key (take nonce_size raw) (drop nonce_size raw))

  unfoldable pub open_sealed : Box → Text → Outcome Text
  open_sealed b encoded = open_raw b (env.base64_decode encoded)
