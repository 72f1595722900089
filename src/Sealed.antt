-- ===== src/Sealed.antt =====
-- The authenticated encryption of `crypto/cipher` (AES-GCM), as the encrypted logs
-- (internal/logging/secure.go) and the encrypted configuration
-- (internal/secureconfig/secureconfig.go) use it: a record of operations and of what the package
-- documents of them. Both run it with no additional data.
use fyrwall.Base.{ℕ, ◌+◌, ◌≤◌, ◌≡◌, Option, some, length}
use fyrwall.Base.Frames.{Bytes}

pub record Aead : Type 0 where
  -- NonceSize(), and the tag's length
  pub nonce_size : ℕ
  pub overhead : ℕ
  -- Seal(nil, nonce, plaintext, nil)
  pub seal : Bytes → Bytes → Bytes
  -- Open(nil, nonce, ciphertext, nil), `none` where the authentication fails
  pub unseal : Bytes → Bytes → Option Bytes
  -- what was sealed is opened again under the same nonce
  pub unseal-seal : (nonce plain : Bytes) → unseal nonce (seal nonce plain) ≡ some plain
  pub length-seal : (nonce plain : Bytes) → length (seal nonce plain) ≡ length plain + overhead
  -- the writers put eight bytes into the nonce
  pub nonce_room : 8 ≤ nonce_size
