-- ===== src/SecureConfig/RoundTrip.antt =====
-- internal/secureconfig/secureconfig.go: what is read of a file that was saved.
use fyrwall.Base.{
  ◌+◌, ◌-◌, ◌^◌, ◌<◌, ◌≡◌, refl, sym, ap, subst, ◌∙◌, Bool, true, false, [], ◌∷◌, ◌++◌, some, arith,
  length, length-append, ltb, Bool-cases, Option-cases, inl, inr,
}
use mathlib.Core.List.{append_assoc, append-nil}
use fyrwall.Base.Frames.{
  Bytes, put_uint32, take, drop, take_at, drop_at, uint32-put_uint32, length-put_uint32,
}
use fyrwall.Sealed.{Aead}
use fyrwall.SecureConfig.{
  magic, is_encrypted, plain, decrypt, encrypt, decrypt_body, Disk, absent, read, migrated, load,
  save, save_encrypted, verify_integrity,
}

module _ (aead : Aead) where
  -- a nonce of the right size, and a text whose sealed form has a length of 32 bits
  abbrev pub Fits : Bytes → Bytes → Type 0
  Fits nonce p =
      (length nonce ≡ aead.nonce_size) × (aead.nonce_size + (length p + aead.overhead) < 2 ^ 32)

  -- a saved file is known as encrypted, whatever follows it
  encrypt-encrypted : (nonce p rest : Bytes) → is_encrypted (encrypt aead nonce p ++ rest) ≡ true
  unfolding is_encrypted encrypt put_uint32 take
  encrypt-encrypted nonce p rest = ground arith

  body-opened :
      (nonce p rest : Bytes)
      → length nonce ≡ aead.nonce_size
      → decrypt_body aead
          (some (length (nonce ++ aead.seal nonce p), (nonce ++ aead.seal nonce p) ++ rest))
        ≡ plain p
  body-opened nonce p rest size =
      let sealed = aead.seal nonce p in
      let a = length-append nonce sealed in
      let b = length-append (nonce ++ sealed) rest in
      let room : ltb (length ((nonce ++ sealed) ++ rest)) (length (nonce ++ sealed)) ≡ false =
        ground arith in
      let long : ltb (length (nonce ++ sealed)) aead.nonce_size ≡ false = ground arith in
      rw
        (
          room,
          long,
          append_assoc nonce sealed rest,
          take_at aead.nonce_size nonce (sealed ++ rest) size,
          drop_at aead.nonce_size nonce (sealed ++ rest) size,
          take_at (length (nonce ++ sealed) - aead.nonce_size) sealed rest (omega arith),
          aead.unseal-seal nonce p,
        )
        refl

  -- What was encrypted is decrypted again, whatever follows it in the file.
  pub decrypt-encrypt :
      (nonce p rest : Bytes) → Fits nonce p → decrypt aead (encrypt aead nonce p ++ rest) ≡ plain p
  unfolding decrypt encrypt drop
  decrypt-encrypt nonce p rest (size, fits) =
      let sealed = nonce ++ aead.seal nonce p in
      let a = length-append nonce (aead.seal nonce p) in
      let b = length-append sealed rest in
      let s = aead.length-seal nonce p in
      let c = length-append (put_uint32 (length sealed)) (sealed ++ rest) in
      let four = length-put_uint32 (length sealed) in
      let joined = append_assoc (put_uint32 (length sealed)) sealed rest in
      let d = ap length joined in
      let whole : ltb (length (encrypt aead nonce p ++ rest)) (length magic + 4 + aead.nonce_size)
          ≡ false =
        ground arith in
      rw (decrypt, whole, joined, uint32-put_uint32 (length sealed) (sealed ++ rest) (omega arith))
        (body-opened nonce p rest size)

  saved-encrypted : (nonce p : Bytes) → is_encrypted (encrypt aead nonce p) ≡ true
  saved-encrypted nonce p =
      subst (λ raw. is_encrypted raw ≡ true) (append-nil (encrypt aead nonce p))
        (encrypt-encrypted nonce p [])

  decrypt-saved : (nonce p : Bytes) → Fits nonce p → decrypt aead (encrypt aead nonce p) ≡ plain p
  decrypt-saved nonce p fits =
      subst (λ raw. decrypt aead raw ≡ plain p) (append-nil (encrypt aead nonce p))
        (decrypt-encrypt nonce p [] fits)

  -- what is done with a file that decrypts
  found :
      (works kept : Bool) (other raw p : Bytes) (disk : Disk)
      → disk.config ≡ some raw
      → is_encrypted raw ≡ true
      → decrypt aead raw ≡ plain p
      → (verify_integrity aead disk ≡ true)
        × (load aead works kept other disk ≡ (read (plain p), disk))
  unfolding load verify_integrity
  found works kept other raw p disk here known e =
      (rw (verify_integrity, here, known, e) refl, rw (load, here, known, e) refl)

  -- after a plain file was replaced
  replaced :
      (works kept : Bool) (nonce raw p : Bytes) (disk : Disk)
      → (migrated aead kept raw (save_encrypted aead works nonce raw disk)).0 ≡ read (plain p)
      → (raw ≡ p)
        × ((migrated aead kept raw (save_encrypted aead works nonce raw disk)).1.config
            ≡ some (encrypt aead nonce raw))
  unfolding save_encrypted
  replaced true true nonce raw p disk h = (cc (h), refl)
  replaced true false nonce raw p disk h = (cc (h), refl)
  replaced false kept nonce raw p disk h = absurd (cc (h))

-- What is saved is loaded again: where saving a text that is not empty succeeds, under a nonce of
-- the right size and with a sealed form of less than 2 ^ 32 bytes, the file passes verification,
-- and a later load reads that text and changes no file.
pub load-save :
    (aead : Aead) (works later kept : Bool) (nonce other p : Bytes) (disk : Disk)
    → (save aead works nonce p disk).0 ≡ true
    → Fits aead nonce p
    → (verify_integrity aead (save aead works nonce p disk).1 ≡ true)
      × (load aead later kept other (save aead works nonce p disk).1
          ≡ (read (plain p), (save aead works nonce p disk).1))
unfolding load save verify_integrity save_encrypted
load-save aead true later kept nonce other [] disk saved fits = absurd (cc (saved))
load-save aead false later kept nonce other [] disk saved fits = absurd (cc (saved))
load-save aead false later kept nonce other (x ∷ p) disk saved fits = absurd (cc (saved))
load-save aead true later kept nonce other (x ∷ p) disk saved fits =
    found aead later kept other (encrypt aead nonce (x ∷ p)) (x ∷ p)
      (record disk { config = some (encrypt aead nonce (x ∷ p)) }) refl
      (saved-encrypted aead nonce (x ∷ p)) (decrypt-saved aead nonce (x ∷ p) fits)

-- A load that reads a text leaves it to the next: the next load reads the same text and changes
-- no file, whether the first found an encrypted file or replaced a plain one, if the nonce has
-- the right size and the sealed form of a plain file less than 2 ^ 32 bytes.
pub load-load :
    (aead : Aead) (works kept later again : Bool) (nonce other p : Bytes) (disk : Disk)
    → (load aead works kept nonce disk).0 ≡ read (plain p)
    → Fits aead nonce p
    → load aead later again other (load aead works kept nonce disk).1
      ≡ (read (plain p), (load aead works kept nonce disk).1)
unfolding load save_encrypted
load-load aead works kept later again nonce other p disk loaded fits =
    elim (Option-cases disk.config) [
      | inl e ↦
          let whole : load aead works kept nonce disk ≡ (absent, disk) = rw (load, e) refl in
          absurd (cc (ap (λ r. r.0) whole, loaded))
      | inr (raw, e) ↦ elim (Bool-cases (is_encrypted raw)) [
        | inl t ↦
            let whole : load aead works kept nonce disk ≡ (read (decrypt aead raw), disk) =
              rw (load, e, t) refl in
            let text : decrypt aead raw ≡ plain p = cc (ap (λ r. r.0) whole, loaded) in
            rw whole (found aead later again other raw p disk e t text).1
        | inr t ↦
            let after = migrated aead kept raw (save_encrypted aead works nonce raw disk) in
            let whole : load aead works kept nonce disk ≡ after = rw (load, e, t) refl in
            let old =
              replaced aead works kept nonce raw p disk (sym (ap (λ r. r.0) whole) ∙ loaded) in
            let file = encrypt aead nonce raw in
            let text =
              subst (λ q. decrypt aead (encrypt aead nonce q) ≡ plain p) (sym old.0)
                (decrypt-saved aead nonce p fits) in
            rw whole
              (found aead later again other file p after.1 old.1 (saved-encrypted aead nonce raw)
                text).1
      ]
    ]

-- Bytes that are appended to a saved file change nothing of what is read and verified, under a
-- nonce of the right size and with a sealed form of less than 2 ^ 32 bytes.
pub load-appended :
    (aead : Aead) (works kept : Bool) (nonce other p rest : Bytes) (disk : Disk)
    → Fits aead nonce p
    → disk.config ≡ some (encrypt aead nonce p ++ rest)
    → (verify_integrity aead disk ≡ true)
      × (load aead works kept other disk ≡ (read (plain p), disk))
unfolding load verify_integrity
load-appended aead works kept nonce other p rest disk fits found_here =
    found aead works kept other (encrypt aead nonce p ++ rest) p disk found_here
      (encrypt-encrypted aead nonce p rest) (decrypt-encrypt aead nonce p rest fits)
