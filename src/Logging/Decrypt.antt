-- ===== src/Logging/Decrypt.antt =====
-- internal/logging/secure.go: what `DecryptFile` reads of a log that `EncryptingRotator.Write`
-- wrote, and why its loop ends.
use fyrwall.Base.{
  ℕ, zero, suc, ◌+◌, ◌^◌, ◌<◌, ◌≡◌, refl, false, [], ◌++◌, some, arith, length, length-append, ltb,
  ◌==◌ as nat_eq, ◌||◌, Bool-cases, Option-cases, inl, inr,
}
use mathlib.Core.List.{append_assoc}
use fyrwall.Base.Frames.{
  Bytes, put_uint32, uint32, take, drop, length-put_uint32, uint32-put_uint32, uint32-lt, take_at,
  drop_at, length-drop,
}
use fyrwall.Sealed.{Aead}
use fyrwall.Logging.{nonce_of, frame, opened, decrypt_loop, decrypt_file, bounded, length-nonce_of}

module _ (aead : Aead) where
  -- a record whose sealed form has a length of 32 bits
  abbrev pub Fits : Bytes → Type 0
  Fits p = aead.nonce_size + (length p + aead.overhead) < 2 ^ 32

  abbrev pub sealed : ℕ → Bytes → Bytes
  sealed seq p = nonce_of aead seq ++ aead.seal (nonce_of aead seq) p

  pub length-sealed :
      (seq : ℕ) (p : Bytes) → length (sealed seq p) ≡ aead.nonce_size + (length p + aead.overhead)
  length-sealed seq p =
      let n = length-nonce_of aead seq in
      let s = aead.length-seal (nonce_of aead seq) p in
      let a = length-append (nonce_of aead seq) (aead.seal (nonce_of aead seq) p) in omega arith

  pub opened-sealed : (seq : ℕ) (p : Bytes) → opened aead (sealed seq p) ≡ p
  unfolding opened
  opened-sealed seq p =
      let n = length-nonce_of aead seq in
      let body = aead.seal (nonce_of aead seq) p in
      let l = length-sealed seq p in
      let long : ltb (length (sealed seq p)) aead.nonce_size ≡ false = ground arith in
      rw
        (
          long,
          take_at aead.nonce_size (nonce_of aead seq) body n,
          drop_at aead.nonce_size (nonce_of aead seq) body n,
          aead.unseal-seal (nonce_of aead seq) p,
        )
        refl

  uint32-frame :
      (seq : ℕ) (p rest : Bytes)
      → Fits p
      → uint32 (frame aead seq p ++ rest) ≡ some (length (sealed seq p), sealed seq p ++ rest)
  unfolding frame
  uint32-frame seq p rest fits =
      let l = length-sealed seq p in
      rw (append_assoc (put_uint32 (length (sealed seq p))) (sealed seq p) rest)
        (uint32-put_uint32 (length (sealed seq p)) (sealed seq p ++ rest) (omega arith))

  -- one step reads one frame
  pub decrypt_loop-frame :
      (fuel seq : ℕ) (out p rest : Bytes)
      → Fits p
      → decrypt_loop aead (suc fuel) out (frame aead seq p ++ rest)
        ≡ decrypt_loop aead fuel (out ++ p) rest
  unfolding decrypt_loop
  decrypt_loop-frame fuel seq out p rest fits =
      let l = length-sealed seq p in
      let room = aead.nonce_room in
      let a = length-append (sealed seq p) rest in
      let whole : (nat_eq (length (sealed seq p)) 0
            || ltb (length (sealed seq p ++ rest)) (length (sealed seq p)))
          ≡ false =
        ground arith in
      rw
        (
          decrypt_loop,
          uint32-frame seq p rest fits,
          whole,
          take_at (length (sealed seq p)) (sealed seq p) rest refl,
          drop_at (length (sealed seq p)) (sealed seq p) rest refl,
          opened-sealed seq p,
        )
        refl

  pub length-frame : (seq : ℕ) (p : Bytes) → length (frame aead seq p) ≡ 4 + length (sealed seq p)
  unfolding frame
  length-frame seq p =
      let a = length-append (put_uint32 (length (sealed seq p))) (sealed seq p) in
      let b = length-put_uint32 (length (sealed seq p)) in omega arith

  -- With fuel above the number of bytes the loop comes to its end.
  loop_ends :
      (fuel : ℕ) (out raw : Bytes)
      → length raw < fuel
      → (read : Bytes) × (decrypt_loop aead fuel out raw ≡ some read)
  unfolding decrypt_loop
  loop_ends zero out raw h = absurd (omega arith)
  loop_ends (suc fuel) out raw h = elim (Option-cases (uint32 raw)) [
    | inl e ↦ rw (decrypt_loop, e) (out, refl)
    | inr ((n, rest), e) ↦
        rw (decrypt_loop, e)
          (elim (Bool-cases (nat_eq n 0 || ltb (length rest) n)) [
            | inl t ↦ rw t (out, refl)
            | inr t ↦ rw t (
                let shorter = uint32-lt raw rest n e in
                let dropped = length-drop n rest in
                loop_ends fuel (out ++ opened aead (take n rest)) (drop n rest) (omega arith))
          ])
  ]

-- The loop of `DecryptFile` ends on every file: each step takes four bytes at least.
pub decrypt_file-ends :
    (aead : Aead) (max_bytes : ℕ) (raw : Bytes)
    → (read : Bytes) × (decrypt_file aead max_bytes raw ≡ some read)
unfolding decrypt_file
decrypt_file-ends aead max_bytes raw =
    loop_ends aead (suc (length (bounded aead max_bytes raw))) [] (bounded aead max_bytes raw)
      (omega arith)
