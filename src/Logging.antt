-- ===== src/Logging.antt =====
-- internal/logging/secure.go: the encrypted log of the agent. A record is framed by its length
-- and sealed under a nonce that holds its number.
pub mod Decrypt
pub mod Prefix
pub mod Rotation
pub mod Sanitize
use fyrwall.Base.{
  ℕ, zero, suc, ◌+◌, ◌-◌, ◌*◌, ◌/◌, ◌%◌, ◌^◌, ◌≤◌, ◌<◌, ◌≡◌, refl, Bool, true, false, List, [], ◌∷◌,
  ◌++◌, Option, none, some, arith, length, length-append, ltb, ◌==◌ as nat_eq, ◌||◌, if◌then◌else◌,
}
use fyrwall.Base.Frames.{Bytes, put_uint32, uint32, take, drop, length-put_uint32}
use fyrwall.Sealed.{Aead}

abbrev pub zeros : ℕ → Bytes
zeros zero = []
zeros (suc n) = 0 ∷ zeros n

pub length-zeros : (n : ℕ) → length (zeros n) ≡ n
length-zeros zero = refl
length-zeros (suc n) = omega (arith, length-zeros n)

-- binary.BigEndian.PutUint64
abbrev pub put_uint64 : ℕ → Bytes
put_uint64 n = put_uint32 (n / 2 ^ 32) ++ put_uint32 n

-- append(out, plain...), which a failed authentication leaves out
abbrev pub or_nothing : Option Bytes → Bytes
or_nothing none = []
or_nothing (some plain) = plain

module _ (aead : Aead) where
  -- make([]byte, NonceSize()), with the number of the record in its first eight bytes
  unfoldable pub nonce_of : ℕ → Bytes
  nonce_of seq = put_uint64 seq ++ zeros (aead.nonce_size - 8)

  -- what `EncryptingRotator.Write` hands to the rotator for the record `p`
  unfoldable pub frame : ℕ → Bytes → Bytes
  unfolding nonce_of
  frame seq p =
      let sealed = nonce_of seq ++ aead.seal (nonce_of seq) p in
      put_uint32 (length sealed) ++ sealed

  -- e.seq++, on 64 bits
  abbrev pub next_seq : ℕ → ℕ
  next_seq seq = (seq + 1) % 2 ^ 64

  -- the bytes that a run of writes appends, from the number `seq` on
  unfoldable pub frames : ℕ → List Bytes → Bytes
  frames seq [] = []
  frames seq (p ∷ ps) = frame seq p ++ frames (next_seq seq) ps

  -- what a record adds to the output; one that is too short or fails its authentication is
  -- passed over
  unfoldable pub opened : Bytes → Bytes
  opened rec =
      if ltb (length rec) aead.nonce_size
      then []
      else or_nothing (aead.unseal (take aead.nonce_size rec) (drop aead.nonce_size rec))

  -- The loop of `DecryptFile`, over the bytes from the offset on and the output so far. A step
  -- reads one record; `none` is a run out of fuel.
  unfoldable pub decrypt_loop : ℕ → Bytes → Bytes → Option Bytes
  decrypt_loop zero out raw = none
  decrypt_loop (suc fuel) out raw = elim (uint32 raw) [
    | none ↦ some out
    | some (n, rest) ↦ elim (nat_eq n 0 || ltb (length rest) n) [
      | true ↦ some out
      | false ↦ decrypt_loop fuel (out ++ opened (take n rest)) (drop n rest)
    ]
  ]

  -- raw[:maxBytes], where the file is longer
  abbrev pub bounded : ℕ → Bytes → Bytes
  bounded max_bytes raw = if ltb max_bytes (length raw) then take max_bytes raw else raw

  -- `DecryptFile`, of the bytes of the file; a step takes four bytes at least
  unfoldable pub decrypt_file : ℕ → Bytes → Option Bytes
  decrypt_file max_bytes raw =
      let read = bounded max_bytes raw in decrypt_loop (suc (length read)) [] read

  pub length-nonce_of : (seq : ℕ) → length (nonce_of seq) ≡ aead.nonce_size
  unfolding nonce_of
  length-nonce_of seq =
      let room = aead.nonce_room in
      let z = length-zeros (aead.nonce_size - 8) in
      let hi = length-put_uint32 (seq / 2 ^ 32) in
      let lo = length-put_uint32 seq in
      let ab = length-append (put_uint32 (seq / 2 ^ 32)) (put_uint32 seq) in
      let all = length-append (put_uint64 seq) (zeros (aead.nonce_size - 8)) in omega arith
