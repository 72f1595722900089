-- ===== src/Tests/Sealing.antt =====
-- A sealing that prefixes a constant tag, at which the encrypted files are tried.
use fyrwall.Base.{
  ◌+◌, ◌≡◌, refl, Option, none, some, [], ◌∷◌, arith, length, ◌==◌ as nat_eq, if◌then◌else◌,
}
use fyrwall.Base.Frames.{Bytes}
use fyrwall.Sealed.{Aead}

abbrev pub open_tagged : Bytes → Bytes → Option Bytes
open_tagged nonce [] = none
open_tagged nonce (x ∷ xs) = if nat_eq x 7 then some xs else none

pub length-tagged : (nonce plain : Bytes) → length (7 ∷ plain) ≡ length plain + 1
length-tagged nonce plain = omega arith

abbrev pub tagged : Aead
tagged = record {
  nonce_size = 12;
  overhead = 1;
  seal = λ nonce plain. 7 ∷ plain;
  unseal = open_tagged;
  unseal-seal = λ nonce plain. refl;
  length-seal = length-tagged;
  nonce_room = omega arith;
}

abbrev pub nonce : Bytes
nonce = 1 ∷ 2 ∷ 3 ∷ 4 ∷ 5 ∷ 6 ∷ 7 ∷ 8 ∷ 9 ∷ 10 ∷ 11 ∷ 12 ∷ []
