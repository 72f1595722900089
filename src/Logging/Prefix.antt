-- ===== src/Logging/Prefix.antt =====
-- internal/logging/secure.go: the records that `DecryptFile` finds in a complete log, in a log of
-- several runs of the program, and in one that was torn while it was written.
use fyrwall.Base.{
  ℕ, zero, suc, ◌-◌, ◌≤◌, ◌<◌, ◌≡◌, refl, sym, true, false, map, List, [], ◌∷◌, ◌++◌, none, some,
  arith, length, length-append, leb, ltb, if◌then◌else◌, ◌==◌ as nat_eq, ◌||◌, Bool-cases, inl, inr,
  All,
}
use mathlib.Core.List.{append_assoc, append-nil}
use fyrwall.Base.Frames.{
  Bytes, put_uint32, uint32, take, concat, uint32-put_uint32, uint32_short, take-le, take_all,
  take-nil, take_short, take_long, length-take, length-put_uint32,
}
use fyrwall.Sealed.{Aead}
use fyrwall.Logging.{frame, frames, next_seq, decrypt_loop, decrypt_file, bounded}
use fyrwall.Logging.Decrypt.{Fits, sealed, length-sealed, length-frame, decrypt_loop-frame}

module _ (aead : Aead) where
  -- the loop reads `plain` out of `raw`
  abbrev pub Reads : Bytes → Bytes → Type 0
  Reads raw plain =
      (fuel : ℕ) (out : Bytes)
      → length raw < fuel
      → decrypt_loop aead fuel out raw ≡ some (out ++ plain)

  reads-nil : Reads [] []
  unfolding decrypt_loop uint32
  reads-nil zero out h = absurd (omega arith)
  reads-nil (suc fuel) out h = rw (append-nil out) refl

  reads-frame :
      (seq : ℕ) (p rest q : Bytes)
      → Fits aead p
      → Reads rest q
      → Reads (frame aead seq p ++ rest) (p ++ q)
  reads-frame seq p rest q fits reads zero out h = absurd (omega arith)
  reads-frame seq p rest q fits reads (suc fuel) out h =
      let a = length-append (frame aead seq p) rest in
      let b = length-frame aead seq p in
      rw (decrypt_loop-frame aead fuel seq out p rest fits, reads fuel (out ++ p) (omega arith))
        (rw (append_assoc out p q) refl)

  reads-frames :
      (seq : ℕ) (ps : List Bytes) (rest q : Bytes)
      → All (Fits aead) ps
      → Reads rest q
      → Reads (frames aead seq ps ++ rest) (concat ps ++ q)
  unfolding frames concat
  reads-frames seq [] rest q _ reads = reads
  reads-frames seq (p ∷ ps) rest q (fits, all) reads =
      rw
        (
          append_assoc (frame aead seq p) (frames aead (next_seq aead seq) ps) rest,
          append_assoc p (concat ps) q,
        )
        (reads-frame seq p (frames aead (next_seq aead seq) ps ++ rest) (concat ps ++ q) fits
          (reads-frames (next_seq aead seq) ps rest q all reads))

  -- the file after several runs of the program, each of which numbers its records from 0
  abbrev pub logs : List (List Bytes) → Bytes
  logs runs = concat (map (frames aead 0) runs)

  reads-logs :
      (runs : List (List Bytes))
      → All (All (Fits aead)) runs
      → Reads (logs runs) (concat (map concat runs))
  unfolding concat
  reads-logs [] _ = reads-nil
  reads-logs (ps ∷ runs) (fits, all) =
      reads-frames 0 ps (logs runs) (concat (map concat runs)) fits (reads-logs runs all)

  -- the records that lie wholly in the first k bytes
  abbrev pub whole : ℕ → ℕ → List Bytes → List Bytes
  whole k seq [] = []
  whole k seq (p ∷ ps) =
      let rest = whole (k - length (frame aead seq p)) (next_seq aead seq) ps in
      if leb (length (frame aead seq p)) k then p ∷ rest else []

  stops : (raw : Bytes) → uint32 raw ≡ none → Reads raw []
  unfolding decrypt_loop
  stops raw e zero out h = absurd (omega arith)
  stops raw e (suc fuel) out h = rw (decrypt_loop, e, append-nil out) refl

  stops_torn :
      (raw rest : Bytes) (n : ℕ) → uint32 raw ≡ some (n, rest) → length rest < n → Reads raw []
  unfolding decrypt_loop
  stops_torn raw rest n e short zero out h = absurd (omega arith)
  stops_torn raw rest n e short (suc fuel) out h =
      let torn : (nat_eq n 0 || ltb (length rest) n) ≡ true = ground arith in
      rw (decrypt_loop, e, torn, append-nil out) refl

  -- a part of a frame is read as nothing
  reads_torn :
      (k seq : ℕ) (p : Bytes)
      → Fits aead p
      → k < length (frame aead seq p)
      → Reads (take k (frame aead seq p)) []
  unfolding frame
  reads_torn k seq p fits short = elim (Bool-cases (ltb k 4)) [
    | inl t ↦
        let l = length-take k (frame aead seq p) (omega arith) in
        stops (take k (frame aead seq p)) (uint32_short (take k (frame aead seq p)) (ground arith))
    | inr t ↦
        let l = length-frame aead seq p in
        let s = length-sealed aead seq p in
        let four = length-put_uint32 (length (sealed aead seq p)) in
        let cut_at = length-take (k - 4) (sealed aead seq p) (ground arith) in
        rw
          (
            take_long k (put_uint32 (length (sealed aead seq p))) (sealed aead seq p)
                (ground arith),
            four,
          )
          (stops_torn (put_uint32 (length (sealed aead seq p)) ++ take (k - 4) (sealed aead seq p))
            (take (k - 4) (sealed aead seq p)) (length (sealed aead seq p))
            (uint32-put_uint32 (length (sealed aead seq p)) (take (k - 4) (sealed aead seq p))
              (omega arith))
            (ground arith))
  ]

  reads-take :
      (k seq : ℕ) (ps : List Bytes)
      → All (Fits aead) ps
      → Reads (take k (frames aead seq ps)) (concat (whole k seq ps))
  unfolding frames concat
  reads-take k seq [] fits = rw (take-nil k) reads-nil
  reads-take k seq (p ∷ ps) (fits, all) =
      let later = frames aead (next_seq aead seq) ps in
      elim (Bool-cases (leb (length (frame aead seq p)) k)) [
        | inl t ↦
            let left = k - length (frame aead seq p) in
            rw (t, take_long k (frame aead seq p) later (ground arith))
              (reads-frame seq p (take left later) (concat (whole left (next_seq aead seq) ps)) fits
                (reads-take left (next_seq aead seq) ps all))
        | inr t ↦
            rw (t, take_short k (frame aead seq p) later (ground arith))
              (reads_torn k seq p fits (ground arith))
      ]

bounded-take : (aead : Aead) (k : ℕ) (raw : Bytes) → bounded aead k raw ≡ take k raw
bounded-take aead k raw = elim (Bool-cases (ltb k (length raw))) [
  | inl t ↦ rw t refl
  | inr t ↦ rw t (sym (take_all k raw (ground arith)))
]

bounded_again : (aead : Aead) (k : ℕ) (raw : Bytes) → bounded aead k (take k raw) ≡ take k raw
bounded_again aead k raw =
    let l = take-le k raw in
    let short : ltb k (length (take k raw)) ≡ false = ground arith in rw short refl

-- A log that runs of the program wrote one after the other, each numbering its records from 0,
-- is read back as the texts of all its records in order, if each fits a length of 32 bits and
-- the file is no longer than the bound of the read.
pub decrypt_file-logs :
    (aead : Aead) (max_bytes : ℕ) (runs : List (List Bytes))
    → All (All (Fits aead)) runs
    → length (logs aead runs) ≤ max_bytes
    → decrypt_file aead max_bytes (logs aead runs) ≡ some (concat (map concat runs))
unfolding decrypt_file
decrypt_file-logs aead max_bytes runs fits h =
    let short : ltb max_bytes (length (logs aead runs)) ≡ false = ground arith in
    rw short (reads-logs aead runs fits (suc (length (logs aead runs))) [] (omega arith))

-- If a run wrote its records, and the file then lost all but its first k bytes, or is longer than
-- the bound k of the read, exactly the records that lie wholly in those bytes are read, if each
-- fits a length of 32 bits.
pub decrypt_file-torn :
    (aead : Aead) (k seq : ℕ) (ps : List Bytes)
    → All (Fits aead) ps
    → (decrypt_file aead k (take k (frames aead seq ps)) ≡ some (concat (whole aead k seq ps)))
      × (decrypt_file aead k (frames aead seq ps) ≡ some (concat (whole aead k seq ps)))
unfolding decrypt_file
decrypt_file-torn aead k seq ps fits =
    let cut = take k (frames aead seq ps) in
    let read = reads-take aead k seq ps fits (suc (length cut)) [] (omega arith) in
    (
      rw (bounded_again aead k (frames aead seq ps)) read,
      rw (bounded-take aead k (frames aead seq ps)) read,
    )
