-- ===== src/Logging/Rotation/Bound.antt =====
-- internal/logging/secure.go: the bytes that a log and its rotated files take on the disk.
use fyrwall.Base.{
  ℕ, ◌+◌, ◌-◌, ◌≤◌, String, ◌≡◌, refl, sym, Bool, true, false, not, Option, none, some, List, [],
  map, ◌∷◌, ◌++◌, arith, filter, length, length-append, ltb, leb, Bool-cases, Option-cases, inl,
  inr, All, either,
}
use Prim.Native.Nat.{min}
use fyrwall.Base.Frames.{Bytes, take, drop, length-drop, length-take}
use fyrwall.Logging.Rotation.{
  RetentionPolicy, Entry, Rotated, Rotator, Answers, with_time, is_rotated, list_rotated,
  list_others, insert_rotated, oldest_first, enforce_loop, enforce, AllRemoved, too_old, rotate,
  append, write, enforce_loop-newest,
}

module _ (policy : RetentionPolicy) (base : String) where
  abbrev pub IsSmall : Rotated → Type 0
  IsSmall o = length o.entry.content ≤ policy.max_bytes

  -- The size kept in memory is the one of the file, which keeps to the budget, as each rotated
  -- file does, and there are at most `max_backups` of them.
  abbrev pub IsBounded : Rotator → Type 0
  IsBounded r =
      (r.size ≡ length r.active)
      × (r.size ≤ policy.max_bytes)
      × All IsSmall (list_rotated base r.entries)
      × (length (list_rotated base r.entries) ≤ policy.max_backups)

  list_rotated-append :
      (es fs : List Entry)
      → list_rotated base (es ++ fs) ≡ list_rotated base es ++ list_rotated base fs
  list_rotated-append [] fs = refl
  list_rotated-append (e ∷ es) fs =
      rw (list_rotated-append es fs) (elim (Bool-cases (is_rotated base e)) [
        | inl t ↦
            rw t (elim (Option-cases e.mod_time) [ inl n ↦ rw n refl | inr (m, s) ↦ rw s refl ])
        | inr t ↦ rw t refl
      ])

  list_rotated-others : (es : List Entry) → list_rotated base (list_others base es) ≡ []
  list_rotated-others [] = refl
  list_rotated-others (e ∷ es) = elim (Bool-cases (is_rotated base e)) [
    | inl t ↦ rw t (elim (Option-cases e.mod_time) [
      | inl n ↦ rw n (rw t (list_rotated-others es))
      | inr (m, s) ↦ rw s (list_rotated-others es)
    ])
    | inr t ↦ rw t (rw t (list_rotated-others es))
  ]

  abbrev Listed : Rotated → Type 0
  Listed o = (is_rotated base o.entry ≡ true) × (o.entry.mod_time ≡ some o.mod_time)

  list_rotated-Listed : (es : List Entry) → All Listed (list_rotated base es)
  list_rotated-Listed [] = tt
  list_rotated-Listed (e ∷ es) = elim (Bool-cases (is_rotated base e)) [
    | inl t ↦ rw t (elim (Option-cases e.mod_time) [
      | inl n ↦ rw n (list_rotated-Listed es)
      | inr (m, s) ↦ rw s ((t, refl), list_rotated-Listed es)
    ])
    | inr t ↦ rw t (list_rotated-Listed es)
  ]

  list_rotated-entries :
      (os : List Rotated) → All Listed os → list_rotated base (map (λ o. o.entry) os) ≡ os
  list_rotated-entries [] _ = refl
  list_rotated-entries (o ∷ os) ((r, t), all) = rw (r, t) (cc (list_rotated-entries os all))

  module _ (P : Rotated → Type 0) where
    insert_rotated-All :
        (o : Rotated) (os : List Rotated) → P o → All P os → All P (insert_rotated o os)
    insert_rotated-All o [] po _ = (po, tt)
    insert_rotated-All o (x ∷ xs) po (px, all) =
        either (All P) (leb o.mod_time x.mod_time) (po, (px, all))
          (px, insert_rotated-All o xs po all)

    oldest_first-All : (os : List Rotated) → All P os → All P (oldest_first os)
    oldest_first-All [] _ = tt
    oldest_first-All (o ∷ os) (po, all) =
        insert_rotated-All o (oldest_first os) po (oldest_first-All os all)

    enforce_loop-All :
        (now : ℕ) (removes : String → Bool) (keep : ℕ) (os : List Rotated)
        → All P os
        → All P (enforce_loop policy now removes keep os)
    unfolding enforce_loop
    enforce_loop-All now removes keep [] _ = tt
    enforce_loop-All now removes keep (o ∷ os) (po, all) =
        let others = enforce_loop-All now removes (keep - 1) os all in
        let fewer = either (All P) (removes o.entry.name) others (po, others) in
        either (All P) (ltb policy.max_backups keep) fewer (
          either (All P) (too_old policy now o) fewer
            (po, enforce_loop-All now removes keep os all))

  length-filter : (p : Rotated → Bool) (os : List Rotated) → length (filter p os) ≤ length os
  unfolding filter
  length-filter p [] = omega arith
  length-filter p (o ∷ os) = ground (arith, length-filter p os)

  abbrev kept : ℕ → (String → Bool) → List Entry → List Rotated
  kept now removes es =
      let olds = oldest_first (list_rotated base es) in
      enforce_loop policy now removes (length olds) olds

  list_rotated-enforce :
      (now : ℕ) (removes : String → Bool) (es : List Entry)
      → list_rotated base (enforce policy now removes base es) ≡ kept now removes es
  unfolding enforce
  list_rotated-enforce now removes es =
      let olds = oldest_first (list_rotated base es) in
      let listed = oldest_first-All Listed (list_rotated base es) (list_rotated-Listed es) in
      let stay = enforce_loop-All Listed now removes (length olds) olds listed in
      rw
        (
          list_rotated-append (list_others base es) (map (λ o. o.entry) (kept now removes es)),
          list_rotated-others es,
        )
        (list_rotated-entries (kept now removes es) stay)

  length-kept :
      (now : ℕ) (removes : String → Bool) (es : List Entry)
      → AllRemoved policy now removes
      → length (kept now removes es) ≤ policy.max_backups
  length-kept now removes es all =
      let olds = oldest_first (list_rotated base es) in
      let newest = drop (length olds - policy.max_backups) olds in
      let f = length-filter (λ o. not (too_old policy now o)) newest in
      let d = length-drop (length olds - policy.max_backups) olds in
      rw (enforce_loop-newest policy now removes olds all) (omega arith)

  timed-IsSmall :
      (e : Entry) (t : Option ℕ) (os : List Rotated)
      → length e.content ≤ policy.max_bytes
      → All IsSmall os
      → All IsSmall (with_time e t os)
  timed-IsSmall e none os h small = small
  timed-IsSmall e (some t) os h small = (h, small)

  enforce-IsSmall :
      (now : ℕ) (removes : String → Bool) (e : Entry) (es : List Entry)
      → length e.content ≤ policy.max_bytes
      → All IsSmall (list_rotated base es)
      → All IsSmall (list_rotated base (enforce policy now removes base (e ∷ es)))
  enforce-IsSmall now removes e es h small =
      let listed =
        either (All IsSmall) (is_rotated base e)
          (timed-IsSmall e e.mod_time (list_rotated base es) h small) small in
      let olds = oldest_first (list_rotated base (e ∷ es)) in
      rw (list_rotated-enforce now removes (e ∷ es)) (
        enforce_loop-All IsSmall now removes (length olds) olds
          (oldest_first-All IsSmall (list_rotated base (e ∷ es)) listed))

  module _ (answers : Answers) where
    append-IsBounded :
        (p : Bytes) (r : Rotator)
        → IsBounded r
        → r.size + length p ≤ policy.max_bytes
        → IsBounded (append policy base answers p r).1
    append-IsBounded p r (exact, fits, small, few) room =
        let n = min answers.taken (length p) in
        let grown : length (r.active ++ take n p) ≡ r.size + n =
          rw (length-append r.active (take n p), length-take n p (omega arith), exact) refl in
        either (λ (s : (ℕ × Bool) × Rotator). IsBounded s.1) r.file
          (sym grown, omega arith, small, few) (exact, fits, small, few)

    -- a rotation whose calls succeed leaves an empty active file
    rotate-IsBounded :
        (r : Rotator)
        → answers.renamed ≡ true
        → answers.opened ≡ true
        → answers.listed ≡ true
        → AllRemoved policy answers.now answers.removes
        → IsBounded r
        → IsBounded (rotate policy base answers r) × ((rotate policy base answers r).size ≡ 0)
    unfolding rotate
    rotate-IsBounded r renamed opened listed all (exact, fits, small, few) =
        let e : Entry = record {
          name = Prim.Native.String.◌++◌ base (Prim.Native.String.◌++◌ "." answers.stamp);
          is_dir = false;
          mod_time = answers.moved_time;
          content = r.active;
        } in
        rw (opened, renamed, listed)
          (
            (
              refl,
              omega arith,
              enforce-IsSmall answers.now answers.removes e r.entries (omega arith) small,
              rw (list_rotated-enforce answers.now answers.removes (e ∷ r.entries))
                  (length-kept answers.now answers.removes (e ∷ r.entries) all),
            ),
            refl,
          )

-- Writing keeps the bounds of the disk: where the size in memory is that of the active file, this
-- file and each rotated one take at most `max_bytes`, and at most `max_backups` rotated files are
-- listed, the same holds after a write of at most `max_bytes`, if renaming, opening and listing
-- succeed and every removal does, however much of the write the disk takes.
pub write-IsBounded :
    (policy : RetentionPolicy) (base : String) (answers : Answers) (p : Bytes) (r : Rotator)
    → answers.renamed ≡ true
    → answers.opened ≡ true
    → answers.listed ≡ true
    → AllRemoved policy answers.now answers.removes
    → length p ≤ policy.max_bytes
    → IsBounded policy base r
    → IsBounded policy base (write policy base answers p r).1
unfolding write
write-IsBounded policy base answers p r renamed opened listed all short ok =
    let after = rotate-IsBounded policy base answers r renamed opened listed all ok in
    either (λ (s : (ℕ × Bool) × Rotator). IsBounded policy base s.1) r.file
      (elim (Bool-cases (ltb policy.max_bytes (r.size + length p))) [
        | inl t ↦ rw t (
            append-IsBounded policy base answers p (rotate policy base answers r) after.0
              (omega (arith, after.1)))
        | inr t ↦ rw t (append-IsBounded policy base answers p r ok (ground arith))
      ])
      ok
