-- ===== src/Logging/Rotation.antt =====
-- internal/logging/secure.go: the rotation of a log by size and the retention of its rotated
-- files by number and age. Instants and durations are nanoseconds; what the operating system
-- answers comes with each call.
pub mod Bound
use text.Mathlib.Text.{◌==◌}
use fyrwall.Base.{
  ℕ, zero, suc, ◌+◌, ◌-◌, ◌*◌, ◌^◌, ◌≤◌, ◌<◌, String, ◌≡◌, refl, Bool, true, false, not, ◌&&◌,
  Option, none, some, List, [], map, ◌∷◌, ◌++◌, arith, filter, length, ltb, leb, if◌then◌else◌,
  Bool-cases, inl, inr,
}
use fyrwall.Base.Text.Fold.{has_prefix}
use Prim.Native.Nat.{min}
use fyrwall.Base.Frames.{Bytes, take, drop, drop-nil}

-- `RetentionPolicy`, without the interval of the janitor and the flag that nothing reads
pub record RetentionPolicy : Type 0 where
  pub max_bytes : ℕ
  pub max_backups : ℕ
  pub max_age_days : ℕ

-- `DefaultPolicy`
abbrev pub default_policy : RetentionPolicy
default_policy = record { max_bytes = 50 * 2 ^ 20; max_backups = 5; max_age_days = 30 }

-- An entry of the log's directory, other than the active file; `mod` is none where `Info` fails.
pub record Entry : Type 0 where
  pub name : String
  pub is_dir : Bool
  pub mod_time : Option ℕ
  pub content : Bytes

-- a rotated file, as `enforceLocked` lists it
pub record Rotated : Type 0 where
  pub entry : Entry
  pub mod_time : ℕ

abbrev pub is_rotated : String → Entry → Bool
is_rotated base e = not e.is_dir && has_prefix e.name (Prim.Native.String.◌++◌ base ".")

abbrev pub with_time : Entry → Option ℕ → List Rotated → List Rotated
with_time e none rest = rest
with_time e (some t) rest = record { entry = e; mod_time = t } ∷ rest

abbrev pub list_rotated : String → List Entry → List Rotated
list_rotated base [] = []
list_rotated base (e ∷ es) =
    let rest = list_rotated base es in
    if is_rotated base e then with_time e e.mod_time rest else rest

-- the entries that the list leaves out, and that stay
abbrev pub unless_timed : Entry → Option ℕ → List Entry → List Entry
unless_timed e none rest = e ∷ rest
unless_timed e (some t) rest = rest

abbrev pub list_others : String → List Entry → List Entry
list_others base [] = []
list_others base (e ∷ es) =
    let rest = list_others base es in
    if is_rotated base e then unless_timed e e.mod_time rest else e ∷ rest

-- sort.Slice by the time of modification, oldest first
abbrev pub insert_rotated : Rotated → List Rotated → List Rotated
insert_rotated o [] = o ∷ []
insert_rotated o (x ∷ xs) =
    let rest = insert_rotated o xs in if leb o.mod_time x.mod_time then o ∷ x ∷ xs else x ∷ rest

abbrev pub oldest_first : List Rotated → List Rotated
oldest_first [] = []
oldest_first (o ∷ os) = insert_rotated o (oldest_first os)

module _ (policy : RetentionPolicy) (now : ℕ) where
  abbrev pub day : ℕ
  day = 24 * 60 * 60 * 10 ^ 9

  -- o.mod.Before(cutoff)
  abbrev pub too_old : Rotated → Bool
  too_old o = ltb (o.mod_time + policy.max_age_days * day) now

  -- the loop of `enforceLocked`: the files that stay, where `removes` says of a name whether
  -- os.Remove succeeds; the count goes down in either case
  unfoldable pub enforce_loop : (String → Bool) → ℕ → List Rotated → List Rotated
  enforce_loop removes keep [] = []
  enforce_loop removes keep (o ∷ os) =
      let rest = enforce_loop removes keep os in
      let others = enforce_loop removes (keep - 1) os in
      let fewer = if removes o.entry.name then others else o ∷ others in
      if ltb policy.max_backups keep then fewer else if too_old o then fewer else o ∷ rest

  abbrev pub AllRemoved : (String → Bool) → Type 0
  AllRemoved removes = (name : String) → removes name ≡ true

  loop_kept :
      (removes : String → Bool) (all : AllRemoved removes) (keep : ℕ) (os : List Rotated)
      → enforce_loop removes keep os
        ≡ filter (λ o. not (too_old o)) (drop (keep - policy.max_backups) os)
  unfolding enforce_loop filter drop
  loop_kept removes all keep [] = rw (drop-nil (keep - policy.max_backups)) refl
  loop_kept removes all keep (o ∷ os) = elim (Bool-cases (ltb policy.max_backups keep)) [
    | inl t ↦
        let step : keep - policy.max_backups ≡ suc (keep - 1 - policy.max_backups) = ground arith in
        rw (t, all o.entry.name, step) (loop_kept removes all (keep - 1) os)
    | inr t ↦
        let none_over : keep - policy.max_backups ≡ 0 = ground arith in
        let one_less : keep - 1 - policy.max_backups ≡ 0 = ground arith in
        let same = loop_kept removes all keep os in
        let fewer = loop_kept removes all (keep - 1) os in
        let here = rw none_over at same in
        let less = rw one_less at fewer in
        rw (t, all o.entry.name, none_over) (ground (arith, here, less))
  ]

  -- `enforceLocked`, on the directory of the log
  unfoldable pub enforce : (String → Bool) → String → List Entry → List Entry
  enforce removes base entries =
      let olds = oldest_first (list_rotated base entries) in
      list_others base entries ++ map (λ o. o.entry) (enforce_loop removes (length olds) olds)

-- The state of a `Rotator` that is not closed, and the files on the disk. `file` says whether the
-- active file is open.
pub record Rotator : Type 0 where
  pub file : Bool
  pub size : ℕ
  pub active : Bytes
  pub entries : List Entry

-- What the system answers during one call: the time, whether Rename succeeds, what Info then tells
-- of the time of modification of the renamed file, whether the new file opens, whether the
-- directory can be listed, of which names Remove succeeds, and how many bytes the write takes.
pub record Answers : Type 0 where
  pub now : ℕ
  pub stamp : String
  pub renamed : Bool
  pub moved_time : Option ℕ
  pub opened : Bool
  pub listed : Bool
  pub removes : String → Bool
  pub taken : ℕ

module _ (policy : RetentionPolicy) (base : String) (answers : Answers) where
  -- os.Rename: the active file becomes an entry, whose time of modification stays
  abbrev pub rename_active : Rotator → Rotator
  rename_active r =
      if answers.renamed
      then record r {
        active = [];
        entries =
            record {
              name = Prim.Native.String.◌++◌ base (Prim.Native.String.◌++◌ "." answers.stamp);
              is_dir = false;
              mod_time = answers.moved_time;
              content = r.active;
            }
            ∷ r.entries;
      }
      else r

  abbrev pub enforced : Rotator → Rotator
  enforced r =
      if answers.listed
      then record r { entries = enforce policy answers.now answers.removes base r.entries }
      else r

  -- `rotateLocked`
  unfoldable pub rotate : Rotator → Rotator
  rotate r =
      let moved = rename_active r in
      if answers.opened
      then enforced (record moved { file = true; size = 0 })
      else record moved { file = false }

  -- r.file.Write(p), and the count of the bytes taken
  abbrev pub append : Bytes → Rotator → (ℕ × Bool) × Rotator
  append p r =
      if r.file
      then (
        (min answers.taken (length p), leb (length p) answers.taken),
        record r {
          size = r.size + min answers.taken (length p);
          active = r.active ++ take (min answers.taken (length p)) p;
        },
      )
      else ((0, false), r)

  -- `Rotator.Write`: the number of bytes written, whether the error is nil, and the next state
  unfoldable pub write : Bytes → Rotator → (ℕ × Bool) × Rotator
  unfolding rotate
  write p r =
      if r.file
      then append p (if ltb policy.max_bytes (r.size + length p) then rotate r else r)
      else ((0, false), r)

-- Where every removal succeeds, of the rotated files, oldest first, exactly those stay that are
-- among the `max_backups` newest and are not older than the age allowed, in the order they had.
pub enforce_loop-newest :
    (policy : RetentionPolicy) (now : ℕ) (removes : String → Bool) (olds : List Rotated)
    → AllRemoved policy now removes
    → enforce_loop policy now removes (length olds) olds
      ≡ filter (λ o. not (too_old policy now o)) (drop (length olds - policy.max_backups) olds)
enforce_loop-newest policy now removes olds all =
    loop_kept policy now removes all (length olds) olds
