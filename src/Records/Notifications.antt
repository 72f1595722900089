-- ===== src/Records/Notifications.antt =====
-- internal/database/repos.go: notifications, one row for each fingerprint. An instant is a number
-- of seconds, as the stored text is; the identifier of a new row is given.
use text.Mathlib.Text.{◌==◌}
use text.Mathlib.TextEquality.{eq_iff}
use fyrwall.Base.{
  ℕ, ◌+◌, ◌<◌, String, ◌≡◌, refl, ap, Bool, true, false, not, ◌&&◌, ◌||◌, Option, none, some, List,
  [], ◌∷◌, arith, count_if, filter, leb, ltb, ◌==◌ as nat_eq, if◌then◌else◌, Bool-cases, inl, inr,
}
use fyrwall.Fleet.Tables.{select, update, count_if-none}

pub record Notification : Type 0 where
  pub id : String
  pub code : String
  pub severity : String
  pub category : String
  pub component : String
  pub summary : String
  pub details : String
  pub remediation : String
  pub fingerprint : String
  pub first_seen : ℕ
  pub last_seen : ℕ
  pub occurrences : ℕ
  pub resolved : Bool
  pub resolved_at : Option ℕ
  pub read : Bool

abbrev pub has_fingerprint : String → Notification → Bool
has_fingerprint f n = n.fingerprint == f

-- the row that is inserted
unfoldable pub fresh : ℕ → String → Notification → Notification
fresh now id n = record n {
  id = id;
  first_seen = now;
  last_seen = now;
  occurrences = 1;
  resolved = false;
  resolved_at = none;
  read = false;
}

-- ON CONFLICT(fingerprint) DO UPDATE
unfoldable pub seen_again : ℕ → Notification → Notification → Notification
seen_again now n old = record old {
  last_seen = now;
  occurrences = old.occurrences + 1;
  severity = n.severity;
  summary = n.summary;
  details = n.details;
  remediation = n.remediation;
}

abbrev pub insert_or_update :
    ℕ → String → Notification → List Notification → Option Notification → List Notification
insert_or_update now id n rows none = fresh now id n ∷ rows
insert_or_update now id n rows (some old) =
    update (has_fingerprint n.fingerprint) (seen_again now n) rows

-- `Upsert`
unfoldable pub upsert : ℕ → String → Notification → List Notification → List Notification
upsert now id n rows = insert_or_update now id n rows (select (has_fingerprint n.fingerprint) rows)

-- `Resolve`
abbrev pub is_active : String → Notification → Bool
is_active f n = n.fingerprint == f && not n.resolved

abbrev pub resolve_row : ℕ → Notification → Notification
resolve_row now n = record n { resolved = true; resolved_at = some now }

unfoldable pub resolve : ℕ → String → List Notification → List Notification
resolve now f rows = update (is_active f) (resolve_row now) rows

-- `MarkRead`
abbrev pub set_read : Bool → Notification → Notification
set_read read n = record n { read = read }

unfoldable pub mark_read : String → Bool → List Notification → List Notification
mark_read id read rows = update (λ n. n.id == id) (set_read read) rows

-- CASE severity
abbrev pub severity_rank : String → ℕ
severity_rank s =
    if s == "critical" then 0 else if s == "error" then 1 else if s == "warning" then 2 else 3

-- ORDER BY the rank, then first_seen_at DESC; the order of rows that agree in both is not fixed
abbrev pub comes_first : Notification → Notification → Bool
comes_first n m =
    ltb (severity_rank n.severity) (severity_rank m.severity)
    || (nat_eq (severity_rank n.severity) (severity_rank m.severity)
        && leb m.first_seen n.first_seen)

unfoldable pub insert_sorted : Notification → List Notification → List Notification
insert_sorted n [] = n ∷ []
insert_sorted n (m ∷ ms) =
    let rest = insert_sorted n ms in if comes_first n m then n ∷ m ∷ ms else m ∷ rest

unfoldable pub sorted : List Notification → List Notification
sorted [] = []
sorted (n ∷ ns) = insert_sorted n (sorted ns)

-- `ListUnresolved`
unfoldable pub list_unresolved : List Notification → List Notification
list_unresolved rows = sorted (filter (λ n. not n.resolved) rows)

-- The operations that change the table.
pub data Change : Type 0 where
  upserts : ℕ → String → Notification → Change
  resolves : ℕ → String → Change
  marks : String → Bool → Change

abbrev pub changed : Change → List Notification → List Notification
changed (upserts now id n) rows = upsert now id n rows
changed (resolves now f) rows = resolve now f rows
changed (marks id read) rows = mark_read id read rows

-- the table after operations on an empty one, the last operation first
abbrev pub after : List Change → List Notification
after [] = []
after (c ∷ cs) = changed c (after cs)

-- how often an issue was reported
abbrev pub reports : String → Change → ℕ
reports f (upserts now id n) = if n.fingerprint == f then 1 else 0
reports f (resolves now g) = 0
reports f (marks id read) = 0

abbrev pub times : String → List Change → ℕ
times f [] = 0
times f (c ∷ cs) = reports f c + times f cs

-- the sum of the counts of the rows of a fingerprint
abbrev pub occurrences_of : String → List Notification → ℕ
occurrences_of f [] = 0
occurrences_of f (n ∷ ns) = (if n.fingerprint == f then n.occurrences else 0) + occurrences_of f ns

module _ (f : String) where
  -- an update of other columns
  kept_counts :
      (p : Notification → Bool) (g : Notification → Notification) (rows : List Notification)
      → ((n : Notification)
          → ((g n).fingerprint ≡ n.fingerprint) × ((g n).occurrences ≡ n.occurrences))
      → (count_if (has_fingerprint f) (update p g rows) ≡ count_if (has_fingerprint f) rows)
        × (occurrences_of f (update p g rows) ≡ occurrences_of f rows)
  unfolding count_if update
  kept_counts p g [] h = (refl, refl)
  kept_counts p g (n ∷ ns) h =
      ground (arith, (h n).0, (h n).1, (kept_counts p g ns h).0, (kept_counts p g ns h).1)

  counted_again :
      (g : String) (now : ℕ) (n : Notification) (rows : List Notification)
      → (count_if (has_fingerprint f) (update (has_fingerprint g) (seen_again now n) rows)
          ≡ count_if (has_fingerprint f) rows)
        × (occurrences_of f (update (has_fingerprint g) (seen_again now n) rows)
            ≡ occurrences_of f rows + (if g == f then count_if (has_fingerprint f) rows else 0))
  unfolding count_if update seen_again
  counted_again g now n [] = ground arith
  counted_again g now n (m ∷ ms) =
      let ih = counted_again g now n ms in
      ground (arith, eq_iff g f, eq_iff m.fingerprint g, eq_iff m.fingerprint f, ih.0, ih.1)

pub count_if-some :
    (p : Notification → Bool) (n : Notification) (rows : List Notification)
    → select p rows ≡ some n
    → 0 < count_if p rows
unfolding select count_if
count_if-some p n [] h = cc
count_if-some p n (m ∷ ms) h = ground (arith, h, count_if-some p n ms)

-- what a report adds to a table with one row for each fingerprint that was reported
module _ (f : String) (now : ℕ) (id : String) (n : Notification) (rows : List Notification) where
  same_count :
      (n.fingerprint == f) ≡ true
      → count_if (has_fingerprint n.fingerprint) rows ≡ count_if (has_fingerprint f) rows
  same_count e = ap (λ g. count_if (has_fingerprint g) rows) ((eq_iff n.fingerprint f).0 e)

  upsert_counts :
      (o : Option Notification)
      → select (has_fingerprint n.fingerprint) rows ≡ o
      → (count_if (has_fingerprint f) (insert_or_update now id n rows o)
          ≡ (if n.fingerprint == f
              then (if leb 1 (count_if (has_fingerprint f) rows) then 0 else 1)
              else 0)
            + count_if (has_fingerprint f) rows)
        × (occurrences_of f (insert_or_update now id n rows o)
            ≡ (if n.fingerprint == f
                then (if leb 1 (count_if (has_fingerprint f) rows)
                    then count_if (has_fingerprint f) rows
                    else 1)
                else 0)
              + occurrences_of f rows)
  unfolding fresh count_if
  upsert_counts none h = elim (Bool-cases (n.fingerprint == f)) [
    | inl e ↦
        let zero = count_if-none (has_fingerprint n.fingerprint) rows h in
        let same = same_count e in ground (arith, e, zero, same)
    | inr e ↦ ground (arith, e)
  ]
  upsert_counts (some old) h =
      let again = counted_again f n.fingerprint now n rows in
      elim (Bool-cases (n.fingerprint == f)) [
        | inl e ↦
            let more = count_if-some (has_fingerprint n.fingerprint) old rows h in
            let same = same_count e in ground (arith, e, more, same, again.0, again.1)
        | inr e ↦ ground (arith, e, again.0, again.1)
      ]

module _ (f : String) where
  abbrev Counts : ℕ → List Notification → Type 0
  Counts k rows =
      (count_if (has_fingerprint f) rows ≡ (if leb 1 k then 1 else 0)) × (occurrences_of f rows ≡ k)

  upsert-Counts :
      (now : ℕ) (id : String) (n : Notification) (k : ℕ) (rows : List Notification)
      → Counts k rows
      → Counts ((if n.fingerprint == f then 1 else 0) + k) (upsert now id n rows)
  unfolding upsert
  upsert-Counts now id n k rows h =
      let u = upsert_counts f now id n rows (select (has_fingerprint n.fingerprint) rows) refl in
      rw (u.0, u.1) (ground (arith, h.0, h.1))

  changed-Counts :
      (c : Change) (k : ℕ) (rows : List Notification)
      → Counts k rows
      → Counts (reports f c + k) (changed c rows)
  unfolding resolve mark_read
  changed-Counts (upserts now id n) k rows h = upsert-Counts now id n k rows h
  changed-Counts (resolves now g) k rows h =
      let kept = kept_counts f (is_active g) (resolve_row now) rows (λ n. (refl, refl)) in
      rw (kept.0, kept.1) (ground (arith, h.0, h.1))
  changed-Counts (marks id read) k rows h =
      let kept = kept_counts f (λ n. n.id == id) (set_read read) rows (λ n. (refl, refl)) in
      rw (kept.0, kept.1) (ground (arith, h.0, h.1))

-- After any operations on an empty table, an issue has one row if it was reported and none if
-- not, and its row counts how often it was reported, whatever was resolved or read in between.
pub after-counts :
    (f : String) (cs : List Change)
    → (count_if (has_fingerprint f) (after cs) ≡ (if leb 1 (times f cs) then 1 else 0))
      × (occurrences_of f (after cs) ≡ times f cs)
unfolding count_if
after-counts f [] = (refl, refl)
after-counts f (c ∷ cs) = changed-Counts f c (times f cs) (after cs) (after-counts f cs)
