-- ===== src/Records/Recurrence.antt =====
-- internal/database/repos.go: an issue that was resolved and comes up again.
use text.Mathlib.Text.{◌==◌}
use text.Mathlib.TextEquality.{eq_iff}
use fyrwall.Base.{
  ℕ, ◌+◌, ◌<◌, String, ◌≡◌, refl, ap, Bool, true, false, not, Option, none, some, List, [], ◌∷◌,
  ◌++◌, arith, count_if, filter, if◌then◌else◌, Bool-cases, inl, inr, either, All,
}
use fyrwall.Fleet.Tables.{select, update, count_if-none}
use fyrwall.Records.Notifications.{
  Notification, has_fingerprint, fresh, seen_again, insert_or_update, upsert, is_active,
  resolve_row, resolve, set_read, mark_read, comes_first, insert_sorted, sorted, list_unresolved,
  Change, upserts, resolves, marks, changed, after, times, after-counts,
}

module _ (f : String) where
  abbrev Quiet : Notification → Type 0
  Quiet n = (n.fingerprint == f) ≡ true → n.resolved ≡ true

  -- the issue has a row, and none of its rows is active
  abbrev IsQuiet : List Notification → Type 0
  IsQuiet rows = (0 < count_if (has_fingerprint f) rows) × All Quiet rows

  -- an update that leaves the fingerprint alone and makes nothing active
  updated-IsQuiet :
      (p : Notification → Bool) (g : Notification → Notification) (rows : List Notification)
      → ((n : Notification) → ((g n).fingerprint ≡ n.fingerprint) × (Quiet n → Quiet (g n)))
      → (count_if (has_fingerprint f) (update p g rows) ≡ count_if (has_fingerprint f) rows)
        × (All Quiet rows → All Quiet (update p g rows))
  unfolding count_if update
  updated-IsQuiet p g [] h = (refl, λ _. tt)
  updated-IsQuiet p g (n ∷ ns) h =
      let ih = updated-IsQuiet p g ns h in
      (ground (arith, (h n).0, ih.0), λ q. (either Quiet (p n) ((h n).1 q.0) q.0, ih.1 q.1))

  upserted-IsQuiet :
      (now : ℕ) (id : String) (n : Notification) (rows : List Notification)
      (o : Option Notification)
      → select (has_fingerprint n.fingerprint) rows ≡ o
      → IsQuiet rows
      → IsQuiet (insert_or_update now id n rows o)
  unfolding fresh seen_again count_if
  upserted-IsQuiet now id n rows none e (found, quiet) =
      let nothing = count_if-none (has_fingerprint n.fingerprint) rows e in
      (
        either (λ k. 0 < k + count_if (has_fingerprint f) rows) (n.fingerprint == f) (omega arith)
            (omega arith),
        (
          λ same.
              let count =
                ap (λ g. count_if (has_fingerprint g) rows) ((eq_iff n.fingerprint f).0 same) in
              absurd (omega arith),
          quiet,
        ),
      )
  upserted-IsQuiet now id n rows (some old) e (found, quiet) =
      let u =
        updated-IsQuiet (has_fingerprint n.fingerprint) (seen_again now n) rows
          (λ m. (refl, λ q. q)) in
      (omega (arith, u.0), u.1 quiet)

  changed-IsQuiet :
      (c : Change) (rows : List Notification) → IsQuiet rows → IsQuiet (changed c rows)
  unfolding upsert resolve mark_read
  changed-IsQuiet (upserts now id n) rows q =
      upserted-IsQuiet now id n rows (select (has_fingerprint n.fingerprint) rows) refl q
  changed-IsQuiet (resolves now g) rows q =
      let u = updated-IsQuiet (is_active g) (resolve_row now) rows (λ m. (refl, λ _ _. refl)) in
      (omega (arith, u.0), u.1 q.1)
  changed-IsQuiet (marks id read) rows q =
      let u = updated-IsQuiet (λ m. m.id == id) (set_read read) rows (λ m. (refl, λ r. r)) in
      (omega (arith, u.0), u.1 q.1)

  resolve-Quiet :
      (now : ℕ) (rows : List Notification) → All Quiet (update (is_active f) (resolve_row now) rows)
  unfolding update
  resolve-Quiet now [] = tt
  resolve-Quiet now (n ∷ ns) = (
    elim (Bool-cases n.resolved) [
      | inl r ↦ either Quiet (is_active f n) (λ _. refl) (λ _. r)
      | inr r ↦ rw r (elim (Bool-cases (n.fingerprint == f)) [
        | inl e ↦ rw e (λ _. refl)
        | inr e ↦ rw e (λ h. absurd (cc (h, e)))
      ])
    ],
    resolve-Quiet now ns,
  )

  insert_sorted-count :
      (n : Notification) (ns : List Notification)
      → count_if (has_fingerprint f) (insert_sorted n ns)
        ≡ (if n.fingerprint == f then 1 else 0) + count_if (has_fingerprint f) ns
  unfolding insert_sorted count_if
  insert_sorted-count n [] = refl
  insert_sorted-count n (m ∷ ms) = elim (Bool-cases (comes_first n m)) [
    | inl t ↦ rw t refl
    | inr t ↦ rw (t, insert_sorted-count n ms) (omega arith)
  ]

  sorted-count :
      (ns : List Notification)
      → count_if (has_fingerprint f) (sorted ns) ≡ count_if (has_fingerprint f) ns
  unfolding sorted count_if
  sorted-count [] = refl
  sorted-count (n ∷ ns) = rw (insert_sorted-count n (sorted ns), sorted-count ns) refl

  unresolved-count :
      (ns : List Notification)
      → All Quiet ns
      → count_if (has_fingerprint f) (filter (λ n. not n.resolved) ns) ≡ 0
  unfolding filter count_if
  unresolved-count [] _ = refl
  unresolved-count (n ∷ ns) (q, qs) = elim (Bool-cases n.resolved) [
    | inl r ↦ rw r (unresolved-count ns qs)
    | inr r ↦
        let other : (n.fingerprint == f) ≡ false = elim (Bool-cases (n.fingerprint == f)) [
          | inl e ↦ absurd (cc (q e, r))
          | inr e ↦ e
        ] in
        rw r (rw other (let rest = unresolved-count ns qs in omega arith))
  ]

module _ (f : String) (now : ℕ) where
  later-IsQuiet :
      (later cs : List Change) → 0 < times f cs → IsQuiet f (after (later ++ resolves now f ∷ cs))
  unfolding resolve
  later-IsQuiet [] cs reported =
      let c = after-counts f cs in
      let u =
        updated-IsQuiet f (is_active f) (resolve_row now) (after cs) (λ m. (refl, λ _ _. refl)) in
      (ground (arith, c.0, u.0), resolve-Quiet f now (after cs))
  later-IsQuiet (c ∷ later) cs reported =
      changed-IsQuiet f c (after (later ++ resolves now f ∷ cs)) (later-IsQuiet later cs reported)

-- An issue that was reported and then resolved is never listed as unresolved again, whatever is
-- reported, resolved or read afterwards.
pub list_unresolved-recurrence :
    (f : String) (now : ℕ) (later cs : List Change)
    → 0 < times f cs
    → count_if (has_fingerprint f) (list_unresolved (after (later ++ resolves now f ∷ cs))) ≡ 0
unfolding list_unresolved
list_unresolved-recurrence f now later cs reported =
    let rows = after (later ++ resolves now f ∷ cs) in
    rw (sorted-count f (filter (λ n. not n.resolved) rows))
      (unresolved-count f rows (later-IsQuiet f now later cs reported).1)
