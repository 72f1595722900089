-- ===== src/Firewall/Conflicts/Sorted.antt =====
-- internal/firewall/conflicts.go: the result of the sort by priority.
use mathlib.Core.List.{reverse, reverse-reverse, append_assoc, append-nil}
use fyrwall.Base.{
  ◌≡◌, refl, Bool, ◌&&◌, List, [], ◌∷◌, ◌++◌, arith, All, All-append, filter, filter-reverse,
  reverse_cons,
}
use fyrwall.Base.Int.{ℤ, lebℤ, ◌≤ℤ◌}
use fyrwall.Firewall.Rules.{Rule}
use fyrwall.Firewall.Conflicts.Order.{sink, sort_from, sort_by_priority}

-- Each rule is at most every rule behind it.
abbrev pub IsAscending : List Rule → Type 0
IsAscending [] = Unit
IsAscending (x ∷ xs) = All (λ y. x.priority ≤ℤ y.priority) xs × IsAscending xs

abbrev IsDescending : List Rule → Type 0
IsDescending [] = Unit
IsDescending (x ∷ xs) = All (λ y. y.priority ≤ℤ x.priority) xs × IsDescending xs

abbrev pub has_priority : ℤ → Rule → Bool
has_priority p r = lebℤ p r.priority && lebℤ r.priority p

All-sink :
    (b : ℤ) (x : Rule) (ys : List Rule)
    → x.priority ≤ℤ b
    → All (λ y. y.priority ≤ℤ b) ys
    → All (λ y. y.priority ≤ℤ b) (sink x ys)
unfolding sink
All-sink b x [] h hs = ground arith
All-sink b x (y ∷ ys) h hs = ground (arith, All-sink b x ys h hs.1)

All-weaken :
    (a b : ℤ) (ys : List Rule)
    → a ≤ℤ b
    → All (λ y. y.priority ≤ℤ a) ys
    → All (λ y. y.priority ≤ℤ b) ys
All-weaken a b [] h hs = tt
All-weaken a b (y ∷ ys) h hs = (omega arith, All-weaken a b ys h hs.1)

sink-IsDescending : (x : Rule) (ys : List Rule) → IsDescending ys → IsDescending (sink x ys)
unfolding sink
sink-IsDescending x [] d = ground arith
sink-IsDescending x (y ∷ ys) d = ground (
  arith,
  sink-IsDescending x ys d.1,
  All-sink y.priority x ys,
  All-weaken y.priority x.priority ys,
)

sort_from-IsDescending :
    (done rs : List Rule) → IsDescending done → IsDescending (sort_from done rs)
unfolding sort_from
sort_from-IsDescending done [] d = d
sort_from-IsDescending done (x ∷ rs) d =
    sort_from-IsDescending (sink x done) rs (sink-IsDescending x done d)

IsAscending-concat :
    (xs : List Rule) (x : Rule)
    → IsAscending xs
    → All (λ y. y.priority ≤ℤ x.priority) xs
    → IsAscending (xs ++ x ∷ [])
IsAscending-concat [] x a h = (tt, tt)
IsAscending-concat (y ∷ ys) x (ha, a) (h, hs) = (
  All-append (λ z. y.priority ≤ℤ z.priority) ys (x ∷ []) ha (h, tt),
  IsAscending-concat ys x a hs,
)

All-reverse :
    (b : ℤ) (xs : List Rule)
    → All (λ y. y.priority ≤ℤ b) xs
    → All (λ y. y.priority ≤ℤ b) (reverse xs)
All-reverse b [] h = tt
All-reverse b (x ∷ xs) (h, hs) =
    rw reverse_cons
      (All-append (λ y. y.priority ≤ℤ b) (reverse xs) (x ∷ []) (All-reverse b xs hs) (h, tt))

reverse-IsAscending : (xs : List Rule) → IsDescending xs → IsAscending (reverse xs)
reverse-IsAscending [] d = tt
reverse-IsAscending (x ∷ xs) (h, d) =
    rw reverse_cons
      (IsAscending-concat (reverse xs) x (reverse-IsAscending xs d) (All-reverse x.priority xs h))

module _ (p : ℤ) where
  filter-sink :
      (x : Rule) (ys : List Rule)
      → filter (has_priority p) (sink x ys) ≡ filter (has_priority p) (x ∷ ys)
  unfolding sink filter
  filter-sink x [] = refl
  filter-sink x (y ∷ ys) = ground (arith, filter-sink x ys)

  filter-sort_from :
      (done rs : List Rule)
      → filter (has_priority p) (sort_from done rs)
        ≡ reverse (filter (has_priority p) rs) ++ filter (has_priority p) done
  unfolding sort_from filter
  filter-sort_from done [] = refl
  filter-sort_from done (x ∷ rs) = ground (
    arith,
    filter-sort_from (sink x done) rs,
    filter-sink x done,
    reverse_cons x (filter (has_priority p) rs),
    append_assoc (reverse (filter (has_priority p) rs)) (x ∷ []) (filter (has_priority p) done),
  )

-- The sorted list is ascending in priority, and for each priority it holds the rules of that
-- priority in the order in which they were given, none lost and none added.
pub sort_by_priority_stable :
    (rules : List Rule)
    → IsAscending (sort_by_priority rules)
      × ((p : ℤ) → filter (has_priority p) (sort_by_priority rules) ≡ filter (has_priority p) rules)
unfolding sort_by_priority filter
sort_by_priority_stable rules = (
  reverse-IsAscending (sort_from [] rules) (sort_from-IsDescending [] rules tt),
  λ p. rw (filter-reverse, filter-sort_from p [] rules, append-nil, reverse-reverse),
)
