-- ===== src/Users/Invariant.antt =====
-- internal/database/users.go: what holds of the table of users after any operations.
use text.Mathlib.Text.{◌==◌}
use fyrwall.Base.{
  ℕ, String, ◌≡◌, ◌≢◌, refl, sym, ◌∙◌, Bool, true, false, ◌||◌, List, [], ◌∷◌, arith, any, filter,
  All, Bool-cases, if◌then◌else◌, inl, inr,
}
use fyrwall.Base.Text.Laws.{ne_of_test}
use fyrwall.Auth.Rbac.{valid_role}
use fyrwall.Users.{
  User, new_user, is_taken, create, update_row, set_password, set_enabled, set_role, delete,
  touch_login,
}

-- A row differs from another in both of the unique columns.
abbrev pub Differ : User → User → Type 0
Differ u v = (u.id ≢ v.id) × (u.username ≢ v.username)

abbrev pub IsUnique : List User → Type 0
IsUnique [] = Unit
IsUnique (u ∷ us) = All (Differ u) us × IsUnique us

abbrev pub HasKnownRole : User → Type 0
HasKnownRole u = valid_role u.role ≡ true

-- The operations that change the table.
pub data Change : Type 0 where
  creates : ℕ → String → String → String → String → Bool → Change
  sets_password : ℕ → String → String → Bool → Change
  sets_enabled : ℕ → String → Bool → Change
  sets_role : ℕ → String → String → Change
  deletes : String → Change
  touches : ℕ → String → Change

abbrev pub changed : Change → List User → List User
changed (creates now id username hash role must) us = (create now id username hash role must us).1
changed (sets_password now id hash must) us = set_password now id hash must us
changed (sets_enabled now id enabled) us = set_enabled now id enabled us
changed (sets_role now id role) us = (set_role now id role us).1
changed (deletes id) us = delete id us
changed (touches now id) us = touch_login now id us

-- the table after operations on an empty one, the last operation first
abbrev pub after : List Change → List User
after [] = []
after (c ∷ cs) = changed c (after cs)

abbrev pub IsSound : List User → Type 0
IsSound us = IsUnique us × All HasKnownRole us

-- An update that leaves the unique columns alone and the role known.
abbrev Mild : (User → User) → Type 0
Mild f =
    (u : User)
    → ((f u).id ≡ u.id) × ((f u).username ≡ u.username) × (HasKnownRole u → HasKnownRole (f u))

module _ (id : String) (f : User → User) (mild : Mild f) where
  row : User → User
  row u = if u.id == id then f u else u

  row-same : (u : User) → ((row u).id ≡ u.id) × ((row u).username ≡ u.username)
  unfolding row
  row-same u = elim (Bool-cases (u.id == id)) [
    | inl e ↦ rw e ((mild u).0, (mild u).1)
    | inr e ↦ rw e (refl, refl)
  ]

  row-role : (u : User) → HasKnownRole u → HasKnownRole (row u)
  unfolding row
  row-role u k = elim (Bool-cases (u.id == id)) [ inl e ↦ rw e ((mild u).2 k) | inr e ↦ rw e k ]

  row-Differ : (u v : User) → Differ u v → Differ (row u) (row v)
  row-Differ u v (i, n) =
      let (iu, nu) = row-same u in
      let (iv, nv) = row-same v in (λ e. i (sym iu ∙ e ∙ iv), λ e. n (sym nu ∙ e ∙ nv))

  rows-Differ :
      (u : User) (us : List User) → All (Differ u) us → All (Differ (row u)) (update_row id f us)
  unfolding update_row row
  rows-Differ u [] d = tt
  rows-Differ u (v ∷ us) (d, ds) = (row-Differ u v d, rows-Differ u us ds)

  update-IsUnique : (us : List User) → IsUnique us → IsUnique (update_row id f us)
  unfolding update_row row
  update-IsUnique [] h = tt
  update-IsUnique (u ∷ us) (d, h) = (rows-Differ u us d, update-IsUnique us h)

  update-roles : (us : List User) → All HasKnownRole us → All HasKnownRole (update_row id f us)
  unfolding update_row row
  update-roles [] h = tt
  update-roles (u ∷ us) (k, h) = (row-role u k, update-roles us h)

  update-IsSound : (us : List User) → IsSound us → IsSound (update_row id f us)
  update-IsSound us (u, k) = (update-IsUnique us u, update-roles us k)

module _ (p : User → Bool) where
  filter-All : (P : User → Type 0) (us : List User) → All P us → All P (filter p us)
  unfolding filter
  filter-All P [] h = tt
  filter-All P (u ∷ us) (k, h) = elim (Bool-cases (p u)) [
    | inl e ↦ rw e (k, filter-All P us h)
    | inr e ↦ rw e (filter-All P us h)
  ]

  filter-IsUnique : (us : List User) → IsUnique us → IsUnique (filter p us)
  unfolding filter
  filter-IsUnique [] h = tt
  filter-IsUnique (u ∷ us) (d, h) = elim (Bool-cases (p u)) [
    | inl e ↦ rw e (filter-All (Differ u) us d, filter-IsUnique us h)
    | inr e ↦ rw e (filter-IsUnique us h)
  ]

-- A row that the constraints let in differs from all the others.
or_parts : (b c d : Bool) → ((b || c) || d) ≡ false → (b ≡ false) × (c ≡ false) × (d ≡ false)
or_parts b c d h = ground (arith, h)

untaken-Differ :
    (u : User) (us : List User) → is_taken u.id u.username us ≡ false → All (Differ u) us
unfolding is_taken any
untaken-Differ u [] h = tt
untaken-Differ u (v ∷ us) h =
    let (i, n, rest) = or_parts _ _ _ h in
    (
      (λ e. ne_of_test v.id u.id i (sym e), λ e. ne_of_test v.username u.username n (sym e)),
      untaken-Differ u us rest,
    )

created-IsSound :
    (now : ℕ) (id username hash role : String) (must : Bool) (us : List User)
    → IsSound us
    → IsSound (create now id username hash role must us).1
unfolding create
created-IsSound now id username hash role must us (u, k) = elim (Bool-cases (valid_role role)) [
  | inl v ↦ elim (Bool-cases (is_taken id username us)) [
    | inl t ↦ rw (v, t) (u, k)
    | inr t ↦ rw (v, t) ((untaken-Differ (new_user now id username hash role must) us t, u), (v, k))
  ]
  | inr v ↦ rw v (u, k)
]

set_role-IsSound :
    (now : ℕ) (id role : String) (us : List User) → IsSound us → IsSound (set_role now id role us).1
unfolding set_role
set_role-IsSound now id role us s = elim (Bool-cases (valid_role role)) [
  | inl v ↦ rw v (update-IsSound id _ (λ u. (refl, refl, λ k. v)) us s)
  | inr v ↦ rw v s
]

changed-IsSound : (c : Change) (us : List User) → IsSound us → IsSound (changed c us)
unfolding create set_password set_enabled set_role delete touch_login
changed-IsSound (creates now id username hash role must) us s =
    created-IsSound now id username hash role must us s
changed-IsSound (sets_password now id hash must) us s =
    update-IsSound id _ (λ u. (refl, refl, λ k. k)) us s
changed-IsSound (sets_enabled now id enabled) us s =
    update-IsSound id _ (λ u. (refl, refl, λ k. k)) us s
changed-IsSound (sets_role now id role) us s = set_role-IsSound now id role us s
changed-IsSound (deletes id) us (u, k) = (filter-IsUnique _ us u, filter-All _ HasKnownRole us k)
changed-IsSound (touches now id) us s = update-IsSound id _ (λ u. (refl, refl, λ k. k)) us s

-- After any operations on an empty table, no two users share an identifier or a name, and every
-- user has one of the five roles.
pub after-IsSound : (changes : List Change) → IsSound (after changes)
after-IsSound [] = (tt, tt)
after-IsSound (c ∷ cs) = changed-IsSound c (after cs) (after-IsSound cs)
