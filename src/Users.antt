-- ===== src/Users.antt =====
-- internal/database/users.go: the table of users, a list of its rows, the newest first. The
-- identifier of a new row and the clock are arguments; failures of the database itself are left
-- out, but for the two constraints of the table: `id` and `username` are unique.
pub mod Invariant
use text.Mathlib.Text.{◌==◌}
use fyrwall.Base.{
  ℕ, String, Bool, true, false, not, ◌||◌, ◌&&◌, ◌⊎◌, inl, inr, Option, none, some, List, [], ◌∷◌,
  any, filter, count_if, if◌then◌else◌,
}
use fyrwall.Auth.Rbac.{valid_role}

pub record User : Type 0 where
  pub id : String
  pub username : String
  pub password_hash : String
  pub role : String
  pub enabled : Bool
  pub must_change_pass : Bool
  pub created_at : ℕ
  pub updated_at : ℕ
  pub last_login_at : Option ℕ

pub data UserError : Type 0 where
  invalid_role : String → UserError
  not_unique : UserError
  no_rows : UserError

-- the first row that passes a test
unfoldable pub row_where : (User → Bool) → List User → Option User
row_where p [] = none
row_where p (u ∷ us) = if p u then some u else row_where p us

-- `Get`
unfoldable pub get_user : String → List User → Option User
unfolding row_where
get_user username users = row_where (λ u. u.username == username) users

-- `GetByID`
unfoldable pub get_by_id : String → List User → Option User
unfolding row_where
get_by_id id users = row_where (λ u. u.id == id) users

-- whether the constraints let a row in
unfoldable pub is_taken : String → String → List User → Bool
is_taken id username users = any (λ u. u.id == id || u.username == username) users

abbrev pub new_user : ℕ → String → String → String → String → Bool → User
new_user now id username hash role must_change = record {
  id = id;
  username = username;
  password_hash = hash;
  role = role;
  enabled = true;
  must_change_pass = must_change;
  created_at = now;
  updated_at = now;
  last_login_at = none;
}

abbrev pub found : Option User → UserError ⊎ User
found none = inl no_rows
found (some u) = inr u

-- `Create`
unfoldable pub create :
    ℕ → String → String → String → String → Bool → List User → (UserError ⊎ User) × List User
unfolding is_taken get_user
create now id username hash role must_change users =
    let users' = new_user now id username hash role must_change ∷ users in
    if not (valid_role role)
    then (inl (invalid_role role), users)
    else if is_taken id username users
    then (inl not_unique, users)
    else (found (get_user username users'), users')

-- whether a row is counted by `CountAdmins`
abbrev pub is_admin : User → Bool
is_admin u = u.enabled && (u.role == "super_admin" || u.role == "admin")

-- `CountAdmins`
unfoldable pub count_admins : List User → ℕ
unfolding count_if
count_admins users = count_if is_admin users

-- UPDATE … WHERE id = ?
unfoldable pub update_row : String → (User → User) → List User → List User
update_row id f [] = []
update_row id f (u ∷ us) = (if u.id == id then f u else u) ∷ update_row id f us

-- `SetPassword`
unfoldable pub set_password : ℕ → String → String → Bool → List User → List User
unfolding update_row
set_password now id hash must_change users =
    update_row id
      (λ u. record u { password_hash = hash; must_change_pass = must_change; updated_at = now })
      users

-- `SetEnabled`
unfoldable pub set_enabled : ℕ → String → Bool → List User → List User
unfolding update_row
set_enabled now id enabled users =
    update_row id (λ u. record u { enabled = enabled; updated_at = now }) users

-- `SetRole`
unfoldable pub set_role : ℕ → String → String → List User → Option UserError × List User
unfolding update_row
set_role now id role users =
    if not (valid_role role)
    then (some (invalid_role role), users)
    else (none, update_row id (λ u. record u { role = role; updated_at = now }) users)

-- `Delete`
unfoldable pub delete : String → List User → List User
unfolding filter
delete id users = filter (λ u. not (u.id == id)) users

-- `TouchLogin`
unfoldable pub touch_login : ℕ → String → List User → List User
unfolding update_row
touch_login now id users = update_row id (λ u. record u { last_login_at = some now }) users
