-- ===== src/Auth/Rbac.antt =====
-- internal/auth/rbac.go: roles and their permissions.
use text.Mathlib.Text.{◌==◌}
use fyrwall.Base.{
  String, ◌≡◌, refl, Bool, true, false, ◌||◌, List, [], ◌∷◌, arith, eq_iff, if◌then◌else◌,
}

-- whether a map from names to true holds a name
unfoldable pub grants : List String → String → Bool
grants [] perm = false
grants (p ∷ ps) perm = perm == p || grants ps perm

abbrev pub admin_permissions : List String
admin_permissions =
    "users.manage" ∷ "firewall.read" ∷ "firewall.write" ∷ "firewall.apply" ∷ "firewall.restore"
    ∷ "templates.manage" ∷ "diagnostics.run" ∷ "services.manage" ∷ "settings.read"
    ∷ "settings.write" ∷ "audit.read" ∷ "logs.read" ∷ []

abbrev pub operator_permissions : List String
operator_permissions =
    "firewall.read" ∷ "firewall.write" ∷ "firewall.apply" ∷ "firewall.restore" ∷ "templates.manage"
    ∷ "diagnostics.run" ∷ "services.manage" ∷ "settings.read" ∷ "logs.read" ∷ []

abbrev pub auditor_permissions : List String
auditor_permissions = "firewall.read" ∷ "settings.read" ∷ "audit.read" ∷ "logs.read" ∷ []

abbrev pub viewer_permissions : List String
viewer_permissions = "firewall.read" ∷ "settings.read" ∷ []

unfoldable pub role_permissions : String → List String
role_permissions role =
    if role == "admin"
    then admin_permissions
    else if role == "operator"
    then operator_permissions
    else if role == "auditor"
    then auditor_permissions
    else if role == "viewer"
    then viewer_permissions
    else []

unfoldable pub has_permission : String → String → Bool
has_permission role perm =
    if role == "super_admin" then true else grants (role_permissions role) perm

unfoldable pub valid_role : String → Bool
valid_role r =
    r == "super_admin" || r == "admin" || r == "operator" || r == "auditor" || r == "viewer"

-- A role that is not known has no permission at all.
pub unknown_role_denied :
    (role perm : String) → valid_role role ≡ false → has_permission role perm ≡ false
unfolding valid_role has_permission role_permissions grants
unknown_role_denied role perm h = ground arith

-- What one role may do, another may do too.
abbrev pub IsWithin : String → String → Type 0
IsWithin a b = (perm : String) → has_permission a perm ≡ true → has_permission b perm ≡ true

-- Each role may do what the one below it may: viewer below auditor and operator, those below
-- admin, and admin below super admin.
pub roles_ordered :
    IsWithin "viewer" "auditor"
    × IsWithin "viewer" "operator"
    × IsWithin "auditor" "admin"
    × IsWithin "operator" "admin"
    × IsWithin "admin" "super_admin"
unfolding has_permission role_permissions grants
roles_ordered = (
  λ perm h. ground arith,
  λ perm h. ground arith,
  λ perm h. ground arith,
  λ perm h. ground arith,
  λ perm h. refl,
)

-- The permissions that change something.
abbrev pub write_permissions : List String
write_permissions =
    "users.manage" ∷ "firewall.write" ∷ "firewall.apply" ∷ "firewall.restore" ∷ "templates.manage"
    ∷ "services.manage" ∷ "settings.write" ∷ []

reads_write_nothing :
    (p perm : String)
    → (perm == p) ≡ true
    → grants write_permissions p ≡ false
    → grants write_permissions perm ≡ false
reads_write_nothing p perm e h = rw ((eq_iff perm p).0 e) h

-- An auditor has none of the permissions that change something.
pub auditor_is_read_only :
    (perm : String) → has_permission "auditor" perm ≡ true → grants write_permissions perm ≡ false
unfolding has_permission role_permissions grants
auditor_is_read_only perm h = ground (
  arith,
  reads_write_nothing "firewall.read" perm,
  reads_write_nothing "settings.read" perm,
  reads_write_nothing "audit.read" perm,
  reads_write_nothing "logs.read" perm,
)
