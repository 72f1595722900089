-- ===== src/Api/Routes.antt =====
-- internal/api/server.go: the routes of the authenticated API, in the order of `Router`, with the
-- permission that each asks for. Matching a path with a pattern is the router's, a third party's.
use text.Mathlib.Text.{◌==◌}
use fyrwall.Base.{String, ◌≡◌, refl, false, ◌||◌, Option, none, some, List, [], ◌∷◌, arith, All}
use fyrwall.Auth.Rbac.{has_permission, grants, role_permissions}

pub record Route : Type 0 where
  pub method : String
  pub pattern : String
  pub permission : Option String

abbrev asking : String → String → String → Route
asking perm method pattern = record { method = method; pattern = pattern; permission = some perm }

abbrev pub routes : List Route
routes =
    asking "firewall.read" "GET" "/firewall/status"
    ∷ asking "firewall.read" "GET" "/firewall/rules"
    ∷ asking "firewall.apply" "POST" "/firewall/rules/validate"
    ∷ asking "firewall.apply" "POST" "/firewall/transactions"
    ∷ asking "firewall.restore" "POST" "/firewall/snapshots"
    ∷ asking "settings.read" "GET" "/settings"
    ∷ asking "settings.write" "PUT" "/settings"
    ∷ asking "users.manage" "GET" "/users"
    ∷ asking "users.manage" "POST" "/users"
    ∷ asking "diagnostics.run" "GET" "/system/diagnostics"
    ∷ asking "logs.read" "GET" "/audit"
    ∷ record { method = "GET"; pattern = "/notifications"; permission = none }
    ∷ asking "users.manage" "POST" "/agents/enrollment-tokens"
    ∷ asking "firewall.read" "GET" "/agents"
    ∷ asking "firewall.read" "GET" "/agents/{agentID}/firewall/status"
    ∷ asking "firewall.read" "GET" "/agents/{agentID}/firewall/rules"
    ∷ asking "firewall.apply" "POST" "/agents/{agentID}/firewall/transactions"
    ∷ asking "firewall.apply" "POST" "/agents/{agentID}/commands"
    ∷ asking "firewall.read" "GET" "/agent-commands/{commandID}"
    ∷ asking "firewall.apply" "POST" "/agent-groups/{group}/rollouts"
    ∷ asking "firewall.read" "GET" "/rollouts/{rolloutID}"
    ∷ asking "users.manage" "DELETE" "/agents/{agentID}"
    ∷ []

-- A route that is no read asks for a permission that the role does not have.
abbrev pub IsDenied : String → Route → Type 0
IsDenied role r =
    (r.method == "GET") ≡ false
    → (perm : String) × (r.permission ≡ some perm) × (has_permission role perm ≡ false)

module _ (role : String)
    (plain : (role == "super_admin" || role == "admin" || role == "operator") ≡ false) where
  no_apply : has_permission role "firewall.apply" ≡ false
  unfolding has_permission role_permissions grants
  no_apply = ground (arith, plain)

  no_restore : has_permission role "firewall.restore" ≡ false
  unfolding has_permission role_permissions grants
  no_restore = ground (arith, plain)

  no_settings : has_permission role "settings.write" ≡ false
  unfolding has_permission role_permissions grants
  no_settings = ground (arith, plain)

  no_users : has_permission role "users.manage" ≡ false
  unfolding has_permission role_permissions grants
  no_users = ground (arith, plain)

  -- A role that is none of super admin, admin and operator is denied at every route of the
  -- authenticated API whose method is not GET.
  pub routes-IsDenied : All (IsDenied role) routes
  routes-IsDenied = (
    λ h. cc (h),
    (
      λ h. cc (h),
      (
        λ h. (_, refl, no_apply),
        (
          λ h. (_, refl, no_apply),
          (
            λ h. (_, refl, no_restore),
            (
              λ h. cc (h),
              (
                λ h. (_, refl, no_settings),
                (
                  λ h. cc (h),
                  (
                    λ h. (_, refl, no_users),
                    (
                      λ h. cc (h),
                      (
                        λ h. cc (h),
                        (
                          λ h. cc (h),
                          (
                            λ h. (_, refl, no_users),
                            (
                              λ h. cc (h),
                              (
                                λ h. cc (h),
                                (
                                  λ h. cc (h),
                                  (
                                    λ h. (_, refl, no_apply),
                                    (
                                      λ h. (_, refl, no_apply),
                                      (
                                        λ h. cc (h),
                                        (
                                          λ h. (_, refl, no_apply),
                                          (λ h. cc (h), (λ h. (_, refl, no_users), tt)),
                                        ),
                                      ),
                                    ),
                                  ),
                                ),
                              ),
                            ),
                          ),
                        ),
                      ),
                    ),
                  ),
                ),
              ),
            ),
          ),
        ),
      ),
    ),
  )
