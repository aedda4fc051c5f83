-- ===== src/Authorization/Scopes.antt =====
-- pkg/scope/scope.go.
use loyalty_points_app.Prelude.{
  String, Bool, ◌≡◌, refl, false, Option, none, some, List, ◌∷◌, All, ◌==◌, if◌then◌else◌,
}
use loyalty_points_app.Prelude.Texts.{split}
use loyalty_points_app.Authorization.Permissions.{member_permissions, admin_permissions}

abbrev pub own : String
own = "own"

abbrev pub all_scope : String
all_scope = "all"

-- On the parts of `strings.Split(permission, ":")`.
abbrev pub scope_of_parts : List String → Option String
scope_of_parts (resource ∷ action ∷ scope ∷ rest) = if scope == "" then none else some scope
scope_of_parts parts = none

-- `Of`; a colon is character 58.
unfoldable pub scope_of : String → Option String
unfolding split
scope_of permission = scope_of_parts (split 58 permission)

abbrev pub has_scope : String → Option String → Bool
has_scope s none = false
has_scope s (some t) = t == s

unfoldable pub is_all : String → Bool
unfolding scope_of
is_all permission = has_scope all_scope (scope_of permission)

unfoldable pub is_own : String → Bool
unfolding scope_of
is_own permission = has_scope own (scope_of permission)

-- No permission of a member reaches every row, and none of an admin only the caller's own.
scopes_of_roles :
    All (λ p. is_all p ≡ false) member_permissions × All (λ p. is_own p ≡ false) admin_permissions
unfolding is_all is_own
scopes_of_roles = (
  (refl, (refl, (refl, (refl, (refl, (refl, (refl, tt))))))),
  (refl, (refl, (refl, (refl, (refl, (refl, (refl, (refl, tt)))))))),
)
