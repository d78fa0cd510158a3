-- ===== src/Policy/Roles.antt =====
-- pkg/policy/roles.go and `ResolveRole` of pkg/policy/policy.go. A nil policy is `none`.
use wave_house.Prelude.{
  List, Option, Bool, [], some, false, if◌then◌else◌, is_empty, not, true, ◌∷◌, none, ◌&&◌,
}
use wave_house.Prelude.Bytes.{Bytes, bytes_eq, codes}
use wave_house.Policy.Types.{Policy}

abbrev pub default_admin_role : Bytes
default_admin_role = codes "admin"

unfoldable pub admin_role : Option Policy → Bytes
admin_role none = []
admin_role (some p) = if is_empty p.admin_role then default_admin_role else p.admin_role

unfoldable pub is_admin : Option Policy → Bytes → Bool
is_admin none role = false
is_admin (some p) role = not (is_empty role) && bytes_eq role (admin_role (some p))

unfoldable pub default_role_grants_admin : Option Policy → Bool
default_role_grants_admin none = false
default_role_grants_admin (some p) =
    not (is_empty p.default_role) && bytes_eq p.default_role (admin_role (some p))

unfoldable pub resolve_role : Option Policy → Bytes → Bytes
resolve_role none role = role
resolve_role (some p) role = if is_empty role then p.default_role else role

-- The loop over the allowlist.
unfoldable pub lists_role : Bytes → List Bytes → Bool
lists_role role [] = false
lists_role role (r ∷ rs) = if not (is_empty r) && bytes_eq r role then true else lists_role role rs

unfoldable pub role_allowed : Option Policy → Bytes → List Bytes → Bool
role_allowed p role allowed_roles =
    if is_admin p role then true else if is_empty role then false else lists_role role allowed_roles
