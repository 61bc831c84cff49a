-- ===== src/Middleware/Access.antt =====
-- internal/middleware/auth_middleware.go, admin_middleware.go and rbac.go, and
-- internal/repository/permission_repository.go.
use Prim.Native.Char.{Char, code}
use rentcar_backend.Base.{
  ℕ, ◌==◌, nat_eq, string_eq, if◌then◌else◌, Bool, false, not, ◌&&◌, String, List, [], ◌∷◌, Option,
  none, some, Outcome, ok, err, exists,
}
use rentcar_backend.AppError.{Cause, Error, base, unauthorized, forbidden}
use rentcar_backend.Models.{UserRole, admin, super_admin, user_role_eq}
use rentcar_backend.Text.{chars, of_chars}
use rentcar_backend.Users.Platform.{Platform, Claims, parse_token}

abbrev pub without : List Char → List Char → Option (List Char)
without [] cs = some cs
without (p ∷ ps) [] = none
without (p ∷ ps) (c ∷ cs) = let rest = without ps cs in if code p == code c then rest else none

-- The text behind `Bearer `; a header without it is equal to what `strings.TrimPrefix` leaves of it.
abbrev pub bearer_token : String → Option (List Char)
bearer_token header = without (chars "Bearer ") (chars header)

-- What the context has of the caller: `user_id` and `role`.
pub record Caller : Type 0 where
  pub user_id : ℕ
  pub role : UserRole

abbrev pub caller_of : Outcome Cause Claims → Outcome Error Caller
caller_of (ok c) = ok (record { user_id = c.user_id; role = c.role })
caller_of (err _) = err (base unauthorized)

-- `RequireAuth`
unfoldable pub require_auth : Platform → String → ℕ → String → Outcome Error Caller
require_auth p secret now header = elim (bearer_token header) [
  | none ↦ err (base unauthorized)
  | some token ↦ caller_of (parse_token p (of_chars token) secret now)
]

abbrev refuse : Bool → Option Error
refuse bad = if bad then some (base forbidden) else none

-- `RequireAdmin` and `RequireSuperAdmin`; no caller where the context has no role.
unfoldable pub require_admin : Option Caller → Option Error
require_admin none = some (base forbidden)
require_admin (some c) = refuse (not (c.role == admin) && not (c.role == super_admin))

unfoldable pub require_super_admin : Option Caller → Option Error
require_super_admin none = some (base forbidden)
require_super_admin (some c) = refuse (not (c.role == super_admin))

-- `HasPermission` of a checker, which may fail.
abbrev pub PermissionChecker : Type 0
PermissionChecker = UserRole → String → Outcome Cause Bool

abbrev allowed : Outcome Cause Bool → Bool
allowed (ok b) = b
allowed (err _) = false

-- `RequirePermission`, with a checker or without
unfoldable pub require_permission : Option PermissionChecker → String → Option Caller → Option Error
require_permission checker permission none = some (base forbidden)
require_permission checker permission (some c) =
    if c.role == UserRole.other "" then some (base forbidden) else elim checker [
      | none ↦ refuse (not (c.role == admin) && not (c.role == super_admin))
      | some has ↦ refuse (not (allowed (has c.role permission)))
    ]

-- The tables of migrations 014 and 018.
pub record Permission : Type 0 where
  pub id : ℕ
  pub code : String

pub record RolePermission : Type 0 where
  pub role : UserRole
  pub permission_id : ℕ

pub record RbacTables : Type 0 where
  pub permissions : List Permission
  pub role_permissions : List RolePermission

abbrev is_coded : ℕ → String → Permission → Bool
is_coded id code p = p.id == id && p.code == code

-- `HasPermission` of the repository, as the test that its query states
unfoldable pub has_permission : RbacTables → UserRole → String → Bool
has_permission db role permission =
    exists (λ rp. rp.role == role && exists (is_coded rp.permission_id permission) db.permissions)
      db.role_permissions

-- The repository as a checker, while the database answers.
abbrev pub stored_checker : RbacTables → Option PermissionChecker
stored_checker db = some (λ role permission. ok (has_permission db role permission))
