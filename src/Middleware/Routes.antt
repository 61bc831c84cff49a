-- ===== src/Middleware/Routes.antt =====
-- The guards of the administration routes of internal/router/router.go, and who passes them.
use rentcar_backend.Base.{
  ℕ, ◌==◌, nat_eq, string_eq, ◌≡◌, refl, if◌then◌else◌, Bool, true, false, not, ◌&&◌, ◌||◌, String,
  List, [], ◌∷◌, Option, none, some, Outcome, ok, err, arith,
}
use rentcar_backend.AppError.{Error, base, forbidden}
use rentcar_backend.Models.{UserRole, customer, admin, super_admin, user_role_eq}
use rentcar_backend.Users.Platform.{Platform}
use rentcar_backend.Middleware.Access.{
  Caller, Permission, RolePermission, RbacTables, PermissionChecker, require_auth,
  require_permission, has_permission, stored_checker,
}

abbrev first_error : Option Error → Option Error → Option Error
first_error none o = o
first_error (some e) o = some e

abbrev verdict : Caller → Option Error → Outcome Error Caller
verdict c none = ok c
verdict c (some e) = err e

-- The handlers in front of the one of a route: `RequireAuth`, the permission of the group, that of the
-- route; with the caller that is handed on.
unfoldable pub enter :
    Platform → String → Option PermissionChecker → String → ℕ → String → Outcome Error Caller
enter p secret checker permission now header = elim (require_auth p secret now header) [
  | err e ↦ err e
  | ok c ↦ verdict c (
      first_error (require_permission checker "admin:access" (some c))
        (require_permission checker permission (some c)))
]

-- The rows that migrations 014 and 018 insert into empty tables.
abbrev permission : ℕ → String → Permission
permission id code = record { id = id; code = code }

abbrev granted : UserRole → ℕ → RolePermission
granted role id = record { role = role; permission_id = id }

abbrev to_both : ℕ → List RolePermission → List RolePermission
to_both id rest = granted admin id ∷ granted super_admin id ∷ rest

abbrev pub seeded : RbacTables
seeded = record {
  permissions =
      permission 1 "admin:access"
      ∷ permission 2 "cars:manage"
      ∷ permission 3 "rentals:manage"
      ∷ permission 4 "payments:manage"
      ∷ permission 5 "maintenance:manage"
      ∷ permission 6 "reports:view"
      ∷ permission 7 "audit:view"
      ∷ permission 8 "users:manage"
      ∷ permission 9 "users:view"
      ∷ [];
  role_permissions = to_both 1 (
      to_both 2 (
        to_both 3 (
          to_both 4 (
            to_both 5
              (to_both 6 (granted super_admin 7 ∷ granted super_admin 8 ∷ to_both 9 []))))));
}

-- The permissions for which an administrator's role is not enough.
abbrev pub is_reserved : String → Bool
is_reserved code = code == "audit:view" || code == "users:manage"

abbrev pub may_enter : UserRole → String → Bool
may_enter role code = role == super_admin || role == admin && not (is_reserved code)

abbrev pub Granted : UserRole → String → Type 0
Granted role code =
    (has_permission seeded role "admin:access" && has_permission seeded role code)
    ≡ may_enter role code

checks :
    (id : ℕ) (role : UserRole) (code : String)
    → Granted role code
    → first_error
        (require_permission
          (stored_checker seeded)
          "admin:access"
          (some (record { user_id = id; role = role })))
        (require_permission
          (stored_checker seeded)
          code
          (some (record { user_id = id; role = role })))
      ≡ (if may_enter role code then none else some (base forbidden))
unfolding require_permission
checks id customer code e = ground (arith, e)
checks id admin code e = ground (arith, e)
checks id super_admin code e = ground (arith, e)
checks id (UserRole.other s) code e = ground (arith, e)

-- What the guards of a route answer on those tables, by what `RequireAuth` says.
abbrev pub admitted : String → Outcome Error Caller → Outcome Error Caller
admitted code (err e) = err e
admitted code (ok c) = if may_enter c.role code then ok c else err (base forbidden)

verdict_lem :
    (c : Caller) (b : Bool)
    → verdict c (if b then none else some (base forbidden))
      ≡ (if b then ok c else err (base forbidden))
verdict_lem c true = refl
verdict_lem c false = refl

module _ (p : Platform) (secret : String) where
  guarded_by :
      (code : String) (a : Outcome Error Caller)
      → ((role : UserRole) → Granted role code)
      → (elim a [
        | err e ↦ err e
        | ok c ↦ verdict c (
            first_error
              (require_permission (stored_checker seeded) "admin:access" (some c))
              (require_permission (stored_checker seeded) code (some c)))
      ])
        ≡ admitted code a
  guarded_by code (err e) granted = refl
  guarded_by code (ok c) granted =
      rw (checks c.user_id c.role code (granted c.role)) (verdict_lem c (may_enter c.role code))

  pub enter-admitted :
      (code : String)
      → ((role : UserRole) → Granted role code)
      → (now : ℕ) (header : String)
      → enter p secret (stored_checker seeded) code now header
        ≡ admitted code (require_auth p secret now header)
  unfolding enter
  enter-admitted code granted now header =
      guarded_by code (require_auth p secret now header) granted
