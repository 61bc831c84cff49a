-- ===== src/Users/Profiles.antt =====
-- The methods of internal/service/user_service.go on profiles, roles and the list of users.
use rentcar_backend.Base.{ℕ, ◌==◌, nat_eq, string_eq, not, ◌&&◌}
use rentcar_backend.AppError.{new}
use rentcar_backend.Models.{User, UserRole, customer, admin, super_admin, user_role_eq}
use rentcar_backend.Text.{trim_space}
use rentcar_backend.Store.{Action, ◌>>=◌, ◌>>◌, require, call}
use rentcar_backend.Rentals.Repository.{when}
use rentcar_backend.Rentals.Service.Handlers.{lift}
use rentcar_backend.Users.Repository
use rentcar_backend.Users.Listing
use rentcar_backend.Users.Listing.{UserListFilter, UserListResult}
use rentcar_backend.Users.Tokens
use rentcar_backend.Users.Platform.{Platform}
use rentcar_backend.Users.Inputs.{Settings, ProfileInput, normalize_phone}
use rentcar_backend.Users.Service.{normalize_email, new_user}

module _ (p : Platform) (s : Settings) where
  -- `UpdateProfile`
  unfoldable pub update_profile : ℕ → ProfileInput → Action User
  update_profile id input = do
    phone ← lift (normalize_phone input.phone)
    require (when (trim_space input.name == "") (new 400 "name is required"))
    call (
        Repository.update_profile
          (record (new_user p s (trim_space input.name) (normalize_email p s input.email) phone
            "") { id = id; role = UserRole.other "" }))

  -- `List`
  unfoldable pub list : UserListFilter → Action UserListResult
  list input = do
    require (
        when
          (not (input.role == UserRole.other "")
            && not (input.role == customer)
            && not (input.role == admin)
            && not (input.role == super_admin))
          (new 400 "invalid user role"))
    call (Listing.list p.fold input)

-- `LogoutAll`, `FindByID`
unfoldable pub logout_all : ℕ → Action (Unit {0})
logout_all user = call (Tokens.revoke_all_by_user_id user)

unfoldable pub find_by_id : ℕ → Action User
find_by_id id = call (Repository.find_by_id id)

-- `UpdateRole`
unfoldable pub update_role : ℕ → ℕ → UserRole → Action (Unit {0})
update_role actor target role = do
  require (
      when (actor == target && not (role == super_admin))
        (new 400 "super admin cannot demote their own account"))
  call (Repository.update_role target role)
