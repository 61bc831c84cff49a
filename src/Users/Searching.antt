-- ===== src/Users/Searching.antt =====
-- The search of the list of users.
use Prim.Native.Char.{Char}
use rentcar_backend.Base.{◌==◌, string_eq, ◌≡◌, true, ◌&&◌, ◌||◌, refl}
use rentcar_backend.Models.{User, UserRole, user_role_eq}
use rentcar_backend.Text.Like.{folded, is_plain, contains, ilike-contains}
use rentcar_backend.Users.Listing.{UserListFilter, matches}

-- A search text without `%`, `_` and `\` selects the users whose name, email or phone has it somewhere,
-- without regard to case, among those of the role that is asked for.
pub matches-contains :
    (fold : Char → Char) (f : UserListFilter) (u : User)
    → is_plain (folded fold f.search) ≡ true
    → matches fold f u
      ≡ (f.search == ""
          || contains (folded fold f.search) (folded fold u.name)
          || contains (folded fold f.search) (folded fold u.email)
          || contains (folded fold f.search) (folded fold u.phone))
        && (f.role == UserRole.other "" || u.role == f.role)
matches-contains fold f u plain =
    rw
      (
        ilike-contains fold u.name f.search plain,
        ilike-contains fold u.email f.search plain,
        ilike-contains fold u.phone f.search plain,
      )
      refl
