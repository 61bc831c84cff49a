-- ===== src/Users/Listing.antt =====
-- The list of users: the end of internal/repository/user_repository.go.
use Prim.Native.Char.{Char}
use mathlib.Core.List.{reverse}
use rentcar_backend.Base.{
  ℕ, ◌==◌, nat_eq, string_eq, Bool, ◌&&◌, ◌||◌, String, List, ok, err, count, select,
}
use rentcar_backend.Models.{User, UserRole, user_role_eq}
use rentcar_backend.Text.{trim_space}
use rentcar_backend.Text.Like.{ilike}
use rentcar_backend.Listing.{normal_page, normal_size, page_rows, total_pages}
use rentcar_backend.Store.{Action, pure, ◌>>=◌, exec, call, Statement}

-- `UserListFilter` and `UserListResult`
pub record UserListFilter : Type 0 where
  pub search : String
  pub role : UserRole
  pub page : ℕ
  pub page_size : ℕ

pub record UserListResult : Type 0 where
  pub items : List User
  pub total : ℕ
  pub page : ℕ
  pub page_size : ℕ
  pub total_pages : ℕ

-- `normalizeUserListFilter`
abbrev pub normalize : UserListFilter → UserListFilter
normalize f = record f {
  search = trim_space f.search;
  page = normal_page f.page;
  page_size = normal_size 20 f.page_size;
}

module _ (fold : Char → Char) where
  -- `buildUserListWhere`, as the test that its text states
  abbrev pub matches : UserListFilter → User → Bool
  matches f u =
      (f.search == ""
        || ilike fold u.name f.search
        || ilike fold u.email f.search
        || ilike fold u.phone f.search)
      && (f.role == UserRole.other "" || u.role == f.role)

  count_matches : UserListFilter → Statement ℕ
  count_matches f db = ok (count (matches f) db.users, db)

  -- `ORDER BY id ASC`
  select_page : UserListFilter → Statement (List User)
  select_page f db = elim (page_rows f.page f.page_size (reverse (select (matches f) db.users))) [
    | ok rows ↦ ok (rows, db)
    | err c ↦ err c
  ]

  -- `List`
  unfoldable pub list : UserListFilter → Action UserListResult
  unfolding count_matches select_page page_rows
  list filter = do
    let f = normalize filter
    total ← exec (count_matches f)
    items ← call (exec (select_page f))
    pure (record {
      items = items;
      total = total;
      page = f.page;
      page_size = f.page_size;
      total_pages = total_pages total f.page_size;
    })
