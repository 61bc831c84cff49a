-- ===== src/Listing.antt =====
-- The paging that the listings of internal/repository share: the normalised page, LIMIT and OFFSET,
-- and the number of pages. A page or a size below 1 is 0 here.
use rentcar_backend.Base.{
  ℕ, zero, suc, ◌+◌, ◌-◌, ◌*◌, ◌/◌, ◌%◌, ◌^◌, ◌≤◌, ◌≡◌, refl, ltb, leb, nat_eq, if◌then◌else◌, List,
  [], ◌∷◌, Outcome, ok, err, arith,
}
use rentcar_backend.AppError.{Cause, pg}

module _ {ℓ} {A : Type ℓ} where
  abbrev pub length : List A → ℕ
  length [] = 0
  length (x ∷ xs) = suc (length xs)

  abbrev pub take : ℕ → List A → List A
  take zero xs = []
  take (suc n) [] = []
  take (suc n) (x ∷ xs) = x ∷ take n xs

  abbrev pub drop : ℕ → List A → List A
  drop zero xs = xs
  drop (suc n) [] = []
  drop (suc n) (x ∷ xs) = drop n xs

  -- `ORDER BY key DESC`, keeping the order of rows with one key
  abbrev insert_desc : (A → ℕ) → A → List A → List A
  insert_desc key x [] = x ∷ []
  insert_desc key x (y ∷ ys) = if leb (key y) (key x) then x ∷ y ∷ ys else y ∷ insert_desc key x ys

  abbrev pub sort_desc : (A → ℕ) → List A → List A
  sort_desc key [] = []
  sort_desc key (x ∷ xs) = insert_desc key x (sort_desc key xs)

  pub length-take-drop :
      (n m : ℕ) (xs : List A)
      → (length (take n (drop m xs)) ≤ n) × (length (take n (drop m xs)) ≤ length xs - m)
  length-take-drop zero m xs = (omega arith, omega arith)
  length-take-drop (suc n) zero [] = (omega arith, omega arith)
  length-take-drop (suc n) zero (x ∷ xs) =
      let (a, b) = length-take-drop n 0 xs in (omega arith, omega arith)
  length-take-drop (suc n) (suc m) [] = (omega arith, omega arith)
  length-take-drop (suc n) (suc m) (x ∷ xs) =
      let (a, b) = length-take-drop (suc n) m xs in (omega arith, omega arith)

  pub length-page : (n m : ℕ) (xs : List A) → m + n ≤ length xs → length (take n (drop m xs)) ≡ n
  length-page zero m xs h = refl
  length-page (suc n) zero [] h = omega arith
  length-page (suc n) zero (x ∷ xs) h = omega (arith, length-page n 0 xs (omega arith))
  length-page (suc n) (suc m) [] h = omega arith
  length-page (suc n) (suc m) (x ∷ xs) h = length-page (suc n) m xs (omega arith)

-- `if filter.Page < 1`
abbrev pub normal_page : ℕ → ℕ
normal_page page = if ltb page 1 then 1 else page

-- `if filter.PageSize < 1`, with the listing's own default, and `if filter.PageSize > 100`
abbrev pub normal_size : ℕ → ℕ → ℕ
normal_size default size =
    let s = if ltb size 1 then default else size in if ltb 100 s then 100 else s

-- `(filter.Page-1)*filter.PageSize` on `int`, which has 64 bits and a sign
abbrev pub offset : ℕ → ℕ → ℕ
offset page size = ((page - 1) * size) % 2 ^ 64

-- `LIMIT size OFFSET offset`: the database refuses an offset below 0.
unfoldable pub page_rows : {A : Type 0} → ℕ → ℕ → List A → Outcome Cause (List A)
page_rows page size rows =
    if leb (2 ^ 63) (offset page size)
    then err (pg "2201X" "")
    else ok (take size (drop (offset page size) rows))

-- `int(math.Ceil(float64(total) / float64(filter.PageSize)))`, exact for totals below 2 ^ 53
unfoldable pub total_pages : ℕ → ℕ → ℕ
total_pages total size = if ltb 0 total then (total + size - 1) / size else 0
