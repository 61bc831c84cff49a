-- ===== src/AppError/Mapping.antt =====
-- How a database error reaches the client.
use rentcar_backend.Base.{ℕ, ◌≡◌, refl, ◌==◌, string_eq, if◌then◌else◌, arith}
use rentcar_backend.AppError.{Cause, no_rows, pg, failure, status_code, message, map_cause}

-- The HTTP status of each database error: a missing row is 404, a unique or an exclusion violation
-- 409, a foreign key violation 400, and all else 500.
abbrev pub pg_status : Cause → ℕ
pg_status no_rows = 404
pg_status (pg code _) =
    if code == "23505"
    then 409
    else if code == "23503"
    then 400
    else if code == "23P01"
    then 409
    else 500
pg_status (failure _) = 500

-- A database error is reported with the HTTP status that its code calls for, and one that is
-- reported with 500 shows the client no text of the database.
pub status_code-map_cause :
    (c : Cause)
    → (status_code (map_cause c) ≡ pg_status c)
      × (status_code (map_cause c) ≡ 500 → message (map_cause c) ≡ "internal server error")
unfolding status_code map_cause message
status_code-map_cause no_rows = (refl, λ e. absurd (omega arith))
status_code-map_cause (pg code constraint) = ground arith
status_code-map_cause (failure text) = (refl, λ e. refl)
