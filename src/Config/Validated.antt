-- ===== src/Config/Validated.antt =====
-- Configurations that are accepted.
use Prim.Native.String as Native
use rentcar_backend.Base.{
  ℕ, ◌≤◌, ◌<◌, ◌≡◌, ◌≢◌, refl, string_eq, true, false, none, ℤ, pos, negsuc, arith,
}
use rentcar_backend.Config.{Config, validate, int_ltb, is_positive}

-- A number above 0.
abbrev pub IsAbove0 : ℤ → Type 0
IsAbove0 n = (m : ℕ) × (n ≡ pos m) × (0 < m)

above : (n : ℤ) → is_positive n ≡ true → IsAbove0 n
above (pos m) h = (m, refl, ground arith)
above (negsuc m) h = absurd (ground arith)

-- A limit that is not below 0.
within : (n : ℤ) → int_ltb n (pos 0) ≡ false → (m : ℕ) × (n ≡ pos m)
within (pos m) h = (m, refl)
within (negsuc m) h = absurd (ground arith)

pub record IsAccepted (c : Config) : Type 0 where
  pub database : c.database_url ≢ ""
  pub secret : (c.env ≡ "production") → 32 ≤ Native.len c.jwt_secret
  pub limit : (m : ℕ) × (c.rate_limit_max ≡ pos m) × ((0 < m) → IsAbove0 c.rate_limit_window)
  pub lifetime : IsAbove0 c.email_verify_ttl

-- Validate accepts only a configuration that names a database, that has a secret of 32 bytes at least in
-- production, whose limit of requests is not below 0 and has a window above 0 unless it is 0, and whose codes of
-- verification live longer than 0.
pub validate-IsAccepted : (c : Config) → validate c ≡ none → IsAccepted c
unfolding validate
validate-IsAccepted c h =
    let (m, e) = within c.rate_limit_max (ground arith) in
    record {
      database = λ q. absurd (ground (arith, string_eq.equal_iff c.database_url ""));
      secret = λ q. ground (arith, string_eq.equal_iff c.env "production", h);
      limit = (
        m,
        e,
        λ p. above c.rate_limit_window (
            let limited : is_positive c.rate_limit_max ≡ true = rw e (ground arith) in
            ground (arith, limited)),
      );
      lifetime = above c.email_verify_ttl (ground arith);
    }
