-- ===== src/Middleware/RateLimiter/Ideal.antt =====
-- The rate limiter without a cleanup: one counter for each client, for ever.
use rentcar_backend.Base.{
  ℕ, ◌==◌, nat_eq, string_eq, ◌≡◌, refl, if◌then◌else◌, false, ltb, String, List, [], ◌∷◌, none,
  some, arith, ap, Bool-cases, Option-cases, inl, inr,
}
use rentcar_backend.Middleware.RateLimiter.{
  RateLimitConfig, VisitorState, Limiter, Decision, Request, with_window, cleanup, value, renewed,
  counted, assign, count_visit, by_visitor, by_store, whole_seconds, respond, unlimited, handle,
  serve, new_limiter, InOrder,
}

abbrev pub Counters : Type 0
Counters = String → VisitorState

abbrev ideal_visit : ℕ → Request → Counters → VisitorState
ideal_visit window r m = counted (renewed window r.now (m r.client_ip))

abbrev pub ideal_handle : RateLimitConfig → Request → Counters → Decision × Counters
ideal_handle config r m =
    if config.max_requests == 0 then (unlimited, m) else elim (by_store r.store) [
      | some s ↦ (respond config.max_requests s.count (whole_seconds s.reset_after), m)
      | none ↦
          let v = ideal_visit (with_window config).window r m in
          (by_visitor config.max_requests r.later v, assign m r.client_ip v)
    ]

unfoldable pub ideal_serve : RateLimitConfig → List Request → Counters → List Decision
ideal_serve config [] m = []
ideal_serve config (r ∷ rs) m =
    let (d, m') = ideal_handle config r m in d ∷ ideal_serve config rs m'

-- From `now` on, the limiter and the counters say the same of every client.
abbrev Agrees : ℕ → ℕ → Limiter → Counters → Type 0
Agrees window now l m =
    (k : String) (t : ℕ)
    → ltb t now ≡ false
    → renewed window t (value (l.visitors k)) ≡ renewed window t (m k)

cleanup-Agrees :
    (window now : ℕ) (l : Limiter) (m : Counters)
    → Agrees window now l m
    → Agrees window now (cleanup window now l) m
cleanup-Agrees window now l m h k t late = ground (arith, h k t late)

later-Agrees :
    (window now later : ℕ) (l : Limiter) (m : Counters)
    → ltb later now ≡ false
    → Agrees window now l m
    → Agrees window later l m
later-Agrees window now later l m order h k t late = h k t (ground arith)

assign-Agrees :
    (window now : ℕ) (l : Limiter) (m : Counters) (key : String) (v : VisitorState)
    → Agrees window now l m
    → Agrees window now (record l { visitors = assign l.visitors key (some v) }) (assign m key v)
assign-Agrees window now l m key v h k t late = ground (arith, h k t late)

same_visit :
    (window : ℕ) (r : Request) (l : Limiter) (m : Counters)
    → Agrees window r.now l m
    → (count_visit window r.client_ip r.now l).0 ≡ ideal_visit window r m
unfolding count_visit
same_visit window r l m h =
    ap counted (cleanup-Agrees window r.now l m h r.client_ip r.now (ground arith))

visit-Agrees :
    (window : ℕ) (r : Request) (l : Limiter) (m : Counters)
    → Agrees window r.now l m
    → Agrees window r.now
        (count_visit window r.client_ip r.now l).1
        (assign m r.client_ip (ideal_visit window r m))
unfolding count_visit
visit-Agrees window r l m h =
    let l' : Limiter = cleanup window r.now l in
    let kept : Agrees window r.now l' m = cleanup-Agrees window r.now l m h in
    let v : VisitorState = counted (renewed window r.now (value (l'.visitors r.client_ip))) in
    let same : v ≡ ideal_visit window r m = ap counted (kept r.client_ip r.now (ground arith)) in
    rw (← same) (assign-Agrees window r.now l' m r.client_ip v kept)

same_handle :
    (config : RateLimitConfig) (r : Request) (l : Limiter) (m : Counters)
    → Agrees (with_window config).window r.now l m
    → ((handle config r l).0 ≡ (ideal_handle config r m).0)
      × Agrees (with_window config).window r.now (handle config r l).1 (ideal_handle config r m).1
unfolding handle
same_handle config r l m h = elim (Bool-cases (config.max_requests == 0)) [
  | inl none_set ↦ rw none_set (refl, h)
  | inr limited ↦ rw limited (elim (Option-cases (by_store r.store)) [
    | inl local ↦ rw local (
      ap (by_visitor config.max_requests r.later) (same_visit (with_window config).window r l m h),
      visit-Agrees (with_window config).window r l m h,
    )
    | inr (s, stored) ↦ rw stored (refl, h)
  ])
]

serve_from :
    (config : RateLimitConfig) (rs : List Request) (now : ℕ) (l : Limiter) (m : Counters)
    → InOrder now rs
    → Agrees (with_window config).window now l m
    → serve config rs l ≡ ideal_serve config rs m
unfolding serve ideal_serve
serve_from config [] now l m order h = refl
serve_from config (r ∷ rs) now l m order h =
    let late = later-Agrees (with_window config).window now r.now l m order.0 h in
    let (same, next) = same_handle config r l m late in
    rw
      (
        same,
        serve_from config rs r.now (handle config r l).1 (ideal_handle config r m).1 order.1 next,
      )
      refl

-- The map that is cleaned from time to time answers any requests, whose times do not decrease, as
-- counters that are never deleted do.
pub serve-ideal_serve :
    (config : RateLimitConfig) (rs : List Request) (now : ℕ)
    → InOrder now rs
    → serve config rs (new_limiter now)
      ≡ ideal_serve config rs (λ _. record { count = 0; reset_time = 0 })
serve-ideal_serve config rs now order =
    serve_from config rs now (new_limiter now) (λ _. record { count = 0; reset_time = 0 }) order
      (λ k t late. refl)
