-- ===== src/Middleware/RateLimiter.antt =====
-- internal/middleware/rate_limiter.go. A request holds the lock from the cleanup to the count, so requests
-- are served one after the other; the times are those that they read.
pub mod Ideal
pub mod Bounds
use rentcar_backend.Base.{
  ℕ, ◌+◌, ◌-◌, ◌/◌, ◌≡◌, ◌==◌, nat_eq, string_eq, if◌then◌else◌, Bool, true, false, not, ◌||◌, ltb,
  String, List, [], ◌∷◌, Option, none, some, Outcome, ok, err, ℤ, pos, negsuc,
}
use rentcar_backend.AppError.{Cause}

-- `RateLimitConfig`; a number of requests or a window that is not above 0 is 0.
pub record RateLimitConfig : Type 0 where
  pub max_requests : ℕ
  pub window : ℕ

pub record RateLimitState : Type 0 where
  pub count : ℤ
  pub reset_after : ℤ

-- `visitorState`; the time 0 is `time.Time{}`.
pub record VisitorState : Type 0 where
  pub count : ℕ
  pub reset_time : ℕ

-- What the handler closes over; a key that is not in the map has no value.
pub record Limiter : Type 0 where
  pub visitors : String → Option VisitorState
  pub last_cleanup : ℕ

pub record Headers : Type 0 where
  pub limit : ℕ
  pub remaining : ℕ
  pub reset : ℕ
  pub retry_after : Option ℕ

-- `c.Next()`, or 429, with the headers that are written.
pub record Decision : Type 0 where
  pub admitted : Bool
  pub headers : Option Headers

-- A request: the client's address, the time at which it starts, that at which its answer is computed,
-- and what `Increment` returns where there is a store.
pub record Request : Type 0 where
  pub client_ip : String
  pub now : ℕ
  pub later : ℕ
  pub store : Option (Outcome Cause RateLimitState)

abbrev pub with_window : RateLimitConfig → RateLimitConfig
with_window config = record config {
  window = if config.window == 0 then 60_000_000_000 else config.window;
}

-- `now.After(state.ResetTime)`
abbrev pub is_past : ℕ → VisitorState → Bool
is_past now v = ltb v.reset_time now

abbrev kept_visitor : ℕ → Option VisitorState → Option VisitorState
kept_visitor now none = none
kept_visitor now (some v) = if is_past now v then none else some v

-- The loop that deletes what is past.
abbrev pub cleanup : ℕ → ℕ → Limiter → Limiter
cleanup window now l =
    if ltb window (now - l.last_cleanup)
    then record { visitors = λ k. kept_visitor now (l.visitors k); last_cleanup = now }
    else l

-- A key that is missing has the zero value.
abbrev pub value : Option VisitorState → VisitorState
value none = record { count = 0; reset_time = 0 }
value (some v) = v

-- The window of a visitor, which starts anew where it is past or never started.
abbrev pub renewed : ℕ → ℕ → VisitorState → VisitorState
renewed window now v =
    if v.reset_time == 0 || is_past now v
    then record { count = 0; reset_time = now + window }
    else v

abbrev pub counted : VisitorState → VisitorState
counted v = record v { count = v.count + 1 }

abbrev pub assign : {A : Type 0} → (String → A) → String → A → String → A
assign m key v k = if k == key then v else m k

-- What is done under the lock.
unfoldable pub count_visit : ℕ → String → ℕ → Limiter → VisitorState × Limiter
count_visit window key now l =
    let l' = cleanup window now l in
    let state = counted (renewed window now (value (l'.visitors key))) in
    (state, record l' { visitors = assign l'.visitors key (some state) })

abbrev over : ℕ → ℤ → Bool
over limit (pos n) = ltb limit n
over limit (negsuc n) = false

-- `max(limit - count, 0)`
abbrev rest_of : ℕ → ℤ → ℕ
rest_of limit (pos n) = limit - n
rest_of limit (negsuc n) = limit + n + 1

-- `writeRateLimitHeaders`, and the answer 429 over the limit
unfoldable pub respond : ℕ → ℤ → ℕ → Decision
respond limit count seconds = record {
  admitted = not (over limit count);
  headers = some (record {
    limit = limit;
    remaining = rest_of limit count;
    reset = seconds;
    retry_after = if over limit count then some seconds else none;
  });
}

abbrev pub by_visitor : ℕ → ℕ → VisitorState → Decision
by_visitor limit later v = respond limit (pos v.count) ((v.reset_time - later) / 1_000_000_000)

-- Whole seconds, and 0 for a time before now.
abbrev pub whole_seconds : ℤ → ℕ
whole_seconds (pos n) = n / 1_000_000_000
whole_seconds (negsuc n) = 0

-- A store that fails is passed over.
abbrev pub by_store : Option (Outcome Cause RateLimitState) → Option RateLimitState
by_store none = none
by_store (some (ok s)) = some s
by_store (some (err c)) = none

abbrev pub unlimited : Decision
unlimited = record { admitted = true; headers = none }

-- The handler that `RateLimiter` returns.
unfoldable pub handle : RateLimitConfig → Request → Limiter → Decision × Limiter
unfolding respond count_visit
handle config r l = if config.max_requests == 0 then (unlimited, l) else elim (by_store r.store) [
  | some s ↦ (respond config.max_requests s.count (whole_seconds s.reset_after), l)
  | none ↦
      let (v, l') = count_visit (with_window config).window r.client_ip r.now l in
      (by_visitor config.max_requests r.later v, l')
]

-- The requests of a run, one after the other.
unfoldable pub serve : RateLimitConfig → List Request → Limiter → List Decision
unfolding handle
serve config [] l = []
serve config (r ∷ rs) l = let (d, l') = handle config r l in d ∷ serve config rs l'

-- `RateLimiter` at its start
abbrev pub new_limiter : ℕ → Limiter
new_limiter now = record { visitors = λ _. none; last_cleanup = now }

-- Each request starts no earlier than the one before.
abbrev pub InOrder : ℕ → List Request → Type 0
InOrder t [] = Unit
InOrder t (r ∷ rs) = (ltb r.now t ≡ false) × InOrder r.now rs
