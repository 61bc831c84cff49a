-- ===== src/Middleware/RateLimiter/Bounds.antt =====
-- How many requests of a client the limiter admits by its own map.
use rentcar_backend.Base.{
  ℕ, ◌+◌, ◌-◌, ◌*◌, ◌≤◌, ◌==◌, nat_eq, string_eq, ◌≡◌, refl, if◌then◌else◌, true, false, ◌&&◌, ◌||◌,
  ltb, String, List, [], ◌∷◌, none, some, Option, arith, Bool-cases, inl, inr,
}
use rentcar_backend.Middleware.RateLimiter.{
  RateLimitConfig, VisitorState, Limiter, Decision, Request, with_window, cleanup, value, renewed,
  counted, assign, count_visit, by_visitor, by_store, respond, is_past, handle, serve, InOrder,
}

-- The requests of a client among those that were admitted.
abbrev pub admitted_of : String → List Request → List Decision → ℕ
admitted_of key [] ds = 0
admitted_of key (r ∷ rs) [] = 0
admitted_of key (r ∷ rs) (d ∷ ds) =
    let rest = admitted_of key rs ds in if key == r.client_ip && d.admitted then rest + 1 else rest

-- Each request is answered by the map, and starts by the time `last`.
abbrev pub Local : ℕ → List Request → Type 0
Local last [] = Unit
Local last (r ∷ rs) = (by_store r.store ≡ none) × (ltb last r.now ≡ false) × Local last rs

-- The requests that a visitor has left up to `last`, from `now` on.
abbrev left : ℕ → ℕ → ℕ → VisitorState → ℕ
left limit now last v =
    if v.reset_time == 0 || is_past now v
    then limit
    else if ltb v.reset_time last
    then limit - v.count + limit
    else limit - v.count

left-cleanup :
    (limit window now last : ℕ) (l : Limiter) (key : String)
    → left limit now last (value ((cleanup window now l).visitors key))
      ≤ left limit now last (value (l.visitors key))
left-cleanup limit window now last l key = ground arith

left-later :
    (limit now later last : ℕ) (v : VisitorState)
    → ltb later now ≡ false
    → ltb last later ≡ false
    → left limit later last v ≤ left limit now last v
left-later limit now later last v h k = ground arith

-- A visit takes one of what is left where it is admitted.
left-counted :
    (limit window now last : ℕ) (v : VisitorState)
    → ltb 0 window ≡ true
    → ltb (now + window) last ≡ false
    → ltb last now ≡ false
    → (if ltb limit (counted (renewed window now v)).count then 0 else 1)
        + left limit now last (counted (renewed window now v))
      ≤ left limit now last v
left-counted limit window now last v some_window within h = ground arith

abbrev gain : String → Request → Decision → ℕ
gain key r d = if key == r.client_ip && d.admitted then 1 else 0

gain-admitted :
    (key : String) (r : Request) (rs : List Request) (d : Decision) (ds : List Decision)
    → admitted_of key (r ∷ rs) (d ∷ ds) ≡ gain key r d + admitted_of key rs ds
gain-admitted key r rs d ds = ground arith

gain-by_visitor :
    (limit later : ℕ) (key : String) (r : Request) (v : VisitorState)
    → gain key r (by_visitor limit later v)
      ≡ (if key == r.client_ip then (if ltb limit v.count then 0 else 1) else 0)
unfolding respond
gain-by_visitor limit later key r v = ground arith

-- The value of a key in a map after an assignment.
value-assign :
    (visitors : String → Option VisitorState) (key k : String) (v : VisitorState)
    → value (assign visitors key (some v) k) ≡ (if k == key then v else value (visitors k))
value-assign visitors key k v = ground arith

own :
    (limit window now last : ℕ) (key k : String) (visitors : String → Option VisitorState)
    → ltb 0 window ≡ true
    → ltb (now + window) last ≡ false
    → ltb last now ≡ false
    → let v = counted (renewed window now (value (visitors key))) in
      (if k == key then (if ltb limit v.count then 0 else 1) else 0)
        + left limit now last (if k == key then v else value (visitors k))
      ≤ left limit now last (value (visitors k))
own limit window now last key k visitors some_window within h = elim (Bool-cases (k == key)) [
  | inl here ↦
      let same : k ≡ key = (string_eq.equal_iff k key).0 here in
      rw (here, same)
        (left-counted limit window now last (value (visitors key)) some_window within h)
  | inr other ↦ rw other (omega arith)
]

visit-left :
    (limit window later last : ℕ) (key : String) (r : Request) (l : Limiter)
    → ltb 0 window ≡ true
    → ltb (r.now + window) last ≡ false
    → ltb last r.now ≡ false
    → let (v, l') = count_visit window r.client_ip r.now l in
      gain key r (by_visitor limit later v) + left limit r.now last (value (l'.visitors key))
      ≤ left limit r.now last (value (l.visitors key))
unfolding count_visit
visit-left limit window later last key r l some_window within h =
    let l' : Limiter = cleanup window r.now l in
    let v : VisitorState = counted (renewed window r.now (value (l'.visitors r.client_ip))) in
    let step = own limit window r.now last r.client_ip key l'.visitors some_window within h in
    let clean = left-cleanup limit window r.now last l key in
    rw (gain-by_visitor limit later key r v, value-assign l'.visitors r.client_ip key v)
      (omega (arith, step, clean))

handle-left :
    (config : RateLimitConfig) (last : ℕ) (key : String) (r : Request) (l : Limiter)
    → (config.max_requests == 0) ≡ false
    → by_store r.store ≡ none
    → ltb (r.now + (with_window config).window) last ≡ false
    → ltb last r.now ≡ false
    → gain key r (handle config r l).0
        + left config.max_requests r.now last (value ((handle config r l).1.visitors key))
      ≤ left config.max_requests r.now last (value (l.visitors key))
unfolding handle
handle-left config last key r l limited local within h =
    let some_window : ltb 0 (with_window config).window ≡ true = ground arith in
    rw (limited, local)
      (visit-left config.max_requests (with_window config).window r.later last key r l some_window
        within h)

serve-left :
    (config : RateLimitConfig) (last now : ℕ) (key : String) (rs : List Request) (l : Limiter)
    → (config.max_requests == 0) ≡ false
    → InOrder now rs
    → Local last rs
    → ltb (now + (with_window config).window) last ≡ false
    → admitted_of key rs (serve config rs l)
      ≤ left config.max_requests now last (value (l.visitors key))
unfolding serve
serve-left config last now key [] l limited order local within = omega arith
serve-left config last now key (r ∷ rs) l limited order local within =
    let limit = config.max_requests in
    let l' : Limiter = (handle config r l).1 in
    let within' : ltb (r.now + (with_window config).window) last ≡ false =
      ground (arith, order.0) in
    let step = handle-left config last key r l limited local.0 within' local.1 in
    let rest = serve-left config last r.now key rs l' limited order.1 local.2 within' in
    let start = left-later limit now r.now last (value (l.visitors key)) order.0 local.1 in
    rw (gain-admitted key r rs (handle config r l).0 (serve config rs l'))
      (omega (arith, step, rest, start))

left-twice : (limit now last : ℕ) (v : VisitorState) → left limit now last v ≤ 2 * limit
left-twice limit now last v = ground arith

-- Requests that the map answers, all within one window from `now`: of each client at most twice
-- `MaxRequests` of them are admitted, whatever the map has seen before.
pub admitted-le_twice :
    (config : RateLimitConfig) (now last : ℕ) (key : String) (rs : List Request) (l : Limiter)
    → (config.max_requests == 0) ≡ false
    → InOrder now rs
    → Local last rs
    → ltb (now + (with_window config).window) last ≡ false
    → admitted_of key rs (serve config rs l) ≤ 2 * config.max_requests
admitted-le_twice config now last key rs l limited order local within = omega (
  arith,
  serve-left config last now key rs l limited order local within,
  left-twice config.max_requests now last (value (l.visitors key)),
)

-- The same of a client that the map has no window of at `now`: at most `MaxRequests` are admitted.
pub admitted-le :
    (config : RateLimitConfig) (now last : ℕ) (key : String) (rs : List Request) (l : Limiter)
    → (config.max_requests == 0) ≡ false
    → InOrder now rs
    → Local last rs
    → ltb (now + (with_window config).window) last ≡ false
    → l.visitors key ≡ none
    → admitted_of key rs (serve config rs l) ≤ config.max_requests
admitted-le config now last key rs l limited order local within unseen =
    let le = serve-left config last now key rs l limited order local within in
    let all : left config.max_requests now last (value (l.visitors key)) ≡ config.max_requests =
      rw unseen refl in
    omega (arith, le, all)
