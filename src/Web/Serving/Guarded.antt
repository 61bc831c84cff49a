-- ===== src/Web/Serving/Guarded.antt =====
-- The guards of internal/router/router.go in front of the handlers of the administration.
use rentcar_backend.Base.{
  not, false, ◌&&◌, ◌||◌, ℕ, ◌≡◌, refl, ap, sym, ◌∙◌, if◌then◌else◌, Bool, true, ◌==◌, nat_eq,
  string_eq, String, List, [], ◌∷◌, exists, All, Bool-cases, inl, inr, some, Outcome, ok, err,
  arith,
}
use rentcar_backend.AppError.{Error, base, status_code, unauthorized}
use rentcar_backend.Models.{UserRole, customer, admin, super_admin, user_role_eq}
use rentcar_backend.Store.{World}
use rentcar_backend.Users.Platform.{Platform}
use rentcar_backend.Middleware.Access.{Caller, require_auth, has_permission, stored_checker}
use rentcar_backend.Middleware.Routes.{seeded, may_enter, Granted, admitted, enter-admitted}
use rentcar_backend.Web.Replies.{Context}
use rentcar_backend.Web.Serving.{
  Request, Server, public, signed_in, list_admin_cars, get_admin_car, create_car, update_car,
  delete_car, list_rentals, approve_rental, reject_rental, update_rental_status, confirm_payment,
  fail_payment, refund_payment, list_maintenances, create_maintenance, update_maintenance,
  delete_maintenance, report, list_audits, list_users, update_role, Access, administration,
  access_of, gate, identified, handle, past_gate, serve,
}

-- The permissions of the administration's routes.
abbrev codes : List String
codes =
    "cars:manage" ∷ "rentals:manage" ∷ "payments:manage" ∷ "maintenance:manage" ∷ "reports:view"
    ∷ "audit:view" ∷ "users:view" ∷ "users:manage" ∷ []

abbrev is_known : Access → Bool
is_known (administration code) = exists (λ k. k == code) codes
is_known _ = true

known : (r : Request) → is_known (access_of r) ≡ true
unfolding access_of
known r = ground arith

granted : (role : UserRole) → All (λ code. Granted role code) codes
unfolding has_permission
granted customer = ground arith
granted admin = ground arith
granted super_admin = ground arith
granted (UserRole.other s) = ground arith

listed :
    (P : String → Type 0) (code : String) (ks : List String)
    → All P ks
    → exists (λ k. k == code) ks ≡ true
    → P code
listed P code [] h e = absurd (ground arith)
listed P code (k ∷ ks) h e = elim (Bool-cases (k == code)) [
  | inl here ↦ rw (← (string_eq.equal_iff k code).0 here) h.0
  | inr other ↦ listed P code ks h.1 (ground (arith, other))
]

granted_to :
    (r : Request) (code : String) (role : UserRole)
    → access_of r ≡ administration code
    → Granted role code
granted_to r code role h =
    listed (λ k. Granted role k) code codes (granted role) (sym (ap is_known h) ∙ known r)

-- The requests to the routes under /api/v1/admin.
abbrev pub administers : Request → Bool
administers list_admin_cars = true
administers get_admin_car = true
administers (create_car _) = true
administers (update_car _) = true
administers delete_car = true
administers list_rentals = true
administers approve_rental = true
administers reject_rental = true
administers (update_rental_status _) = true
administers confirm_payment = true
administers fail_payment = true
administers refund_payment = true
administers list_maintenances = true
administers (create_maintenance _) = true
administers (update_maintenance _) = true
administers delete_maintenance = true
administers report = true
administers list_audits = true
administers list_users = true
administers (update_role _) = true
administers _ = false

-- The requests that are left to the super administrators.
abbrev pub is_kept : Request → Bool
is_kept list_audits = true
is_kept (update_role _) = true
is_kept _ = false

abbrev pub may_ask : UserRole → Request → Bool
may_ask role r = role == super_admin || role == admin && not (is_kept r)

abbrev is_administration : Access → Bool
is_administration (administration code) = true
is_administration _ = false

abbrev may_pass : UserRole → Access → Bool
may_pass role (administration code) = may_enter role code
may_pass role _ = false

administers_lem : (r : Request) → administers r ≡ is_administration (access_of r)
unfolding access_of
administers_lem r = ground arith

asked_lem :
    (role : UserRole) (r : Request)
    → may_pass role (access_of r) ≡ (administers r && may_ask role r)
unfolding access_of
asked_lem role r = ground arith

code_of : (a : Access) → is_administration a ≡ true → (code : String) × (a ≡ administration code)
code_of public h = absurd (ground arith)
code_of signed_in h = absurd (ground arith)
code_of (administration code) h = (code, refl)

may_ask_lem :
    (role : UserRole) (r : Request) (code : String)
    → access_of r ≡ administration code
    → administers r ≡ true
    → may_enter role code ≡ may_ask role r
may_ask_lem role r code at under =
    sym (ap (may_pass role) at) ∙ asked_lem role r ∙ ap (λ b. b && may_ask role r) under

-- What such a request answers, by what `RequireAuth` says.
abbrev pub guarded_answer : Server → Context → Request → World → Outcome Error Caller → ℕ × World
guarded_answer s c r w (err e) = (401, w)
guarded_answer s c r w (ok d) =
    if may_ask d.role r then handle s (record c { caller = some d }) r w else (403, w)

-- `RequireAuth` has one error.
unauthorized_only :
    (p : Platform) (secret : String) (now : ℕ) (header : String) (e : Error)
    → require_auth p secret now header ≡ err e
    → e ≡ base unauthorized
unfolding require_auth
unauthorized_only p secret now header e h = ground arith

module _ (s : Server) (c : Context) (r : Request) (w : World) where
  answered :
      (code : String) (a : Outcome Error Caller)
      → ((e : Error) → a ≡ err e → e ≡ base unauthorized)
      → ((role : UserRole) → may_enter role code ≡ may_ask role r)
      → past_gate s c r w (identified (admitted code a)) ≡ guarded_answer s c r w a
  unfolding status_code
  answered code (err e) only may = rw (only e refl) refl
  answered code (ok d) only may = elim (Bool-cases (may_ask d.role r)) [
    | inl allows ↦ rw (may d.role, allows) refl
    | inr refuses ↦ rw (may d.role, refuses) refl
  ]

  -- On the tables that migrations 014 and 018 make, and while the database answers, a request to a route under
  -- /api/v1/admin, but that of images, is answered 401 where RequireAuth refuses its header, and 403 where the
  -- caller is neither a super administrator nor, except on the audit log and on a change of a user's role, an
  -- administrator, and the tables stay as they are; any other comes to its handler, as that caller.
  pub serve_guarded :
      (header : String)
      → s.checker ≡ stored_checker seeded
      → administers r ≡ true
      → serve s c header r w
        ≡ guarded_answer s c r w (require_auth s.platform s.settings.jwt_secret w.now header)
  unfolding serve gate handle
  serve_guarded header seeds under =
      let (code, at) = code_of (access_of r) (sym (administers_lem r) ∙ under) in
      rw
        (
          at,
          seeds,
          enter-admitted s.platform s.settings.jwt_secret code (λ role. granted_to r code role at)
              w.now header,
        )
        (answered code (require_auth s.platform s.settings.jwt_secret w.now header)
          (unauthorized_only s.platform s.settings.jwt_secret w.now header)
          (λ role. may_ask_lem role r code at under))
