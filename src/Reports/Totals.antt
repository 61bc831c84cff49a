-- ===== src/Reports/Totals.antt =====
-- The cars of a report against its totals.
use rentcar_backend.Base.{
  ℕ, zero, suc, ◌+◌, ◌≤◌, ◌==◌, nat_eq, ◌≡◌, refl, ap, sym, ◌∙◌, Bool, false, ltb, List, [], ◌∷◌,
  ok, exists, select, map, DistinctBy, arith, Bool-cases, inl, inr,
}
use rentcar_backend.Models.{Car}
use rentcar_backend.Listing.{length, take}
use rentcar_backend.Store.{World, Action, pure, ◌>>=◌, exec, call}
use rentcar_backend.Store.Keeps.{call_alone}
use rentcar_backend.Store.Calm.{exec_others}
use rentcar_backend.Store.Inversion.{bind-ok, exec-ok}
use rentcar_backend.Reports.Repository.{
  TopCarStats, ReportSummary, Joined, rows_of, paid_amount, paid_total, stats_of, groups, is_before,
  insert_stats, sort_stats, totals, top_cars, summary,
}

-- The revenue that a list of cars has.
abbrev pub revenue_of : List TopCarStats → ℕ
revenue_of [] = 0
revenue_of (t ∷ ts) = t.revenue + revenue_of ts

revenue-insert :
    (s : TopCarStats) (ts : List TopCarStats)
    → revenue_of (insert_stats s ts) ≡ s.revenue + revenue_of ts
revenue-insert s [] = refl
revenue-insert s (t ∷ ts) = elim (Bool-cases (is_before s t)) [
  | inl h ↦ rw h refl
  | inr h ↦ rw h (omega (arith, revenue-insert s ts))
]

revenue-sort : (ts : List TopCarStats) → revenue_of (sort_stats ts) ≡ revenue_of ts
revenue-sort [] = refl
revenue-sort (t ∷ ts) = omega (arith, revenue-insert t (sort_stats ts), revenue-sort ts)

revenue-take : (n : ℕ) (ts : List TopCarStats) → revenue_of (take n ts) ≤ revenue_of ts
revenue-take zero ts = omega arith
revenue-take (suc n) [] = omega arith
revenue-take (suc n) (t ∷ ts) = omega (arith, revenue-take n ts)

revenue-select :
    (p : TopCarStats → Bool) (ts : List TopCarStats) → revenue_of (select p ts) ≤ revenue_of ts
revenue-select p [] = omega arith
revenue-select p (t ∷ ts) = ground (arith, revenue-select p ts)

length-take : (n : ℕ) (ts : List TopCarStats) → length (take n ts) ≤ n
length-take zero ts = omega arith
length-take (suc n) [] = omega arith
length-take (suc n) (t ∷ ts) = omega (arith, length-take n ts)

-- A row adds what was paid for it to the cars that it is of.
revenue-cons :
    (j : Joined) (rows : List Joined) (cars : List Car)
    → exists (λ (c : Car). c.id == j.rental.car_id) cars ≡ false
    → revenue_of (map (stats_of (j ∷ rows)) cars) ≡ revenue_of (map (stats_of rows) cars)
revenue-cons j rows [] h = refl
revenue-cons j rows (c ∷ cars) h = ground (
  arith,
  revenue-cons j rows cars,
  nat_eq.equal_iff j.rental.car_id c.id,
  nat_eq.equal_iff c.id j.rental.car_id,
)

revenue-row :
    (j : Joined) (rows : List Joined) (cars : List Car)
    → DistinctBy (λ (c : Car). c.id) cars
    → revenue_of (map (stats_of (j ∷ rows)) cars)
      ≤ paid_amount j + revenue_of (map (stats_of rows) cars)
revenue-row j rows [] d = omega arith
revenue-row j rows (c ∷ cars) d = elim (Bool-cases (j.rental.car_id == c.id)) [
  | inl here ↦
      let key : j.rental.car_id ≡ c.id = (nat_eq.equal_iff j.rental.car_id c.id).0 here in
      let rest : revenue_of (map (stats_of (j ∷ rows)) cars)
          ≡ revenue_of (map (stats_of rows) cars) =
        revenue-cons j rows cars (rw key d.0) in
      rw here (omega (arith, rest))
  | inr other ↦ rw other (omega (arith, revenue-row j rows cars d.1))
]

revenue-rows :
    (rows : List Joined) (cars : List Car)
    → DistinctBy (λ (c : Car). c.id) cars
    → revenue_of (map (stats_of rows) cars) ≤ paid_total rows
revenue-rows [] [] d = omega arith
revenue-rows [] (c ∷ cars) d = omega (arith, revenue-rows [] cars d.1)
revenue-rows (j ∷ rows) cars d = omega (arith, revenue-row j rows cars d, revenue-rows rows cars d)

-- The best of the groups of some rows.
best_cars :
    (rows : List Joined) (cars : List Car)
    → DistinctBy (λ (c : Car). c.id) cars
    → (length (take 5 (sort_stats (groups rows cars))) ≤ 5)
      × (revenue_of (take 5 (sort_stats (groups rows cars))) ≤ paid_total rows)
best_cars rows cars d = (
  length-take 5 (sort_stats (groups rows cars)),
  omega (
    arith,
    revenue-take 5 (sort_stats (groups rows cars)),
    revenue-sort (groups rows cars),
    revenue-select (λ t. ltb 0 t.rental_count) (map (stats_of rows) cars),
    revenue-rows rows cars d,
  ),
)

-- What the two queries give, run one after the other.
summary_parts :
    (start end : ℕ) (w : World) (s : ReportSummary)
    → w.others ≡ []
    → (summary start end w).0 ≡ ok s
    → (s.top_cars ≡ take 5 (sort_stats (groups (rows_of start end w.db) w.db.cars)))
      × (s.revenue ≡ paid_total (rows_of start end w.db))
unfolding summary totals top_cars call
summary_parts start end w s alone h =
    let rest : ReportSummary → Action ReportSummary = λ result.
      call (exec (top_cars start end)) >>= λ cars. pure (record result { top_cars = cars }) in
    let (r, first, h', same) = bind-ok (exec (totals start end)) rest w s h in
    let v : World = (exec (totals start end) w).1 in
    let v_alone : v.others ≡ [] = exec_others (totals start end) w ∙ alone in
    let here = call_alone (exec (top_cars start end)) v v_alone in
    let (cars, second, h'', same') =
      bind-ok (call (exec (top_cars start end))) (λ cars. pure (record r { top_cars = cars })) v s
        h' in
    let one = (exec-ok (totals start end) w r first.result).0 in
    let two = (exec-ok (top_cars start end) v cars (ap (λ x. x.0) (sym here) ∙ second.result)).0 in
    (ground arith, ground arith)

-- A report that succeeds, with no other request between its two queries, has at most five cars, whose revenue
-- together is at most the revenue of the report, where the cars' identifiers are distinct.
pub summary_top_cars :
    (start end : ℕ) (w : World) (s : ReportSummary)
    → w.others ≡ []
    → DistinctBy (λ (c : Car). c.id) w.db.cars
    → (summary start end w).0 ≡ ok s
    → (length s.top_cars ≤ 5) × (revenue_of s.top_cars ≤ s.revenue)
summary_top_cars start end w s alone d h =
    let (cars, revenue) = summary_parts start end w s alone h in
    rw (cars, revenue) (best_cars (rows_of start end w.db) w.db.cars d)
