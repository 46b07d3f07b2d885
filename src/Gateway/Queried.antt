-- ===== src/Gateway/Queried.antt =====
-- What a query of events returns (internal/coreapi/store.go).
use signalyard.Common.{
  ℕ, ◌≤◌, ◌≡◌, String, String_eq, ℕ_eq, Bool, true, false, ◌&&◌, ◌||◌, List, ℤ, pos, negsuc, leb,
  length, take, select, order_by, ◌==◌, arith,
}
use signalyard.Common.OrderLaws.{
  AllOf, IsSorted, select-AllOf, take-AllOf, take-IsSorted, length-take, order_by-AllOf,
  order_by-IsSorted, map-AllOf, map-IsSorted, length-map,
}
use signalyard.Platform.Exec.{ok}
use signalyard.Platform.Database.{EventRow}
use signalyard.Platform.Inversion.{query-eq-ok}
use signalyard.Platform.World.{Env, World}
use signalyard.Gateway.Store.{
  Event, limit_of, has_category, in_query, scan_event, later, query_events,
}

-- The filter of a query, on what it returns.
abbrev pub fits : String → (start stop : ℕ) → Event → Bool
fits category start stop e =
    ((category == "") || (e.category == category))
    && ((start == 0) || leb start e.timestamp)
    && ((stop == 0) || leb e.timestamp stop)

abbrev pub latest_first : Event → Event → Bool
latest_first a b = leb b.timestamp a.timestamp

limit_of-le : (limit : ℤ) → limit_of limit ≤ 1000
unfolding limit_of
limit_of-le (negsuc n) = omega arith
limit_of-le (pos n) = ground arith

total : (x y : EventRow) → later y x ≡ false → later x y ≡ true
total x y h = ground arith

trans : (x y z : EventRow) → later x y ≡ true → later y z ≡ true → later x z ≡ true
trans x y z h k = ground arith

module _ ⦃env : Env⦄ where
  -- What a query of events returns is at most 1000 events, each of the category and in the bounds of time
  -- that were asked for, the latest first. A query changes no table.
  pub query_events-fits :
      (category : String) (start stop : ℕ) (limit : ℤ) (w w' : World) (out : List Event)
      → query_events category start stop limit w ≡ (ok out, w')
      → (length out ≤ 1000)
        × AllOf (λ e. fits category start stop e ≡ true) out
        × IsSorted latest_first out
        × (w'.db ≡ w.db)
  unfolding query_events has_category in_query scan_event
  query_events-fits category start stop limit w w' out h =
      let (p, q) = query-eq-ok _ w w' out h in
      let rows =
        select (in_query w.db category start stop) (select (has_category w.db) w.db.events) in
      let sorted = order_by later rows in
      let n = limit_of limit in
      (
        rw (p, length-map (scan_event w.db) (take n sorted))
            (omega (arith, length-take n sorted, limit_of-le limit)),
        rw p (
            map-AllOf (scan_event w.db) (λ e. fits category start stop e ≡ true) (take n sorted)
              (take-AllOf _ n sorted (
                order_by-AllOf later _ rows (
                  select-AllOf (in_query w.db category start stop)
                    (select (has_category w.db) w.db.events))))),
        rw p (
            map-IsSorted (scan_event w.db) latest_first (take n sorted)
              (take-IsSorted later n sorted (order_by-IsSorted later total trans rows))),
        q,
      )
