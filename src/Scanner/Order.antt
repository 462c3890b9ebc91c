-- ===== src/Scanner/Order.antt =====
-- What `scan` of app/strategies/triangular/scanner.py returns: rings that clear the minimum, the
-- best first, and no more than asked for.
use crypto_arbitrage_bot_ref.Base.{
  ℕ, zero, suc, ◌≤◌, ◌≡◌, true, Option, none, some, List, [], ◌∷◌, ◌++◌, Text, text_eq, Dict, All,
  length, map, ltb, arith, inl, inr, Bool-cases,
}
use crypto_arbitrage_bot_ref.Money.{Decimal, le_dec}
use crypto_arbitrage_bot_ref.Money.Compare.{le_dec_total, le_dec_trans}
use crypto_arbitrage_bot_ref.Result.{Result, ok, raise}
use crypto_arbitrage_bot_ref.MarketData.Store.{Snapshot, MarketDataStore}
use crypto_arbitrage_bot_ref.Opportunity.{ArbitrageOpportunity}
use crypto_arbitrage_bot_ref.Precision.{lower, symbol_name}
use crypto_arbitrage_bot_ref.Scanner.Walk.{TriangleRoute, middle_edge}
use crypto_arbitrage_bot_ref.Scanner.Rings.{TriangularScanner}
use crypto_arbitrage_bot_ref.Scanner.Scan.{
  Scan, ScanRequest, min_net_of, kept, evaluated, ring_between, rings_from, all_rings, net_of,
  insert_best, best_first, scan_venue, scan_all, distinct, first_of, scan, venue_spot_books,
  sort_books,
}

module _ (P : ArbitrageOpportunity → Type 0) where
  append-All : (xs ys : List ArbitrageOpportunity) → All P xs → All P ys → All P (xs ++ ys)
  append-All [] ys p q = q
  append-All (x ∷ xs) ys p q = (p.0, append-All xs ys p.1 q)

  insert_best-All :
      (o : ArbitrageOpportunity) (xs : List ArbitrageOpportunity)
      → P o
      → All P xs
      → All P (insert_best o xs)
  insert_best-All o [] p q = (p, tt)
  insert_best-All o (x ∷ xs) p q = elim (Bool-cases (le_dec (net_of x) (net_of o))) [
    | inl e ↦ rw e (p, q)
    | inr e ↦ rw e (q.0, insert_best-All o xs p q.1)
  ]

  best_first-All : (xs : List ArbitrageOpportunity) → All P xs → All P (best_first xs)
  unfolding best_first
  best_first-All [] p = tt
  best_first-All (x ∷ xs) p = insert_best-All x (best_first xs) p.0 (best_first-All xs p.1)

  first_of-All : (n : ℕ) (xs : List ArbitrageOpportunity) → All P xs → All P (first_of n xs)
  first_of-All zero xs p = tt
  first_of-All (suc n) [] p = tt
  first_of-All (suc n) (x ∷ xs) p = (p.0, first_of-All n xs p.1)

length-first_of : (n : ℕ) (xs : List ArbitrageOpportunity) → length (first_of n xs) ≤ n
length-first_of zero xs = omega arith
length-first_of (suc n) [] = omega arith
length-first_of (suc n) (x ∷ xs) = omega (arith, length-first_of n xs)

-- a net of at least m
abbrev pub Clears : Decimal → ArbitrageOpportunity → Type 0
Clears m o = le_dec m (net_of o) ≡ true

-- a net of at most that of o
abbrev Below : ArbitrageOpportunity → ArbitrageOpportunity → Type 0
Below o x = le_dec (net_of x) (net_of o) ≡ true

abbrev pub Descending : List ArbitrageOpportunity → Type 0
Descending [] = Unit {0}
Descending (o ∷ os) = All (Below o) os × Descending os

Below-All :
    (o x : ArbitrageOpportunity) (xs : List ArbitrageOpportunity)
    → Below o x
    → All (Below x) xs
    → All (Below o) xs
Below-All o x [] h a = tt
Below-All o x (y ∷ ys) h a =
    (le_dec_trans (net_of y) (net_of x) (net_of o) a.0 h, Below-All o x ys h a.1)

insert_best-Descending :
    (o : ArbitrageOpportunity) (xs : List ArbitrageOpportunity)
    → Descending xs
    → Descending (insert_best o xs)
insert_best-Descending o [] d = (tt, tt)
insert_best-Descending o (x ∷ xs) d = elim (Bool-cases (le_dec (net_of x) (net_of o))) [
  | inl e ↦ rw e ((e, Below-All o x xs e d.0), d)
  | inr e ↦ rw e (
    insert_best-All (Below x) o xs (le_dec_total (net_of x) (net_of o) e) d.0,
    insert_best-Descending o xs d.1,
  )
]

best_first-Descending : (xs : List ArbitrageOpportunity) → Descending (best_first xs)
unfolding best_first
best_first-Descending [] = tt
best_first-Descending (x ∷ xs) = insert_best-Descending x (best_first xs) (best_first-Descending xs)

first_of-Descending :
    (n : ℕ) (xs : List ArbitrageOpportunity) → Descending xs → Descending (first_of n xs)
first_of-Descending zero xs d = tt
first_of-Descending (suc n) [] d = tt
first_of-Descending (suc n) (x ∷ xs) d =
    (first_of-All (Below x) n xs d.0, first_of-Descending n xs d.1)

kept-Clears : (m : Decimal) (r : Result (Option ArbitrageOpportunity)) → All (Clears m) (kept m r)
kept-Clears m (raise e) = tt
kept-Clears m (ok none) = tt
kept-Clears m (ok (some o)) = elim (Bool-cases (le_dec m (net_of o))) [
  | inl e ↦ rw e (e, tt)
  | inr e ↦ rw e tt
]

module _ (s : Scan) where
  abbrev Cleared : List ArbitrageOpportunity → Type 0
  Cleared os = All (Clears (min_net_of s.scanner s.request)) os

  evaluated-Clears :
      (leg1 leg3 : Snapshot) (route : Option TriangleRoute) → Cleared (evaluated s leg1 leg3 route)
  evaluated-Clears leg1 leg3 none = tt
  evaluated-Clears leg1 leg3 (some route) = kept-Clears _ _

  ring_between-Clears :
      (first second : Text) (leg1 leg3 : Snapshot) → Cleared (ring_between s first leg1 second leg3)
  unfolding ring_between
  ring_between-Clears first second leg1 leg3 = elim (Bool-cases (text_eq first second)) [
    | inl e ↦ rw e tt
    | inr e ↦ rw e (evaluated-Clears leg1 leg3 (middle_edge first second s.crosses))
  ]

  rings_from-Clears :
      (first : Text) (leg1 : Snapshot) (d : Dict Snapshot) → Cleared (rings_from s first leg1 d)
  rings_from-Clears first leg1 [] = tt
  rings_from-Clears first leg1 ((second, leg3) ∷ d) =
      append-All (Clears _) (ring_between s first leg1 second leg3) (rings_from s first leg1 d)
        (ring_between-Clears first second leg1 leg3) (rings_from-Clears first leg1 d)

  all_rings-Clears : (d all : Dict Snapshot) → Cleared (all_rings s d all)
  unfolding all_rings
  all_rings-Clears [] all = tt
  all_rings-Clears ((first, leg1) ∷ d) all =
      append-All (Clears _) (rings_from s first leg1 all) (all_rings s d all)
        (rings_from-Clears first leg1 all) (all_rings-Clears d all)

module _ (sc : TriangularScanner) (store : MarketDataStore) (now : ℕ) (q : ScanRequest) where
  scan_venue-Clears :
      (venue : Text) → All (Clears (min_net_of sc q)) (scan_venue sc store now q venue)
  unfolding scan_venue
  scan_venue-Clears venue =
      let cached = venue_spot_books store now venue q.require_fresh_data in
      let sorted = sort_books (map symbol_name q.symbols) cached ([], []) in
      let s : Scan = record {
        scanner = sc;
        request = q;
        venue = venue;
        now = now;
        crosses = sorted.1;
      } in
      elim (Bool-cases (ltb (length cached) 2)) [
        | inl e ↦ rw e tt
        | inr e ↦ rw e (
            best_first-All (Clears (min_net_of sc q)) (all_rings s sorted.0 sorted.0)
              (all_rings-Clears s sorted.0 sorted.0))
      ]

  scan_all-Clears :
      (venues : List Text) → All (Clears (min_net_of sc q)) (scan_all sc store now q venues)
  scan_all-Clears [] = tt
  scan_all-Clears (v ∷ vs) =
      append-All (Clears _) (scan_venue sc store now q v) (scan_all sc store now q vs)
        (scan_venue-Clears v) (scan_all-Clears vs)

-- A scan returns at most as many opportunities as the request asks for, the most profitable first,
-- and each of them clears the request's minimum net profit, or the setting's where the request has
-- none.
pub scan_best_first :
    (sc : TriangularScanner) (store : MarketDataStore) (now : ℕ) (venues : List Text)
    (q : ScanRequest)
    → let found = scan sc store now venues q in
      (length found ≤ q.max_results) × Descending found × All (Clears (min_net_of sc q)) found
unfolding scan
scan_best_first sc store now venues q =
    let all = scan_all sc store now q (distinct [] (map lower venues)) in
    (
      length-first_of q.max_results (best_first all),
      first_of-Descending q.max_results (best_first all) (best_first-Descending all),
      first_of-All (Clears (min_net_of sc q)) q.max_results (best_first all) (
          best_first-All (Clears (min_net_of sc q)) all
            (scan_all-Clears sc store now q (distinct [] (map lower venues)))),
    )
