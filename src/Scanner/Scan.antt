-- ===== src/Scanner/Scan.antt =====
-- `scan`, `_scan_venue` and `_venue_spot_books` of app/strategies/triangular/scanner.py.
use crypto_arbitrage_bot_ref.Base.{
  ℕ, zero, suc, Bool, false, not, ◌&&◌, Option, none, some, List, [], ◌∷◌, ◌++◌, map, Text, text_eq,
  Dict, put, any_of, length, ltb, if◌then◌else◌,
}
use crypto_arbitrage_bot_ref.Money.{Decimal, le_dec, min_dec}
use crypto_arbitrage_bot_ref.Orders.{Symbol}
use crypto_arbitrage_bot_ref.Result.{Result, ok, raise}
use crypto_arbitrage_bot_ref.Precision.{lower, symbol_name}
use crypto_arbitrage_bot_ref.MarketData.Store.{
  Snapshot, MarketDataStore, books_by_symbol, age_ms, is_stale,
}
use crypto_arbitrage_bot_ref.Opportunity.{ArbitrageOpportunity, net_of_costs_bps}
use crypto_arbitrage_bot_ref.Scanner.Walk.{Crosses, usdt, TriangleRoute, middle_edge}
use crypto_arbitrage_bot_ref.Scanner.Rings.{TriangularScanner, evaluate_ring}

-- `ScanRequest`
pub record ScanRequest : Type 0 where
  pub symbols : List Symbol
  pub notional_quote : Decimal
  pub min_net_profit_bps : Option Decimal
  pub require_fresh_data : Bool
  pub max_results : ℕ
  pub ttl_ms : ℕ

abbrev fresh_only_books : MarketDataStore → ℕ → Bool → Dict Snapshot → Dict Snapshot
fresh_only_books store now fresh_only [] = []
fresh_only_books store now fresh_only ((name, s) ∷ d) =
    let rest = fresh_only_books store now fresh_only d in
    if fresh_only && is_stale store (age_ms now s.timestamp) then rest else (name, s) ∷ rest

-- `_venue_spot_books`
unfoldable pub venue_spot_books : MarketDataStore → ℕ → Text → Bool → Dict Snapshot
unfolding books_by_symbol is_stale age_ms
venue_spot_books store now venue fresh_only =
    fresh_only_books store now fresh_only (books_by_symbol (some venue) store)

-- `wanted and name not in wanted`
abbrev unwanted : List Text → Text → Bool
unwanted [] name = false
unwanted (w ∷ ws) name = not (any_of (λ v. text_eq v name) (w ∷ ws))

-- the books in USDT by their other asset, and the crosses
abbrev pub Sorted : Type 0
Sorted = Dict Snapshot × Crosses

abbrev put_cross : Text → Text → Snapshot → Crosses → Crosses
put_cross base quote s [] = ((base, quote), s) ∷ []
put_cross base quote s (((b, q), x) ∷ d) =
    let rest = put_cross base quote s d in
    if text_eq b base && text_eq q quote then ((b, q), s) ∷ d else ((b, q), x) ∷ rest

abbrev sort_book : List Text → Text → Snapshot → Sorted → Sorted
sort_book wanted name s (books, crosses) =
    if text_eq s.book.symbol.quote usdt
    then (if unwanted wanted name then books else put s.book.symbol.base s books, crosses)
    else if text_eq s.book.symbol.base usdt
    then (if unwanted wanted name then books else put s.book.symbol.quote s books, crosses)
    else (books, put_cross s.book.symbol.base s.book.symbol.quote s crosses)

-- the loop that tells books in USDT from crosses
unfoldable pub sort_books : List Text → Dict Snapshot → Sorted → Sorted
sort_books wanted [] sum = sum
sort_books wanted ((name, s) ∷ d) sum = sort_books wanted d (sort_book wanted name s sum)

-- what one scan is made of
pub record Scan : Type 0 where
  pub scanner : TriangularScanner
  pub request : ScanRequest
  pub venue : Text
  pub now : ℕ
  pub crosses : Crosses

abbrev pub min_net_of : TriangularScanner → ScanRequest → Decimal
min_net_of sc q = elim q.min_net_profit_bps [ some m ↦ m | none ↦ sc.min_net_bps ]

-- an evaluated ring that clears the minimum, and nothing where the evaluation raises
abbrev pub kept : Decimal → Result (Option ArbitrageOpportunity) → List ArbitrageOpportunity
kept min_net (raise e) = []
kept min_net (ok none) = []
kept min_net (ok (some o)) = if le_dec min_net (net_of_costs_bps o.profit) then o ∷ [] else []

abbrev pub evaluated : Scan → Snapshot → Snapshot → Option TriangleRoute → List ArbitrageOpportunity
evaluated s leg1 leg3 none = []
evaluated s leg1 leg3 (some route) = kept (min_net_of s.scanner s.request) (
    evaluate_ring s.scanner s.venue s.now s.request.ttl_ms s.request.require_fresh_data route leg1
      leg3 (min_dec s.request.notional_quote s.scanner.max_notional_quote))

-- the rings from one asset to another
unfoldable pub ring_between : Scan → Text → Snapshot → Text → Snapshot → List ArbitrageOpportunity
unfolding middle_edge evaluate_ring
ring_between s first leg1 second leg3 =
    if text_eq first second then [] else evaluated s leg1 leg3 (middle_edge first second s.crosses)

abbrev pub rings_from : Scan → Text → Snapshot → Dict Snapshot → List ArbitrageOpportunity
rings_from s first leg1 [] = []
rings_from s first leg1 ((second, leg3) ∷ d) =
    ring_between s first leg1 second leg3 ++ rings_from s first leg1 d

-- the two loops over the books in USDT
unfoldable pub all_rings : Scan → Dict Snapshot → Dict Snapshot → List ArbitrageOpportunity
unfolding ring_between
all_rings s [] all = []
all_rings s ((first, leg1) ∷ d) all = rings_from s first leg1 all ++ all_rings s d all

abbrev pub net_of : ArbitrageOpportunity → Decimal
net_of o = net_of_costs_bps o.profit

abbrev pub insert_best :
    ArbitrageOpportunity → List ArbitrageOpportunity → List ArbitrageOpportunity
insert_best o [] = o ∷ []
insert_best o (x ∷ xs) = if le_dec (net_of x) (net_of o) then o ∷ x ∷ xs else x ∷ insert_best o xs

-- `sort(key=net_profit_bps, reverse=True)`, which keeps the order of equals
unfoldable pub best_first : List ArbitrageOpportunity → List ArbitrageOpportunity
best_first [] = []
best_first (o ∷ os) = insert_best o (best_first os)

-- `_scan_venue`
unfoldable pub scan_venue :
    TriangularScanner → MarketDataStore → ℕ → ScanRequest → Text → List ArbitrageOpportunity
unfolding venue_spot_books sort_books all_rings best_first symbol_name
scan_venue sc store now q venue =
    let cached = venue_spot_books store now venue q.require_fresh_data in
    let (books, crosses) = sort_books (map symbol_name q.symbols) cached ([], []) in
    let s : Scan = record {
      scanner = sc;
      request = q;
      venue = venue;
      now = now;
      crosses = crosses;
    } in
    if ltb (length cached) 2 then [] else best_first (all_rings s books books)

abbrev pub scan_all :
    TriangularScanner → MarketDataStore → ℕ → ScanRequest → List Text → List ArbitrageOpportunity
scan_all sc store now q [] = []
scan_all sc store now q (v ∷ vs) = scan_venue sc store now q v ++ scan_all sc store now q vs

-- `tuple(dict.fromkeys(...))`: the first of equal texts stays
abbrev pub distinct : List Text → List Text → List Text
distinct seen [] = []
distinct seen (v ∷ vs) =
    let rest = distinct (v ∷ seen) vs in
    let skipped = distinct seen vs in if any_of (λ u. text_eq u v) seen then skipped else v ∷ rest

-- `opportunities[:n]`
abbrev pub first_of : ℕ → List ArbitrageOpportunity → List ArbitrageOpportunity
first_of zero os = []
first_of (suc n) [] = []
first_of (suc n) (o ∷ os) = o ∷ first_of n os

-- `scan`
unfoldable pub scan :
    TriangularScanner → MarketDataStore → ℕ → List Text → ScanRequest → List ArbitrageOpportunity
unfolding scan_venue best_first lower
scan sc store now venues q =
    first_of q.max_results (best_first (scan_all sc store now q (distinct [] (map lower venues))))
