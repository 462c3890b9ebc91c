-- ===== src/Scanner.antt =====
-- app/strategies/triangular/scanner.py and app/strategies/triangular/fees.py: the search for
-- profitable triangles on a venue.
pub mod Walk
pub mod Rings
pub mod Scan
pub mod Sound
pub mod Order
pub mod Tests
