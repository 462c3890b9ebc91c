-- ===== src/MarketData/Freshness.antt =====
-- What the store of app/market_data/store.py promises of time: the newest snapshot stays, and only
-- recent times are fresh.
use mathlib.Core.Logic.{◌↔◌}
use native.Mathlib.Nat.{le_trans}
use crypto_arbitrage_bot_ref.Base.{
  ℕ, ◌+◌, ◌*◌, ◌≤◌, ◌≡◌, refl, sym, ap, ◌∙◌, true, false, Option, none, some, List, [], ◌∷◌, All,
  text_eq_sound, text_eq_refl, arith, inl, inr, Bool-cases, ltb, if◌then◌else◌,
}
use crypto_arbitrage_bot_ref.Money.{le_dec}
use crypto_arbitrage_bot_ref.MarketData.Store.{
  Snapshot, Ticker, QuoteKey, same_key, Quotes, find_quote, put_quote, MarketDataStore, put_ticker,
  snapshot_key, newer_books, put_order_book, future_tolerance, age_ms, is_fresh,
}

-- A snapshot counts as fresh exactly when its time is at most the tolerance ahead of the clock and
-- at most the store's limit behind it, the tolerance being ten seconds.
pub fresh_iff :
    (s : MarketDataStore) (now timestamp : ℕ)
    → (is_fresh s (age_ms now timestamp) ≡ true)
      ↔ ((timestamp ≤ now + future_tolerance) × (now ≤ timestamp + 1000 * s.stale_after_ms))
unfolding is_fresh age_ms le_dec
fresh_iff s now timestamp = ground arith

same_key_refl : (k : QuoteKey) → same_key k k ≡ true
unfolding same_key
same_key_refl k = rw (text_eq_refl k.exchange_id, text_eq_refl k.symbol) refl

same_key_trans : (i j k : QuoteKey) → same_key i j ≡ true → same_key i k ≡ same_key j k
unfolding same_key
same_key_trans i j k h =
    ground (arith, text_eq_sound i.exchange_id j.exchange_id, text_eq_sound i.symbol j.symbol)

find_quote-put_quote :
    {A : Type 0} (k j : QuoteKey) (a : A) (d : Quotes A)
    → find_quote j (put_quote k a d) ≡ (if same_key k j then some a else find_quote j d)
unfolding find_quote put_quote
find_quote-put_quote k j a [] = refl
find_quote-put_quote k j a ((i, b) ∷ d) = ground (
  arith,
  same_key_trans i k j,
  same_key_trans i j k,
  same_key_trans k j k,
  same_key_refl k,
  find_quote-put_quote k j a d,
)

-- one write of the feed
pub data Update : Type 0 where
  book_update : Snapshot → Update
  ticker_update : Ticker → Update

-- the writes in their order
unfoldable pub feed : List Update → MarketDataStore → MarketDataStore
unfolding put_order_book put_ticker
feed [] s = s
feed (book_update b ∷ us) s = feed us (put_order_book b s)
feed (ticker_update t ∷ us) s = feed us (put_ticker t s)

-- the book under a key is at least as new as the given time
pub record HoldsSince (k : QuoteKey) (timestamp : ℕ) (s : MarketDataStore) : Type 0 where
  pub snapshot : Snapshot
  pub found : find_quote k s.books ≡ some snapshot
  pub as_new : timestamp ≤ snapshot.timestamp

same_key_sound : (j k : QuoteKey) → same_key j k ≡ true → j ≡ k
unfolding same_key
same_key_sound j k h =
    ground (arith, text_eq_sound j.exchange_id k.exchange_id, text_eq_sound j.symbol k.symbol)

-- a write under another key leaves what is found
other_books :
    (b : Snapshot) (k : QuoteKey) (known : Option Snapshot) (books : Quotes Snapshot)
    → same_key (snapshot_key b) k ≡ false
    → find_quote k (newer_books b known books) ≡ find_quote k books
other_books b k none books h = rw (find_quote-put_quote (snapshot_key b) k b books, h) refl
other_books b k (some x) books h = elim (Bool-cases (ltb b.timestamp x.timestamp)) [
  | inl e ↦ rw e refl
  | inr e ↦ rw (e, find_quote-put_quote (snapshot_key b) k b books, h) refl
]

-- what is found under a snapshot's own key after it was put: the newer of it and the known one
newer : Snapshot → Option Snapshot → Snapshot
newer b none = b
newer b (some x) = if ltb b.timestamp x.timestamp then x else b

own_books :
    (b : Snapshot) (known : Option Snapshot) (books : Quotes Snapshot)
    → find_quote (snapshot_key b) books ≡ known
    → find_quote (snapshot_key b) (newer_books b known books) ≡ some (newer b known)
unfolding newer
own_books b none books h =
    rw
      (
        find_quote-put_quote (snapshot_key b) (snapshot_key b) b books,
        same_key_refl (snapshot_key b),
      )
      refl
own_books b (some x) books h = elim (Bool-cases (ltb b.timestamp x.timestamp)) [
  | inl e ↦ rw e h
  | inr e ↦
      rw
        (
          e,
          find_quote-put_quote (snapshot_key b) (snapshot_key b) b books,
          same_key_refl (snapshot_key b),
        )
        refl
]

newer_bounds :
    (b : Snapshot) (known : Option Snapshot)
    → (b.timestamp ≤ (newer b known).timestamp)
      × ((x : Snapshot) → known ≡ some x → x.timestamp ≤ (newer b known).timestamp)
unfolding newer
newer_bounds b none = (ground arith, λ x h. absurd (ground arith))
newer_bounds b (some y) = (ground arith, λ x h. ground arith)

put_own :
    (b : Snapshot) (s : MarketDataStore)
    → HoldsSince (snapshot_key b) b.timestamp (put_order_book b s)
unfolding put_order_book
put_own b s =
    let known = find_quote (snapshot_key b) s.books in
    record {
      snapshot = newer b known;
      found = own_books b known s.books refl;
      as_new = (newer_bounds b known).0;
    }

put_keeps :
    (b : Snapshot) (k : QuoteKey) (timestamp : ℕ) (s : MarketDataStore)
    → HoldsSince k timestamp s
    → HoldsSince k timestamp (put_order_book b s)
unfolding put_order_book
put_keeps b k timestamp s h =
    let known = find_quote (snapshot_key b) s.books in
    elim (Bool-cases (same_key (snapshot_key b) k)) [
      | inr other ↦ record {
        snapshot = h.snapshot;
        found = other_books b k known s.books other ∙ h.found;
        as_new = h.as_new;
      }
      | inl own ↦
          let e = same_key_sound (snapshot_key b) k own in
          record {
            snapshot = newer b known;
            found =
                ap (λ j. find_quote j (newer_books b known s.books)) (sym e)
                ∙ own_books b known s.books refl;
            as_new = le_trans h.as_new ((newer_bounds b known).1 h.snapshot (rw e h.found));
          }
    ]

feed_keeps :
    (us : List Update) (k : QuoteKey) (timestamp : ℕ) (s : MarketDataStore)
    → HoldsSince k timestamp s
    → HoldsSince k timestamp (feed us s)
unfolding feed put_ticker
feed_keeps [] k timestamp s h = h
feed_keeps (book_update b ∷ us) k timestamp s h =
    feed_keeps us k timestamp (put_order_book b s) (put_keeps b k timestamp s h)
feed_keeps (ticker_update t ∷ us) k timestamp s h =
    feed_keeps us k timestamp (put_ticker t s)
      (record { snapshot = h.snapshot; found = h.found; as_new = h.as_new })

-- the update's snapshot has left one at least as new
abbrev pub Outlasts : MarketDataStore → Update → Type 0
Outlasts s (book_update b) = HoldsSince (snapshot_key b) b.timestamp s
Outlasts s (ticker_update t) = Unit {0}

-- After any sequence of writes, in whatever order the snapshots arrive, the store holds under the
-- key of every snapshot that was put a book that is at least as new as it.
pub newest_stays : (us : List Update) (s : MarketDataStore) → All (λ u. Outlasts (feed us s) u) us
unfolding feed
newest_stays [] s = tt
newest_stays (book_update b ∷ us) s = (
  feed_keeps us (snapshot_key b) b.timestamp (put_order_book b s) (put_own b s),
  newest_stays us (put_order_book b s),
)
newest_stays (ticker_update t ∷ us) s = (tt, newest_stays us (put_ticker t s))
