-- ===== src/Trades/Rows.antt =====
-- The table of app/storage/repositories.py that holds trades: lookups after a save, and what
-- `list_executing` gives.
use crypto_arbitrage_bot_ref.Base.{
  ◌≡◌, refl, ◌∙◌, Bool, true, some, [], ◌∷◌, Text, text_eq, text_eq_refl, text_eq_sound, any_of,
  select_where, arith, if◌then◌else◌,
}
use crypto_arbitrage_bot_ref.Trades.{
  TradeRecord, TradeRows, save, get, is_executing, insert_by_age, order_by_age, list_executing,
}

pub get-save :
    (t : TradeRecord) (k : Text) (rows : TradeRows)
    → get k (save t rows) ≡ (if text_eq t.id k then some t else get k rows)
unfolding get save
get-save t k [] = refl
get-save t k (x ∷ rows) = ground (
  arith,
  text_eq_sound x.id t.id,
  text_eq_sound t.id k,
  text_eq_sound x.id k,
  text_eq_refl k,
  get-save t k rows,
)

pub get-save_self : (t : TradeRecord) (rows : TradeRows) → get t.id (save t rows) ≡ some t
get-save_self t rows = rw (get-save t t.id rows, text_eq_refl t.id) refl

-- a row with the id is among the rows
abbrev pub has_id : Text → TradeRows → Bool
has_id k rows = any_of (λ (t : TradeRecord). text_eq t.id k) rows

has_id-insert :
    (k : Text) (t : TradeRecord) (rows : TradeRows)
    → has_id k (insert_by_age t rows) ≡ has_id k (t ∷ rows)
has_id-insert k t [] = refl
has_id-insert k t (x ∷ rows) = ground (arith, has_id-insert k t rows)

has_id-order : (k : Text) (rows : TradeRows) → has_id k (order_by_age rows) ≡ has_id k rows
has_id-order k [] = refl
has_id-order k (t ∷ rows) =
    ground (arith, has_id-insert k t (order_by_age rows), has_id-order k rows)

has_id-select :
    (k : Text) (t : TradeRecord) (rows : TradeRows)
    → get k rows ≡ some t
    → is_executing t ≡ true
    → has_id k (select_where is_executing rows) ≡ true
unfolding get
has_id-select k t [] h e = absurd (ground arith)
has_id-select k t (x ∷ rows) h e = ground (arith, has_id-select k t rows)

-- the row that a lookup finds is listed while it is executing
pub executing_listed :
    (k : Text) (t : TradeRecord) (rows : TradeRows)
    → get k rows ≡ some t
    → is_executing t ≡ true
    → has_id k (list_executing rows) ≡ true
unfolding list_executing
executing_listed k t rows h e =
    has_id-order k (select_where is_executing rows) ∙ has_id-select k t rows h e

-- a row that a lookup finds has the id that was looked up
pub get_id : (k : Text) (t : TradeRecord) (rows : TradeRows) → get k rows ≡ some t → t.id ≡ k
unfolding get
get_id k t [] h = absurd (ground arith)
get_id k t (x ∷ rows) h = ground (arith, text_eq_sound x.id k, get_id k t rows)
