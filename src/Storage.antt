-- ===== src/Storage.antt =====
-- app/storage/repositories.py, `TransferRepository`: the rows of transfer records, keyed by id.
-- A session commits at once; SQLite's BEGIN IMMEDIATE makes a claim one step.
pub mod Slots
pub mod Tests
use crypto_arbitrage_bot_ref.Base.{
  ℕ, zero, suc, Bool, true, false, Option, none, some, List, [], ◌∷◌, Text, text_eq, length,
  select_where, leb, ltb, if◌then◌else◌,
}
use crypto_arbitrage_bot_ref.Transfers.{TransferRecord, TransferState, is_open}

abbrev pub Rows : Type 0
Rows = List TransferRecord

-- `save`: the merge of a row by its id, and the insert with OR REPLACE
unfoldable pub save : TransferRecord → Rows → Rows
save r [] = r ∷ []
save r (x ∷ rows) = if text_eq x.id r.id then r ∷ rows else x ∷ save r rows

-- `get`
unfoldable pub get : Text → Rows → Option TransferRecord
get k [] = none
get k (x ∷ rows) = if text_eq x.id k then some x else get k rows

abbrev pub is_open_row : TransferRecord → Bool
is_open_row r = is_open r.state

abbrev pub insert_by_age : TransferRecord → Rows → Rows
insert_by_age r [] = r ∷ []
insert_by_age r (x ∷ rows) =
    if leb r.created_at x.created_at then r ∷ x ∷ rows else x ∷ insert_by_age r rows

abbrev pub order_by_age : Rows → Rows
order_by_age [] = []
order_by_age (r ∷ rows) = insert_by_age r (order_by_age rows)

-- `list_open`: oldest first
unfoldable pub list_open : Rows → Rows
list_open rows = order_by_age (select_where is_open_row rows)

-- `count_open`
unfoldable pub count_open : Rows → ℕ
count_open [] = 0
count_open (r ∷ rows) = if is_open_row r then suc (count_open rows) else count_open rows

-- `try_claim_new_open_slot`, for a bound that is not negative: one transaction
unfoldable pub try_claim_new_open_slot : TransferRecord → ℕ → Rows → Bool × Rows
unfolding count_open save
try_claim_new_open_slot r max_open rows =
    if leb max_open (count_open rows) then (false, rows) else (true, save r rows)
