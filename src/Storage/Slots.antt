-- ===== src/Storage/Slots.antt =====
-- The bound on open transfers as an invariant of the database, whatever processes do.
use crypto_arbitrage_bot_ref.Base.{
  ℕ, suc, ◌+◌, ◌≤◌, Bool, true, false, not, ◌&&◌, List, ◌≡◌, refl, some, [], ◌∷◌, Text, text_eq,
  text_eq_refl, text_eq_sound, arith, if◌then◌else◌,
}
use crypto_arbitrage_bot_ref.Transfers.{TransferRecord}
use crypto_arbitrage_bot_ref.Storage.{
  Rows, save, get, count_open, try_claim_new_open_slot, is_open_row,
}

-- After a save, a lookup under the record's id finds that very record, and a lookup under any other
-- id finds what it found before.
pub get-save :
    (r : TransferRecord) (k : Text) (rows : Rows)
    → get k (save r rows) ≡ (if text_eq r.id k then some r else get k rows)
unfolding get save
get-save r k [] = refl
get-save r k (x ∷ rows) = ground (
  arith,
  text_eq_sound x.id r.id,
  text_eq_sound r.id k,
  text_eq_sound x.id k,
  text_eq_refl k,
  get-save r k rows,
)

count-save_le :
    (r : TransferRecord) (rows : Rows) → count_open (save r rows) ≤ suc (count_open rows)
unfolding count_open save
count-save_le r [] = ground arith
count-save_le r (x ∷ rows) = ground (arith, count-save_le r rows)

-- a save that makes one more row open: an open record over no row, or over a closed one
abbrev pub reopens : TransferRecord → Rows → Bool
reopens r [] = is_open_row r
reopens r (x ∷ rows) =
    let below = reopens r rows in
    if text_eq x.id r.id then is_open_row r && not (is_open_row x) else below

abbrev pub one_if : Bool → ℕ
one_if true = 1
one_if false = 0

count-save-reopens :
    (r : TransferRecord) (rows : Rows)
    → count_open (save r rows) ≤ one_if (reopens r rows) + count_open rows
unfolding count_open save
count-save-reopens r [] = ground arith
count-save-reopens r (x ∷ rows) = ground (arith, count-save-reopens r rows)

-- What any process does to the table under one bound: claim a slot for a new record, or save
-- whatever record it holds, however old.
pub data Access : Type 0 where
  claim save_any : TransferRecord → Access

abbrev pub accessed : ℕ → Access → Rows → Rows
accessed max_open (claim r) rows = (try_claim_new_open_slot r max_open rows).1
accessed max_open (save_any r) rows = save r rows

-- accesses by any number of processes, in any order
abbrev pub history : ℕ → List Access → Rows → Rows
history max_open [] rows = rows
history max_open (a ∷ accesses) rows = history max_open accesses (accessed max_open a rows)

abbrev reopened_by : Access → Rows → ℕ
reopened_by (claim r) rows = 0
reopened_by (save_any r) rows = one_if (reopens r rows)

-- how many of the saves opened a row that was closed or missing
abbrev pub reopenings : ℕ → List Access → Rows → ℕ
reopenings max_open [] rows = 0
reopenings max_open (a ∷ accesses) rows =
    reopened_by a rows + reopenings max_open accesses (accessed max_open a rows)

claim_bounded :
    (max_open extra : ℕ) (r : TransferRecord) (rows : Rows)
    → count_open rows ≤ max_open + extra
    → count_open (try_claim_new_open_slot r max_open rows).1 ≤ max_open + extra
unfolding try_claim_new_open_slot
claim_bounded max_open extra r rows h = ground (arith, count-save_le r rows)

access_bounded :
    (max_open extra : ℕ) (a : Access) (rows : Rows)
    → count_open rows ≤ max_open + extra
    → count_open (accessed max_open a rows) ≤ max_open + (extra + reopened_by a rows)
access_bounded max_open extra (claim r) rows h =
    omega (arith, claim_bounded max_open extra r rows h)
access_bounded max_open extra (save_any r) rows h = omega (arith, count-save-reopens r rows)

history_bounded :
    (max_open extra : ℕ) (accesses : List Access) (rows : Rows)
    → count_open rows ≤ max_open + extra
    → count_open (history max_open accesses rows)
      ≤ max_open + (extra + reopenings max_open accesses rows)
history_bounded max_open extra [] rows h = omega arith
history_bounded max_open extra (a ∷ accesses) rows h = omega (
  arith,
  history_bounded max_open (extra + reopened_by a rows) accesses (accessed max_open a rows)
      (access_bounded max_open extra a rows h),
)

-- However the claims of new records and the saves of any records interleave, the table never holds
-- more open transfers than the bound and the saves that opened a row which was closed or missing,
-- if it started within the bound: claims alone never exceed it, and neither do saves over rows
-- that are still open or saves that close a row.
pub open_transfers_bounded :
    (max_open : ℕ) (accesses : List Access) (rows : Rows)
    → count_open rows ≤ max_open
    → count_open (history max_open accesses rows) ≤ max_open + reopenings max_open accesses rows
open_transfers_bounded max_open accesses rows h =
    omega (arith, history_bounded max_open 0 accesses rows (omega arith))

pub get-save_self : (r : TransferRecord) (rows : Rows) → get r.id (save r rows) ≡ some r
get-save_self r rows = rw (get-save r r.id rows, text_eq_refl r.id) refl
