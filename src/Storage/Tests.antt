-- ===== src/Storage/Tests.antt =====
-- Claims of slots on a small table.
use crypto_arbitrage_bot_ref.Base.{
  ◌≡◌, ◌≤◌, ◌+◌, ℕ, List, refl, true, some, if◌then◌else◌, [], ◌∷◌, text, arith, text_eq,
}
use crypto_arbitrage_bot_ref.Transfers.{TransferRecord, TransferState}
use crypto_arbitrage_bot_ref.Storage.{Rows, try_claim_new_open_slot, count_open, save}
use crypto_arbitrage_bot_ref.Storage.Slots.{
  Access, claim, save_any, history, reopenings, open_transfers_bounded,
}
use crypto_arbitrage_bot_ref.Orchestrator.Fixtures.{fresh_record}

abbrev second : TransferRecord
second = record fresh_record { id = text "t2" }

abbrev one_row : Rows
one_row = fresh_record ∷ []

-- A second claim under a bound of one is refused, under a bound of two it goes through.
refused : try_claim_new_open_slot second 1 one_row ≡ (crypto_arbitrage_bot_ref.Base.false, one_row)
unfolding try_claim_new_open_slot
refused = refl

claimed_two : try_claim_new_open_slot second 2 one_row ≡ (true, fresh_record ∷ second ∷ [])
unfolding try_claim_new_open_slot text_eq
claimed_two = refl

-- A process claims the only slot and closes its transfer, a second one claims the slot, and a stale
-- save of the first one's open record then exceeds the bound.
abbrev stale_save : List Access
stale_save =
    claim fresh_record
    ∷ save_any (record fresh_record { state = TransferState.completed })
    ∷ claim second
    ∷ save_any fresh_record
    ∷ []

exceeded : count_open (history 1 stale_save []) ≡ 2
unfolding try_claim_new_open_slot count_open save text_eq
exceeded = refl

open_transfers_bounded_example :
    count_open (history 1 stale_save []) ≤ 1 + reopenings 1 stale_save []
unfolding count_open
open_transfers_bounded_example = open_transfers_bounded 1 stale_save [] (ground arith)
