-- ===== src/Tracker.antt =====
-- app/risk/state.py, `RiskStateTracker`: the counters of the day. The day of each call stands in
-- for the clock.
pub mod Tests
use crypto_arbitrage_bot_ref.Base.{
  ℕ, ◌-◌, ◌+◌, ◌≤◌, ◌<◌, ◌≡◌, refl, ap, Bool, true, false, Option, none, some, List, [], ◌∷◌, Dict,
  length, arith, ◌==◌, if◌then◌else◌,
}
use crypto_arbitrage_bot_ref.Money.{Decimal, dec0, add_dec}
use crypto_arbitrage_bot_ref.Transfers.{TransferRecord}

pub record RiskStateTracker : Type 0 where
  pub open_transfers : ℕ
  pub daily_pnl : Decimal
  pub day : ℕ

pub record RiskEnvironment : Type 0 where
  pub kill_switch_engaged : Bool
  pub open_transfers : ℕ
  pub daily_pnl : Decimal
  pub exchange_exposure : Dict Decimal
  pub asset_exposure : Dict Decimal

-- `_roll_day`
unfoldable pub roll_day : ℕ → RiskStateTracker → RiskStateTracker
roll_day today t = if today == t.day then t else record t { day = today; daily_pnl = dec0 }

-- `sync_from_storage`
unfoldable pub sync_from_storage :
    Decimal → List TransferRecord → RiskStateTracker → RiskStateTracker
sync_from_storage pnl records t = record t { daily_pnl = pnl; open_transfers = length records }

-- `register_realized_pnl`
unfoldable pub register_realized_pnl : ℕ → Decimal → RiskStateTracker → RiskStateTracker
unfolding roll_day
register_realized_pnl today amount t =
    let rolled = roll_day today t in record rolled { daily_pnl = add_dec rolled.daily_pnl amount }

unfoldable pub register_transfer_opened : RiskStateTracker → RiskStateTracker
register_transfer_opened t = record t { open_transfers = t.open_transfers + 1 }

-- `register_transfer_closed`: `max(0, n - 1)`
unfoldable pub register_transfer_closed : ℕ → Decimal → RiskStateTracker → RiskStateTracker
unfolding register_realized_pnl
register_transfer_closed today pnl t =
    register_realized_pnl today pnl (record t { open_transfers = t.open_transfers - 1 })

-- `snapshot`
unfoldable pub snapshot :
    ℕ → Bool → Dict Decimal → Dict Decimal → RiskStateTracker → RiskEnvironment
unfolding roll_day
snapshot today kill exchange asset t =
    let rolled = roll_day today t in
    record {
      kill_switch_engaged = kill;
      open_transfers = rolled.open_transfers;
      daily_pnl = rolled.daily_pnl;
      exchange_exposure = exchange;
      asset_exposure = asset;
    }

-- what the runtime registers, with its day
pub data Event : Type 0 where
  realized : ℕ → Decimal → Event
  opened : ℕ → Event
  closed : ℕ → Decimal → Event

abbrev pub day_of : Event → ℕ
day_of (realized d a) = d
day_of (opened d) = d
day_of (closed d a) = d

abbrev register : Event → RiskStateTracker → RiskStateTracker
register (realized d a) t = register_realized_pnl d a t
register (opened d) t = register_transfer_opened t
register (closed d a) t = register_transfer_closed d a t

-- the tracker after a history, the newest event first
abbrev pub after_events : List Event → RiskStateTracker → RiskStateTracker
after_events [] t = t
after_events (e ∷ es) t = register e (after_events es t)

-- the profits of one day in a history, added up from a start
abbrev pub profit_of_day : ℕ → List Event → Decimal → Decimal
profit_of_day d [] start = start
profit_of_day d (realized c a ∷ es) start =
    let rest = profit_of_day d es start in if d == c then add_dec rest a else rest
profit_of_day d (opened c ∷ es) start = profit_of_day d es start
profit_of_day d (closed c a ∷ es) start =
    let rest = profit_of_day d es start in if d == c then add_dec rest a else rest

-- the history runs forward in time from a day
abbrev pub Forward : List Event → ℕ → ℕ → Type 0
Forward [] first last = first ≤ last
Forward (e ∷ es) first last = (day_of e ≤ last) × Forward es first (day_of e)

-- the tracker's own day lies between the first day and the last
day_between :
    (es : List Event) (t : RiskStateTracker) (last : ℕ)
    → Forward es t.day last
    → (t.day ≤ (after_events es t).day) × ((after_events es t).day ≤ last)
unfolding register_transfer_closed register_realized_pnl register_transfer_opened roll_day
day_between [] t last f = ground arith
day_between (realized d a ∷ es) t last f = ground (arith, day_between es t d f.1)
day_between (opened d ∷ es) t last f = ground (arith, day_between es t d f.1)
day_between (closed d a ∷ es) t last f = ground (arith, day_between es t d f.1)

-- what a snapshot of the day shows
abbrev pub profit_on : ℕ → RiskStateTracker → Decimal
profit_on d t = if d == t.day then t.daily_pnl else dec0

profit_after :
    (es : List Event) (t : RiskStateTracker) (last d : ℕ)
    → Forward es t.day last
    → last ≤ d
    → profit_on d (after_events es t) ≡ profit_of_day d es (profit_on d t)
unfolding register_transfer_closed register_realized_pnl register_transfer_opened roll_day
profit_after [] t last d f h = refl
profit_after (realized c a ∷ es) t last d f h = ground (
  arith,
  day_between es t c f.1,
  profit_after es t c c f.1 (native.Mathlib.Nat.le_refl c),
  profit_after es t c d f.1,
)
profit_after (opened c ∷ es) t last d f h = ground (arith, profit_after es t c d f.1)
profit_after (closed c a ∷ es) t last d f h = ground (
  arith,
  day_between es t c f.1,
  profit_after es t c c f.1 (native.Mathlib.Nat.le_refl c),
  profit_after es t c d f.1,
)

-- After any history whose days do not run backwards, a snapshot taken on a day no earlier than
-- the last shows the profits registered on that very day, added up in their order, on top of the
-- profit that the tracker began with if it began on that day; profits of earlier days are gone.
pub snapshot_counts_the_day :
    (es : List Event) (t : RiskStateTracker) (today : ℕ) (kill : Bool)
    (exchange asset : Dict Decimal)
    → Forward es t.day today
    → (snapshot today kill exchange asset (after_events es t)).daily_pnl
      ≡ profit_of_day today es (profit_on today t)
unfolding snapshot roll_day
snapshot_counts_the_day es t today kill exchange asset f =
    ground (arith, profit_after es t today today f (native.Mathlib.Nat.le_refl today))
