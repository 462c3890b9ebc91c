-- ===== src/Orchestrator/Due.antt =====
-- What `_submit_withdrawal` of app/strategies/transfer/orchestrator.py sends.
use crypto_arbitrage_bot_ref.Base.{
  ◌≡◌, ◌≢◌, refl, ap, Bool, strip, Option-cases, subst, ◌∙◌, true, false, not, ◌&&◌, Option, some,
  List, [], ◌∷◌, Text, is_some, arith, Bool-cases, inl, inr,
}
use crypto_arbitrage_bot_ref.Networks.{RouteNetwork}
use crypto_arbitrage_bot_ref.Recovery.{Reply, reply, failure}
use crypto_arbitrage_bot_ref.Money.{sub_dec, quantize, le_dec, dec0, Decimal}
use crypto_arbitrage_bot_ref.Guard.{TradingMode}
use crypto_arbitrage_bot_ref.Result.{Result, ok, raise, Exception, signal}
use crypto_arbitrage_bot_ref.Transfers.{DepositAddress, TransferRecord, TransferState, Note}
use crypto_arbitrage_bot_ref.Orchestrator.Effects.{
  Environment, World, Action, Effect, saved, submitted, withdrew, audited, Withdrawal, save_record,
  check_guard, pure, ◌>>=◌, fail_record, audit, debit_wallet,
}
use crypto_arbitrage_bot_ref.Orchestrator.Landing.{continued}
use crypto_arbitrage_bot_ref.Orchestrator.Withdraw.{
  requires_memo, has_memo, matches_plan, order_to_withdraw, send, call_withdraw, after_send,
  send_withdrawal, check_address, check_route, with_intent, route_now, unless_withdrawn,
  submit_withdrawal,
}

-- the withdrawals of a log, the newest first
abbrev pub withdrawals : List Effect → List Withdrawal
withdrawals [] = []
withdrawals (withdrew q ∷ log) = q ∷ withdrawals log
withdrawals (submitted q ∷ log) = withdrawals log
withdrawals (saved r ∷ log) = withdrawals log
withdrawals (audited e k ∷ log) = withdrawals log

-- A withdrawal that is due for a transfer: none was noted before; the route between the venues,
-- validated now, is the planned network; and the planned asset is sent on the planned network: what
-- was bought, less the fee of that route, which is positive, to the address and with the memo that
-- the destination gave for that network, a memo that is there where the asset needs one.
pub record Due (env : Environment) (r : TransferRecord) (q : Withdrawal) : Type 0 where
  pub not_sent : is_some r.withdrawal_id ≡ false
  pub route : RouteNetwork
  pub validated : route_now env r.plan ≡ ok route
  pub planned : matches_plan r.plan route ≡ true
  pub address : DepositAddress
  pub asked :
      env.fetch_deposit_address r.plan.dest_exchange r.plan.asset r.plan.network ≡ reply address
  pub memo_given :
      requires_memo r.plan.asset ≡ true
      → (memo : Text) × (address.memo ≡ some memo) × (strip memo ≢ [])
  pub positive : le_dec q.amount dec0 ≡ false
  pub asset : q.asset ≡ r.plan.asset
  pub amount : q.amount ≡ sub_dec r.buy_filled_amount route.withdrawal_fee
  pub to_address : q.address ≡ address.address
  pub with_memo : q.memo ≡ address.memo
  pub on_network : q.network ≡ r.plan.network

-- a list of withdrawals that grew by at most one, which satisfies P
pub data AtMostOne (P : Withdrawal → Type 0) (before : List Withdrawal) (after : List Withdrawal)
    : Type 0 where
  same : after ≡ before → AtMostOne P before after
  one_more : (q : Withdrawal) → P q → after ≡ q ∷ before → AtMostOne P before after

abbrev Sends : {A : Type 0} → (Withdrawal → Type 0) → Action A → Type 0
Sends P m = (w : World) → AtMostOne P (withdrawals w.log) (withdrawals (m w).1.log)

fail_record-Sends :
    (P : Withdrawal → Type 0) (env : Environment) (s : TransferState) (note : Note)
    (r : TransferRecord)
    → Sends P (fail_record env s note r)
unfolding fail_record
fail_record-Sends P env s note r w = same refl

after_send_adds_nothing :
    (env : Environment) (r : TransferRecord) (sent : Result (Option Text)) (w : World)
    → withdrawals (after_send env r sent w).1.log ≡ withdrawals w.log
unfolding after_send save_record audit debit_wallet fail_record
after_send_adds_nothing env r (ok txid) w = ground arith
after_send_adds_nothing env r (raise Exception.execution_disabled) w = refl
after_send_adds_nothing env r (raise e) w = ground arith

-- `send` for a mode
sent_by_mode :
    (P : Withdrawal → Type 0) (env : Environment) (a : DepositAddress) (amount : Decimal)
    (r : TransferRecord) (mode : TradingMode)
    → env.mode ≡ mode
    → P (order_to_withdraw r.plan a amount)
    → Sends P (send env a amount r)
unfolding send call_withdraw
sent_by_mode P env a amount r TradingMode.demo e p w = same (ground arith)
sent_by_mode P env a amount r TradingMode.paper e p w =
    one_more (order_to_withdraw r.plan a amount) p (ground arith)
sent_by_mode P env a amount r TradingMode.live e p w =
    one_more (order_to_withdraw r.plan a amount) p (ground arith)

AtMostOne-same :
    (P : Withdrawal → Type 0) {before after later : List Withdrawal}
    → AtMostOne P before after
    → later ≡ after
    → AtMostOne P before later
AtMostOne-same P (same e) h = same (h ∙ e)
AtMostOne-same P (one_more q p e) h = one_more q p (h ∙ e)

-- what `send_withdrawal` does with the rounded amount
abbrev sent_with :
    Environment → DepositAddress → Decimal → TransferRecord → Decimal → Action TransferRecord
sent_with env a amount r rounded =
    let q = with_intent env a rounded r in
    save_record q >>= λ _ w. after_send env q (send env a amount q w).0 (send env a amount q w).1

module _ (P : Withdrawal → Type 0) (env : Environment) where
  sent_with-Sends :
      (a : DepositAddress) (amount : Decimal) (r : TransferRecord) (rounded : Decimal)
      → P (order_to_withdraw r.plan a amount)
      → Sends P (sent_with env a amount r rounded)
  unfolding save_record
  sent_with-Sends a amount r rounded p w =
      let q = with_intent env a rounded r in
      let w' = (save_record q w).1 in
      let x = send env a amount q w' in
      AtMostOne-same P (sent_by_mode P env a amount q env.mode refl p w')
        (after_send_adds_nothing env q x.0 x.1)

  by_rounding :
      (a : DepositAddress) (amount : Decimal) (r : TransferRecord) (rounded : Result Decimal)
      → P (order_to_withdraw r.plan a amount)
      → Sends P (continued (sent_with env a amount r) rounded)
  by_rounding a amount r (ok x) p w = sent_with-Sends a amount r x p w
  by_rounding a amount r (raise e) p w = same refl

  send_withdrawal-Sends :
      (a : DepositAddress) (amount : Decimal) (r : TransferRecord)
      → P (order_to_withdraw r.plan a amount)
      → Sends P (send_withdrawal env a amount r)
  unfolding send_withdrawal
  send_withdrawal-Sends a amount r p w = by_rounding a amount r (signal (quantize 8 amount)) p w

  check_address-Sends :
      (route : RouteNetwork) (r : TransferRecord) (x : Reply DepositAddress)
      → ((a : DepositAddress)
          → x ≡ reply a
          → (requires_memo r.plan.asset && not (has_memo a)) ≡ false
          → le_dec (sub_dec r.buy_filled_amount route.withdrawal_fee) dec0 ≡ false
          → P (order_to_withdraw r.plan a (sub_dec r.buy_filled_amount route.withdrawal_fee)))
      → Sends P (check_address env route r x)
  unfolding check_address fail_record
  check_address-Sends route r (failure e) p w = same refl
  check_address-Sends route r (reply a) p w =
      let amount = sub_dec r.buy_filled_amount route.withdrawal_fee in
      elim (Bool-cases (requires_memo r.plan.asset && not (has_memo a))) [
        | inl e ↦ same (ground arith)
        | inr e ↦ elim (Bool-cases (le_dec amount dec0)) [
          | inl z ↦ same (ground arith)
          | inr z ↦
              let chosen : check_address env route r (reply a) w
                  ≡ send_withdrawal env a amount r w =
                ground arith in
              AtMostOne-same P (send_withdrawal-Sends a amount r (p a refl e z) w)
                (ap (λ (x : Result TransferRecord × World). withdrawals x.1.log) chosen)
        ]
      ]

memo_of :
    (a : DepositAddress) (needed : Bool)
    → (needed && not (has_memo a)) ≡ false
    → needed ≡ true
    → (memo : Text) × (a.memo ≡ some memo) × (strip memo ≢ [])
unfolding has_memo
memo_of a needed h n = elim (Option-cases a.memo) [
  | inl e ↦ absurd (ground (arith, e))
  | inr (m, e) ↦ (m, e, λ z. absurd (ground (arith, e, z)))
]

check_route-Sends :
    (env : Environment) (r : TransferRecord) (x : Result RouteNetwork)
    → is_some r.withdrawal_id ≡ false
    → route_now env r.plan ≡ x
    → Sends (Due env r) (check_route env r x)
unfolding check_route fail_record
check_route-Sends env r (raise Exception.network_mismatch) n e w = same refl
check_route-Sends env r (raise x) n e w = same (ground arith)
check_route-Sends env r (ok route) n e w =
    let asked = env.fetch_deposit_address r.plan.dest_exchange r.plan.asset r.plan.network in
    elim (Bool-cases (matches_plan r.plan route)) [
      | inl m ↦
          let due : (a : DepositAddress)
              → asked ≡ reply a
              → (requires_memo r.plan.asset && not (has_memo a)) ≡ false
              → le_dec (sub_dec r.buy_filled_amount route.withdrawal_fee) dec0 ≡ false
              → Due env r
                  (order_to_withdraw r.plan a (sub_dec r.buy_filled_amount route.withdrawal_fee)) =
            λ a h memo positive. record {
              not_sent = n;
              route = route;
              validated = e;
              planned = m;
              address = a;
              asked = h;
              memo_given = λ needed. memo_of a (requires_memo r.plan.asset) memo needed;
              positive = positive;
              asset = refl;
              amount = refl;
              to_address = refl;
              with_memo = refl;
              on_network = refl;
            } in
          let chosen : check_route env r (ok route) w ≡ check_address env route r asked w =
            ground arith in
          AtMostOne-same (Due env r) (check_address-Sends (Due env r) env route r asked due w)
            (ap (λ (x : Result TransferRecord × World). withdrawals x.1.log) chosen)
      | inr m ↦ same (ground arith)
    ]

-- what follows the guard, when nothing was withdrawn before
abbrev first_withdrawal : Environment → TransferRecord → Action (Option TransferRecord)
first_withdrawal env r = check_route env r (route_now env r.plan) >>= (λ r'. pure (some r'))

renewed_log :
    (x : Result TransferRecord) (w : World)
    → (continued (λ (q : TransferRecord). pure (some q)) x w).1 ≡ w
renewed_log (ok q) w = refl
renewed_log (raise e) w = refl

first_withdrawal-Sends :
    (env : Environment) (r : TransferRecord)
    → is_some r.withdrawal_id ≡ false
    → Sends (Due env r) (first_withdrawal env r)
first_withdrawal-Sends env r n w =
    let x = check_route env r (route_now env r.plan) w in
    AtMostOne-same (Due env r) (check_route-Sends env r (route_now env r.plan) n refl w)
      (ap (λ (v : World). withdrawals v.log) (renewed_log x.0 x.1))

unless_withdrawn-Sends :
    (env : Environment) (r : TransferRecord) → Sends (Due env r) (unless_withdrawn env r)
unless_withdrawn-Sends env r w = elim (Bool-cases (is_some r.withdrawal_id)) [
  | inl e ↦ same (ground arith)
  | inr e ↦
      let chosen : unless_withdrawn env r w ≡ first_withdrawal env r w = ground arith in
      AtMostOne-same (Due env r) (first_withdrawal-Sends env r e w)
        (ap (λ (x : Result (Option TransferRecord) × World). withdrawals x.1.log) chosen)
]

after_guard :
    (env : Environment) (r : TransferRecord) (x : Result (Unit {0})) (w : World)
    → AtMostOne
        (Due env r)
        (withdrawals w.log)
        (withdrawals (continued (λ _. unless_withdrawn env r) x w).1.log)
after_guard env r (ok a) w = unless_withdrawn-Sends env r w
after_guard env r (raise e) w = same refl

guard_keeps_log : (env : Environment) (w : World) → (check_guard env w).1 ≡ w
unfolding check_guard
guard_keeps_log env w = ground arith

-- The withdrawal step adds at most one withdrawal to the log, and only one that is due: nothing
-- was noted for the transfer before, the route validated now is the planned network, and the
-- amount of the planned asset is what was bought less the fee of that route, which is positive,
-- sent on that network to the address and with the memo that the destination gave for it; an
-- asset that needs a memo has one.
pub withdraws_only_what_is_Due :
    (env : Environment) (r : TransferRecord) (w : World)
    → AtMostOne (Due env r) (withdrawals w.log) (withdrawals (submit_withdrawal env r w).1.log)
unfolding submit_withdrawal
withdraws_only_what_is_Due env r w =
    let x = check_guard env w in
    subst
      (λ (v : World).
        AtMostOne (Due env r) (withdrawals v.log)
          (withdrawals (continued (λ _. unless_withdrawn env r) x.0 x.1).1.log))
      (guard_keeps_log env w) (after_guard env r x.0 x.1)
