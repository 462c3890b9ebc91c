-- ===== src/Triangle/Sweep.antt =====
-- `resume_open_trades` of app/strategies/triangular/executor.py as a whole.
use crypto_arbitrage_bot_ref.Base.{
  ℕ, suc, ◌≡◌, refl, sym, ◌∙◌, true, false, some, List, [], ◌∷◌, Text, text_eq, arith, inl, inr,
  Bool-cases,
}
use crypto_arbitrage_bot_ref.Trades.{TradeRecord, is_terminal, get, list_executing}
use crypto_arbitrage_bot_ref.Trades.Rows.{get-save, has_id, executing_listed}
use crypto_arbitrage_bot_ref.Triangle.Effects.{Answers, World, save_trade}
use crypto_arbitrage_bot_ref.Triangle.Resume.{resumed, resume_each, resume_open_trades}
use crypto_arbitrage_bot_ref.Triangle.Effects.{placements}
use crypto_arbitrage_bot_ref.Triangle.Restart.{resumed-Judged}

each-placements :
    (c : ℕ → Answers) (n : ℕ) (ts : List TradeRecord) (w : World)
    → placements (resume_each c n ts w).1.log ≡ placements w.log
unfolding resume_each save_trade
each-placements c n [] w = refl
each-placements c n (t ∷ ts) w = each-placements c (suc n) ts (save_trade (resumed (c n) t) w).1

-- a row that is still executing was there before, and was not looked at
each_executing :
    (c : ℕ → Answers) (n : ℕ) (ts : List TradeRecord) (w : World) (k : Text) (t : TradeRecord)
    → get k (resume_each c n ts w).1.trades ≡ some t
    → is_terminal t.status ≡ false
    → (get k w.trades ≡ some t) × (has_id k ts ≡ false)
unfolding resume_each save_trade
each_executing c n [] w k t h e = (h, refl)
each_executing c n (x ∷ xs) w k t h e =
    let r = resumed (c n) x in
    let j = resumed-Judged (c n) x in
    let rest = each_executing c (suc n) xs (save_trade r w).1 k t h e in
    let found = sym (get-save r k w.trades) ∙ rest.0 in
    elim (Bool-cases (text_eq r.id k)) [
      | inl y ↦ absurd (let same : some r ≡ some t = rw y at found in ground (arith, j.terminal))
      | inr y ↦ (rw y at found, rw (sym j.same_id, y) rest.1)
    ]

-- Whatever the venues answer to a restart's queries, no order is placed, and no row of the table
-- of trades is still executing afterwards: a lookup under any id finds a completed or failed
-- trade, or one in manual review.
pub resume_settles_all :
    (c : ℕ → Answers) (w : World)
    → (placements (resume_open_trades c w).1.log ≡ placements w.log)
      × ((k : Text) (t : TradeRecord)
          → get k (resume_open_trades c w).1.trades ≡ some t
          → is_terminal t.status ≡ true)
unfolding resume_open_trades
resume_settles_all c w = (
  each-placements c 0 (list_executing w.trades) w,
  λ k t h. elim (Bool-cases (is_terminal t.status)) [
    | inl y ↦ y
    | inr n ↦
        let l = each_executing c 0 (list_executing w.trades) w k t h n in
        absurd (ground (arith, executing_listed k t w.trades l.0 (ground arith), l.1))
  ],
)
