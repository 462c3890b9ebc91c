-- ===== src/Networks/Safety.antt =====
-- A selected route is enabled on both sides, and no common network is cheaper.
use crypto_arbitrage_bot_ref.Base.{
  ◌≡◌, ◌≢◌, ◌++◌, find-put_self, find-put_ne, if◌then◌else◌, refl, Bool, true, false, Option, none,
  some, is_some, subst, List, [], ◌∷◌, Text, Dict, find, put, All, arith, ◌⊎◌, inl, inr, Bool-cases,
  text_eq, text_eq_sound, sym, ap, ◌∙◌,
}
use mathlib.Core.Option.{some-injective}
use crypto_arbitrage_bot_ref.Money.{le_dec}
use crypto_arbitrage_bot_ref.Money.Compare.{le_dec_refl, le_dec_total, le_dec_trans}
use crypto_arbitrage_bot_ref.Result.{ok}
use crypto_arbitrage_bot_ref.Transfers.{WithdrawalNetwork}
use crypto_arbitrage_bot_ref.Networks.{
  RouteNetwork, code_of, by_code, can_withdraw, can_deposit, cheaper, common, cheapest, route, pick,
  select,
}

abbrev pub Has : WithdrawalNetwork → List WithdrawalNetwork → Type 0
Has n [] = ⊥
Has n (m ∷ ms) = (n ≡ m) ⊎ Has n ms

-- an entry of a dict by code: a listed and enabled network under its own code
abbrev Entry :
    (WithdrawalNetwork → Bool) → List WithdrawalNetwork → Text × WithdrawalNetwork → Type 0
Entry enabled ns (c, n) = Has n ns × (enabled n ≡ true) × (code_of n ≡ c)

module _ (enabled : WithdrawalNetwork → Bool) (all : List WithdrawalNetwork) where
  put-Entry :
      (k : Text) (n : WithdrawalNetwork) (d : Dict WithdrawalNetwork)
      → Entry enabled all (k, n)
      → All (Entry enabled all) d
      → All (Entry enabled all) (put k n d)
  unfolding put
  put-Entry k n [] h a = (h, tt)
  put-Entry k n ((j, m) ∷ d) h a = elim (Bool-cases (text_eq j k)) [
    | inl e ↦ rw e ((h.0, h.1, h.2 ∙ sym (text_eq_sound j k e)), a.1)
    | inr e ↦ rw e (a.0, put-Entry k n d h a.1)
  ]

  by_code-Entry :
      (ns : List WithdrawalNetwork) (d : Dict WithdrawalNetwork)
      → All (λ n. Has n all) ns
      → All (Entry enabled all) d
      → All (Entry enabled all) (by_code enabled ns d)
  unfolding by_code
  by_code-Entry [] d h a = a
  by_code-Entry (n ∷ ns) d h a = elim (Bool-cases (enabled n)) [
    | inl e ↦
        rw (e, by_code)
          (by_code-Entry ns (put (code_of n) n d) h.1 (put-Entry (code_of n) n d (h.0, e, refl) a))
    | inr e ↦ rw (e, by_code) (by_code-Entry ns d h.1 a)
  ]

  find-Entry :
      (k : Text) (d : Dict WithdrawalNetwork) {n : WithdrawalNetwork}
      → All (Entry enabled all) d
      → find k d ≡ some n
      → Entry enabled all (k, n)
  unfolding find
  find-Entry k [] a h = absurd (ground arith)
  find-Entry k ((j, m) ∷ d) {n} a h = elim (Bool-cases (text_eq j k)) [
    | inl e ↦
        let same : m ≡ n = some-injective _ _ (rw (e, find) at h) in
        (
          subst (λ x. Has x all) same a.0.0,
          subst (λ x. enabled x ≡ true) same a.0.1,
          ap code_of (sym same) ∙ a.0.2 ∙ text_eq_sound j k e,
        )
    | inr e ↦ find-Entry k d a.1 (rw (e, find) at h)
  ]

Has-weaken :
    (n : WithdrawalNetwork) (ms ns : List WithdrawalNetwork)
    → All (λ m. Has m ns) ms
    → All (λ m. Has m (n ∷ ns)) ms
Has-weaken n [] ns a = tt
Has-weaken n (m ∷ ms) ns a = (inr a.0, Has-weaken n ms ns a.1)

Has-All : (ns : List WithdrawalNetwork) → All (λ n. Has n ns) ns
Has-All [] = tt
Has-All (n ∷ ns) = (inl refl, Has-weaken n ns ns (Has-All ns))

common-All {κ} :
    (P : Text × WithdrawalNetwork → Type κ) (w d : Dict WithdrawalNetwork)
    → All P w
    → All P (common w d)
unfolding common
common-All P [] d a = tt
common-All P ((c, n) ∷ w) d a = elim (Bool-cases (is_some (find c d))) [
  | inl e ↦ rw e (a.0, common-All P w d a.1)
  | inr e ↦ rw e (common-All P w d a.1)
]

cheapest-among {κ} :
    (P : Text × WithdrawalNetwork → Type κ) (es : Dict WithdrawalNetwork)
    (best : Text × WithdrawalNetwork)
    → P best
    → All P es
    → P (cheapest best es)
unfolding cheapest
cheapest-among P [] best p a = p
cheapest-among P (e ∷ es) best p a = elim (Bool-cases (cheaper e best)) [
  | inl c ↦ rw (c, cheapest) (cheapest-among P es e a.0 a.1)
  | inr c ↦ rw (c, cheapest) (cheapest-among P es best p a.1)
]

abbrev AtMost : WithdrawalNetwork → Text × WithdrawalNetwork → Type 0
AtMost n e = le_dec n.withdrawal_fee e.1.withdrawal_fee ≡ true

better : (e best : Text × WithdrawalNetwork) → cheaper e best ≡ true → AtMost e.1 best
unfolding cheaper
better e best h = ground (arith, le_dec_total best.1.withdrawal_fee e.1.withdrawal_fee)

no_better : (e best : Text × WithdrawalNetwork) → cheaper e best ≡ false → AtMost best.1 e
unfolding cheaper
no_better e best h = ground arith

cheapest-AtMost :
    (es : Dict WithdrawalNetwork) (best : Text × WithdrawalNetwork)
    → AtMost (cheapest best es).1 best × All (AtMost (cheapest best es).1) es
unfolding cheapest
cheapest-AtMost [] best = (le_dec_refl best.1.withdrawal_fee, tt)
cheapest-AtMost (e ∷ es) best = elim (Bool-cases (cheaper e best)) [
  | inl c ↦
      let same : cheapest best (e ∷ es) ≡ cheapest e es = rw (c, cheapest) refl in
      let (low, rest) = cheapest-AtMost es e in
      subst (λ x. AtMost x.1 best × All (AtMost x.1) (e ∷ es)) (sym same)
        (le_dec_trans (cheapest e es).1.withdrawal_fee _ _ low (better e best c), (low, rest))
  | inr c ↦
      let same : cheapest best (e ∷ es) ≡ cheapest best es = rw (c, cheapest) refl in
      let (low, rest) = cheapest-AtMost es best in
      subst (λ x. AtMost x.1 best × All (AtMost x.1) (e ∷ es)) (sym same)
        (low, (le_dec_trans (cheapest best es).1.withdrawal_fee _ _ low (no_better e best c), rest))
]

-- What a selected route promises, against the networks that both venues published.
pub record IsSafeRoute (sources dests : List WithdrawalNetwork) (r : RouteNetwork) : Type 0 where
  pub source : WithdrawalNetwork
  pub source_listed : Has source sources
  pub source_enabled : source.withdraw_enabled ≡ true
  pub source_code : code_of source ≡ r.code
  pub same_network : source.network ≡ r.network
  pub same_fee : source.withdrawal_fee ≡ r.withdrawal_fee
  pub dest : WithdrawalNetwork
  pub dest_listed : Has dest dests
  pub dest_enabled : dest.deposit_enabled ≡ true
  pub dest_code : code_of dest ≡ r.code

is_some-find-put :
    (c k : Text) (n : WithdrawalNetwork) (d : Dict WithdrawalNetwork)
    → is_some (find c d) ≡ true
    → is_some (find c (put k n d)) ≡ true
unfolding find put
is_some-find-put c k n [] h = ground arith
is_some-find-put c k n ((j, m) ∷ d) h = ground (arith, text_eq_sound j k, is_some-find-put c k n d)

-- n is listed and enabled, and none that is listed later and enabled has its code: of several
-- networks under one code the venue's last one stands for them
pub record Offered (enabled : WithdrawalNetwork → Bool) (all : List WithdrawalNetwork)
    (n : WithdrawalNetwork) : Type 0 where
  pub before : List WithdrawalNetwork
  pub after : List WithdrawalNetwork
  pub listed : all ≡ before ++ n ∷ after
  pub on : enabled n ≡ true
  pub last : All (λ m. enabled m ≡ true → code_of m ≢ code_of n) after

-- some listed and enabled network has the code
abbrev pub Accepts : (WithdrawalNetwork → Bool) → Text → List WithdrawalNetwork → Type 0
Accepts enabled c [] = ⊥
Accepts enabled c (m ∷ ms) = ((enabled m ≡ true) × (code_of m ≡ c)) ⊎ Accepts enabled c ms

module _ (enabled : WithdrawalNetwork → Bool) where
  find-by_code_other :
      (c : Text) (ns : List WithdrawalNetwork) (d : Dict WithdrawalNetwork)
      → All (λ m. enabled m ≡ true → code_of m ≢ c) ns
      → find c (by_code enabled ns d) ≡ find c d
  unfolding by_code
  find-by_code_other c [] d a = refl
  find-by_code_other c (m ∷ ms) d a = elim (Bool-cases (enabled m)) [
    | inl e ↦ rw e (
        find-by_code_other c ms (put (code_of m) m d) a.1
        ∙ find-put_ne (code_of m) c m d (λ h. a.0 e (sym h)))
    | inr e ↦ rw e (find-by_code_other c ms d a.1)
  ]

  find-by_code_head :
      (after : List WithdrawalNetwork) (n : WithdrawalNetwork) (d : Dict WithdrawalNetwork)
      → enabled n ≡ true
      → All (λ m. enabled m ≡ true → code_of m ≢ code_of n) after
      → find (code_of n) (by_code enabled (n ∷ after) d) ≡ some n
  unfolding by_code
  find-by_code_head after n d on last = rw on (
      find-by_code_other (code_of n) after (put (code_of n) n d) last
      ∙ find-put_self (code_of n) n d)

  find-by_code_last :
      (before after : List WithdrawalNetwork) (n : WithdrawalNetwork) (d : Dict WithdrawalNetwork)
      → enabled n ≡ true
      → All (λ m. enabled m ≡ true → code_of m ≢ code_of n) after
      → find (code_of n) (by_code enabled (before ++ n ∷ after) d) ≡ some n
  unfolding by_code
  find-by_code_last [] after n d on last = find-by_code_head after n d on last
  find-by_code_last (m ∷ before) after n d on last =
      find-by_code_last before after n (if enabled m then put (code_of m) m d else d) on last

  find-by_code_some :
      (c : Text) (ns : List WithdrawalNetwork) (d : Dict WithdrawalNetwork)
      → (is_some (find c d) ≡ true) ⊎ Accepts enabled c ns
      → is_some (find c (by_code enabled ns d)) ≡ true
  unfolding by_code
  find-by_code_some c [] d (inl h) = h
  find-by_code_some c [] d (inr h) = absurd h
  find-by_code_some c (m ∷ ms) d (inl h) = elim (Bool-cases (enabled m)) [
    | inl e ↦ rw e (find-by_code_some c ms _ (inl (is_some-find-put c (code_of m) m d h)))
    | inr e ↦ rw e (find-by_code_some c ms d (inl h))
  ]
  find-by_code_some c (m ∷ ms) d (inr (inl (on, code))) = rw on (
      find-by_code_some c ms _ (
        inl (
          subst (λ k. is_some (find k (put (code_of m) m d)) ≡ true) code
            (ap is_some (find-put_self (code_of m) m d)))))
  find-by_code_some c (m ∷ ms) d (inr (inr h)) =
      find-by_code_some c ms (if enabled m then put (code_of m) m d else d) (inr h)

-- what holds of every common network holds of one that both dicts have
common-found :
    (Q : WithdrawalNetwork → Type 0) (c : Text) (n : WithdrawalNetwork)
    (w d : Dict WithdrawalNetwork)
    → find c w ≡ some n
    → is_some (find c d) ≡ true
    → All (λ e. Q e.1) (common w d)
    → Q n
unfolding find common
common-found Q c n [] d f h a = absurd (ground arith)
common-found Q c n ((j, m) ∷ w) d f h a = elim (Bool-cases (text_eq j c)) [
  | inl e ↦
      let same : m ≡ n = some-injective _ _ (rw (e, find) at f) in
      let there : is_some (find j d) ≡ true =
        subst (λ k. is_some (find k d) ≡ true) (sym (text_eq_sound j c e)) h in
      subst Q same (rw (there, common) at a).0
  | inr e ↦ elim (Bool-cases (is_some (find j d))) [
    | inl s ↦ common-found Q c n w d (rw (e, find) at f) h (rw (s, common) at a).1
    | inr s ↦ common-found Q c n w d (rw (e, find) at f) h (rw (s, common) at a)
  ]
]

module _ (sources dests : List WithdrawalNetwork) where
  abbrev pub withdrawable : Dict WithdrawalNetwork
  withdrawable = by_code can_withdraw sources []

  abbrev pub depositable : Dict WithdrawalNetwork
  depositable = by_code can_deposit dests []

  withdrawable-Entry : All (Entry can_withdraw sources) withdrawable
  withdrawable-Entry = by_code-Entry can_withdraw sources sources [] (Has-All sources) tt

  depositable-Entry : All (Entry can_deposit dests) depositable
  depositable-Entry = by_code-Entry can_deposit dests dests [] (Has-All dests) tt

  route-IsSafe :
      (best : Text × WithdrawalNetwork) (found : Option WithdrawalNetwork) {r : RouteNetwork}
      → Entry can_withdraw sources best
      → find best.0 depositable ≡ found
      → route best found ≡ ok r
      → IsSafeRoute sources dests r × (best.1.withdrawal_fee ≡ r.withdrawal_fee)
  route-IsSafe best none a f h = absurd (ground arith)
  route-IsSafe (c, n) (some m) {r} a f h =
      let (has, on, code) = find-Entry can_deposit dests c depositable depositable-Entry f in
      let same : c ≡ r.code = ground arith in
      (
        record {
          source = n;
          source_listed = a.0;
          source_enabled = a.1;
          source_code = a.2 ∙ same;
          same_network = ground arith;
          same_fee = ground arith;
          dest = m;
          dest_listed = has;
          dest_enabled = on;
          dest_code = code ∙ same;
        },
        ground arith,
      )

  pick-IsSafe :
      (es : Dict WithdrawalNetwork) {r : RouteNetwork}
      → All (Entry can_withdraw sources) es
      → pick es depositable ≡ ok r
      → IsSafeRoute sources dests r
        × All (λ e. le_dec r.withdrawal_fee e.1.withdrawal_fee ≡ true) es
  pick-IsSafe [] a h = absurd (ground arith)
  pick-IsSafe (e ∷ es) {r} a h =
      let best = cheapest e es in
      let (safe, same) =
        route-IsSafe best (find best.0 depositable)
          (cheapest-among (Entry can_withdraw sources) es e a.0 a.1) refl h in
      (
        safe,
        subst (λ fee. All (λ x. le_dec fee x.1.withdrawal_fee ≡ true) (e ∷ es)) same
            (cheapest-AtMost es e),
      )

  -- A route that `select` returns names a network that the source venue lists with withdrawals
  -- enabled and the destination venue with deposits enabled, under one unified code, at the fee
  -- of the source; and no network that the source has enabled, as the last enabled one under its
  -- code, is cheaper if the destination has one enabled under that code.
  pub select_safe :
      {r : RouteNetwork}
      → select sources dests ≡ ok r
      → IsSafeRoute sources dests r
        × ((n : WithdrawalNetwork)
            → Offered can_withdraw sources n
            → Accepts can_deposit (code_of n) dests
            → le_dec r.withdrawal_fee n.withdrawal_fee ≡ true)
  unfolding select
  select_safe {r} h =
      let (safe, low) =
        pick-IsSafe (common withdrawable depositable)
          (common-All (Entry can_withdraw sources) withdrawable depositable withdrawable-Entry) h in
      (
        safe,
        λ n o accepts.
            common-found (λ m. le_dec r.withdrawal_fee m.withdrawal_fee ≡ true) (code_of n) n
              withdrawable depositable
              (subst (λ ns. find (code_of n) (by_code can_withdraw ns []) ≡ some n) (sym o.listed)
                (find-by_code_last can_withdraw o.before o.after n [] o.on o.last))
              (find-by_code_some can_deposit (code_of n) dests [] (inr accepts)) low,
      )
