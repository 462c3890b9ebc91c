-- ===== src/Guard/Restart.antt =====
-- The kill switch across a restart: app/execution/guard.py with its store.
use crypto_arbitrage_bot_ref.Base.{
  ℕ, ◌≡◌, ◌≢◌, true, none, some, [], ◌∷◌, Text, text_eq_sound, find, find-put_self, find-put_ne,
  arith, refl,
}
use crypto_arbitrage_bot_ref.Guard.{
  Guard, BotState, switch, is_halted, persist, restore, remove, kill_switch_key,
}

find-remove_self : (k : Text) (d : BotState) → find k (remove k d) ≡ none
unfolding find
find-remove_self k [] = refl
find-remove_self k ((j, v) ∷ d) = ground (arith, find-remove_self k d)

find-remove_ne : (k j : Text) (d : BotState) → j ≢ k → find j (remove k d) ≡ find j d
unfolding find
find-remove_ne k j [] h = refl
find-remove_ne k j ((i, v) ∷ d) h =
    ground (arith, text_eq_sound i k, text_eq_sound i j, find-remove_ne k j d h)

-- A process that starts from the store another one persisted to is halted exactly if that one
-- was, with the same reason unless it was empty, whatever the store held before; persisting
-- touches no other key.
pub kill_switch_survives_restart :
    (g fresh : Guard) (repo : BotState)
    → fresh.halt_reason ≡ none
    → let after = restore (persist g repo) fresh in
      (is_halted after ≡ is_halted g)
      × ((c : ℕ) (s : Text) → g.halt_reason ≡ some (c ∷ s) → after.halt_reason ≡ some (c ∷ s))
      × ((j : Text) → j ≢ kill_switch_key → find j (persist g repo) ≡ find j repo)
unfolding restore persist is_halted
kill_switch_survives_restart g fresh repo h =
    let key = kill_switch_key in
    let kept = find-put_self key (switch true g.halt_reason g.halted_at) repo in
    let gone = find-remove_self key repo in
    (
      ground (arith, kept, gone),
      λ c s e. ground (arith, kept, gone),
      λ j ne. ground (
        arith,
        find-put_ne key j (switch true g.halt_reason g.halted_at) repo ne,
        find-remove_ne key j repo ne,
      ),
    )
