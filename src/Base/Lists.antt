-- ===== src/Base/Lists.antt =====
-- Lists measured by native numbers, a predicate on every item, and Python dicts as association
-- lists in insertion order.
use Prim.Native.Nat.{ℕ, suc}
use mathlib.Core.Path.{◌≡◌}
use mathlib.Core.Logic.{◌≢◌}
use mathlib.Core.Bool.{Bool, true, false}
use mathlib.Core.Option.{Option, none, some}
use mathlib.Core.List.{List, [], ◌∷◌}
use native.Mathlib.Omega.{arith}
use crypto_arbitrage_bot_ref.Base.Tests.{if◌then◌else◌}
use crypto_arbitrage_bot_ref.Base.Texts.{Text, text_eq, text_eq_sound, text_eq_refl}

module _ {ℓ} {A : Type ℓ} where
  abbrev pub length : List A → ℕ
  length [] = 0
  length (x ∷ xs) = suc (length xs)

  abbrev pub All {κ} : (A → Type κ) → List A → Type κ
  All P [] = Unit
  All P (x ∷ xs) = P x × All P xs

  abbrev pub any_of : (A → Bool) → List A → Bool
  any_of p [] = false
  any_of p (x ∷ xs) = if p x then true else any_of p xs

  abbrev pub select_where : (A → Bool) → List A → List A
  select_where p [] = []
  select_where p (x ∷ xs) = let rest = select_where p xs in if p x then x ∷ rest else rest

-- A Python dict with `str` keys.
abbrev pub Dict {ℓ} : Type ℓ → Type ℓ
Dict V = List (Text × V)

module _ {ℓ} {V : Type ℓ} where
  -- `d.get(k)`
  unfoldable pub find : Text → Dict V → Option V
  find k [] = none
  find k ((j, v) ∷ d) = if text_eq j k then some v else find k d

  -- `d[k] = v`
  unfoldable pub put : Text → V → Dict V → Dict V
  put k v [] = (k, v) ∷ []
  put k v ((j, w) ∷ d) = if text_eq j k then (j, v) ∷ d else (j, w) ∷ put k v d

  pub find-put_self : (k : Text) (v : V) (d : Dict V) → find k (put k v d) ≡ some v
  unfolding find put
  find-put_self k v [] = ground (arith, text_eq_refl k)
  find-put_self k v ((j, w) ∷ d) = ground (arith, find-put_self k v d)

  pub find-put_ne : (k j : Text) (v : V) (d : Dict V) → j ≢ k → find j (put k v d) ≡ find j d
  unfolding find put
  find-put_ne k j v [] h = ground (arith, text_eq_sound k j)
  find-put_ne k j v ((i, w) ∷ d) h =
      ground (arith, text_eq_sound i k, text_eq_sound i j, find-put_ne k j v d h)
