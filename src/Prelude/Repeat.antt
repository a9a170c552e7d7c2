-- ===== src/Prelude/Repeat.antt =====
-- A loop of at most so many rounds, as `for _ in 0..n` with `break`.
use Prim.Native.Nat.{ℕ, zero, suc}

-- A round goes on with a state, or ends the loop.
pub data Round {ℓ} (S : Type ℓ) (E : Type ℓ) : Type ℓ where
  again : S → Round S E
  stop : S → E → Round S E

-- The loop ends with `at_end` where no round ends it.
abbrev pub next_round {ℓ} : {S E : Type ℓ} → (S → S × E) → Round S E → S × E
next_round rest (again s) = rest s
next_round rest (stop s e) = (s, e)

unfoldable pub repeat {ℓ} : {S E : Type ℓ} → (S → Round S E) → ℕ → E → S → S × E
repeat round zero at_end s = (s, at_end)
repeat round (suc n) at_end s = next_round (repeat round n at_end) (round s)

-- What a round keeps, and its end grants.
abbrev pub Keeps {ℓ κ} : {S E : Type ℓ} → (S → Type κ) → (S → E → Type κ) → Round S E → Type κ
Keeps P Q (again s) = P s
Keeps P Q (stop s e) = Q s e

module _ {ℓ κ} {S E : Type ℓ} (P : S → Type κ) (Q : S → E → Type κ) (round : S → Round S E)
    (at_end : E) where
  pub repeat-Keeps :
      ((s : S) → P s → Keeps P Q (round s))
      → ((s : S) → P s → Q s at_end)
      → (n : ℕ) (s : S) → P s
      → Q (repeat round n at_end s).0 (repeat round n at_end s).1
  unfolding repeat
  repeat-Keeps keeps ends zero s p = ends s p
  repeat-Keeps keeps ends (suc n) s p =
      go (round s) (keeps s p) (λ s'. repeat-Keeps keeps ends n s')
    where
      go :
          (r : Round S E)
          → Keeps P Q r
          → ((s' : S) → P s' → Q (repeat round n at_end s').0 (repeat round n at_end s').1)
          → Q (next_round (repeat round n at_end) r).0 (next_round (repeat round n at_end) r).1
      go (again s') k later = later s' k
      go (stop s' e) k later = k
