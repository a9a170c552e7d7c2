-- ===== src/LoadBalancer/Pick.antt =====
-- Which endpoint a position of the weighted cycle falls to (run/slave/src/load_balancer.rs).
use thwip.Prelude.{
  ℕ, suc, ◌+◌, ◌≤◌, ◌<◌, ◌^◌, ◌≡◌, refl, false, Option, none, some, List, [], ◌∷◌, arith, ltb,
  if◌then◌else◌, get_elem?, Bool-cases, inl, inr,
}
use thwip.Prelude.Text.{Bytes, ◌=ᵇ◌}
use thwip.Config.{UpstreamEndpoint, total_weight}
use thwip.LoadBalancer.{position_of}

-- The sum of the weights, with no bound.
abbrev pub weights : List UpstreamEndpoint → ℕ
weights [] = 0
weights (e ∷ es) = e.weight + weights es

-- The weight that is given to a text.
abbrev pub weight_of : Bytes → List UpstreamEndpoint → ℕ
weight_of url [] = 0
weight_of url (e ∷ es) = (if e.url =ᵇ url then e.weight else 0) + weight_of url es

pub total_weight-eq-some :
    (n t : ℕ) (es : List UpstreamEndpoint)
    → total_weight n es ≡ some t
    → (t ≡ n + weights es) × (n < 2 ^ 64 → t < 2 ^ 64)
unfolding total_weight
total_weight-eq-some n t [] h = ground arith
total_weight-eq-some n t (e ∷ es) h = ground (arith, total_weight-eq-some (n + e.weight) t es)

-- The text of the endpoint that a position falls to.
abbrev pub pick : ℕ → ℕ → List UpstreamEndpoint → Option Bytes
pick p b [] = none
pick p b (e ∷ es) = if ltb p (b + e.weight) then some e.url else pick p (b + e.weight) es

-- A position inside the cycle falls to an endpoint, and `position_of` finds it.
pub position_of-pick :
    (p b : ℕ) (es : List UpstreamEndpoint)
    → p < b + weights es
    → b ≤ p
    → (i : ℕ) × (e : UpstreamEndpoint) × (position_of p b es ≡ some i)
      × (get_elem? es i ≡ some e)
      × (pick p b es ≡ some e.url)
position_of-pick p b [] h k = absurd (omega arith)
position_of-pick p b (e ∷ es) h k = elim (Bool-cases (ltb p (b + e.weight))) [
  | inl here ↦ (0, e, unfold position_of in rw (position_of, here), refl, rw here)
  | inr later ↦
      let (i, f, found, at_i, picked) =
        position_of-pick p (b + e.weight) es (omega arith) (ground arith) in
      (suc i, f, passed i later found, at_i, rw later picked)
]
  where
    passed :
        (i : ℕ)
        → ltb p (b + e.weight) ≡ false
        → position_of p (b + e.weight) es ≡ some i
        → position_of p b (e ∷ es) ≡ some (suc i)
    passed i later found = unfold position_of in rw (position_of, later, found)
