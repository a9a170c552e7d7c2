-- ===== src/LoadBalancer/Fairness.antt =====
-- Repeated selections by one balancer.
use thwip.Prelude.{
  ℕ, zero, suc, ◌+◌, ◌%◌, ◌≤◌, ◌<◌, ◌^◌, ◌≡◌, refl, ◌∙◌, ap, Option, none, some, List, arith, ok,
  err,
}
use thwip.Prelude.Text.{Bytes}
use thwip.Config.{weighted_round_robin, UpstreamEndpoint, ProxyAction, Action, proxy}
use thwip.LoadBalancer.{UpstreamBalancer, Selection, get_cursor, select}
use thwip.LoadBalancer.Cursors.{get_cursor-set_cursor_self}
use thwip.LoadBalancer.Cycle.{sum_over, sum_over-ext, sum_over-periodic, is_url, pick_share}
use thwip.LoadBalancer.Pick.{weights, weight_of, pick}
use thwip.LoadBalancer.Selecting.{Resolves, select-Resolves, moved, select_from-weighted}

-- The text that a call of `select` answers, and the balancer after it.
abbrev pub answer : Option Selection → Option Bytes
answer none = none
answer (some (b, ok url)) = some url
answer (some (b, err e)) = none

abbrev pub after : UpstreamBalancer → Option Selection → UpstreamBalancer
after b none = b
after b (some (b', r)) = b'

-- How often `url` is the answer in `n` calls of `select` one after the other.
pub served : Bytes → ℕ → UpstreamBalancer → Action → ℕ
served url zero b action = 0
served url (suc n) b action =
    is_url url (answer (select b action)) + served url n (after b (select b action)) action

-- `n` calls answer what the places of the cursor in the cycle say.
served-sum_over :
    (url : Bytes) (n : ℕ) (b : UpstreamBalancer) (p : ProxyAction) (key : Bytes)
    (es : List UpstreamEndpoint) (c : ℕ)
    → Resolves b.groups p key weighted_round_robin es
    → 0 < weights es
    → weights es < 2 ^ 64
    → get_cursor key b.cursors ≡ c
    → c + n < 2 ^ 64
    → served url n b (proxy p) ≡ sum_over (λ k. is_url url (pick (k % weights es) 0 es)) c n
unfolding served
served-sum_over url zero b p key es c r pos small at_c h = refl
served-sum_over url (suc n) b p key es c r pos small at_c h =
    let (e, i, _, selected, picked) = select_from-weighted b key es pos small in
    let now : select b (proxy p) ≡ some (moved b key, ok e.url) =
      select-Resolves b p key weighted_round_robin es r ∙ selected in
    let next : get_cursor key (moved b key).cursors ≡ c + 1 =
      get_cursor-set_cursor_self key _ b.cursors ∙ omega arith in
    rw (now, (rw at_c at picked))
      (ap (λ k. is_url url (some e.url) + k)
        (served-sum_over url n (moved b key) p key es (c + 1) r pos small next (omega arith)))

-- A weighted group of which all weights add up to a whole cycle: in as many calls as that, from any
-- cursor that does not wrap on the way, every address is answered as often as its weight says.
pub served-weighted_cycle :
    (url : Bytes) (b : UpstreamBalancer) (p : ProxyAction) (key : Bytes)
    (es : List UpstreamEndpoint)
    → Resolves b.groups p key weighted_round_robin es
    → 0 < weights es
    → get_cursor key b.cursors + weights es < 2 ^ 64
    → served url (weights es) b (proxy p) ≡ weight_of url es
served-weighted_cycle url b p key es r pos h =
    served-sum_over url (weights es) b p key es (get_cursor key b.cursors) r pos (omega arith) refl
      h
    ∙ sum_over-periodic place (weights es) (get_cursor key b.cursors) period
    ∙ sum_over-ext place (λ k. is_url url (pick k 0 es)) 0 (weights es) inside
    ∙ pick_share url 0 es
  where
    place : ℕ → ℕ
    place k = is_url url (pick (k % weights es) 0 es)

    period : (k : ℕ) → place (k + weights es) ≡ place k
    period k = let e : (k + weights es) % weights es ≡ k % weights es = grind arith in rw e

    inside : (k : ℕ) → 0 ≤ k → k < 0 + weights es → place k ≡ is_url url (pick k 0 es)
    inside k _ lt = let e : k % weights es ≡ k = grind arith in rw e
