-- ===== src/LoadBalancer/Selecting.antt =====
-- What `select` does at an action that resolves to a list of endpoints: one inline, or a group.
use thwip.Prelude.{
  ℕ, zero, suc, ◌+◌, ◌%◌, ◌<◌, ◌^◌, ◌≡◌, refl, ◌≢◌, ◌∙◌, ap, none, some, List, [], ◌∷◌, arith,
  get_elem?, length, ok, get_elem?-lt,
}
use thwip.Prelude.Text.{Bytes}
use thwip.Config.{
  BalancePolicy, round_robin, weighted_round_robin, UpstreamEndpoint, UpstreamGroup, ProxyAction,
  proxy, Groups, get_group, total_weight, configured,
}
use thwip.LoadBalancer.{
  UpstreamBalancer, get_cursor, set_cursor, group_key, position_of, select_weighted, select_index,
  advance, select_from, named_key, select_named, select_upstream, select,
}
use thwip.LoadBalancer.Pick.{weights, pick, position_of-pick}

-- The action uses these endpoints under this policy, with its cursor under this key.
pub data Resolves (groups : Groups) (p : ProxyAction) (key : Bytes) (policy : BalancePolicy)
    (endpoints : List UpstreamEndpoint) : Type 0 where
  inline :
      p.upstream ≡ none
      → p.upstream_group ≡ none
      → key ≡ group_key p.policy p.upstreams
      → policy ≡ p.policy
      → endpoints ≡ p.upstreams
      → Resolves groups p key policy endpoints
  named :
      (name : Bytes) (group : UpstreamGroup)
      → p.upstream ≡ none
      → p.upstream_group ≡ some name
      → p.upstreams ≡ []
      → get_group name groups ≡ some group
      → key ≡ named_key name
      → policy ≡ group.policy
      → endpoints ≡ group.servers
      → Resolves groups p key policy endpoints

pub select-Resolves :
    (b : UpstreamBalancer) (p : ProxyAction) (key : Bytes) (policy : BalancePolicy)
    (endpoints : List UpstreamEndpoint)
    → Resolves b.groups p key policy endpoints
    → select b (proxy p) ≡ select_from b key policy endpoints
unfolding select select_upstream select_named configured
select-Resolves b p key policy endpoints (inline no_url no_group k pol es) =
    rw (no_url, no_group, k, pol, es) (ground arith)
select-Resolves b p key policy endpoints (named name group no_url by_name no_list found k pol es) =
    rw (no_url, by_name, no_list, found, k, pol, es)

-- The state after a selection under `key`.
abbrev pub moved : UpstreamBalancer → Bytes → UpstreamBalancer
moved b key = record b {
  cursors = set_cursor key ((get_cursor key b.cursors + 1) % 2 ^ 64) b.cursors;
}

-- A selected index that stands in the list is answered, and the cursor moves on.
select_from_of_index :
    (b : UpstreamBalancer) (key : Bytes) (policy : BalancePolicy) (es : List UpstreamEndpoint)
    (i : ℕ) (e : UpstreamEndpoint)
    → select_index policy (get_cursor key b.cursors) es ≡ some (ok i)
    → get_elem? es i ≡ some e
    → select_from b key policy es ≡ some (moved b key, ok e.url)
unfolding select_from advance
select_from_of_index b key policy [] i e index at_i = absurd (ground arith)
select_from_of_index b key policy (x ∷ xs) i e index at_i = rw (index, advance, at_i)

select_weighted_of_position :
    (cursor t i : ℕ) (es : List UpstreamEndpoint)
    → 0 < t
    → position_of (cursor % t) 0 es ≡ some i
    → select_weighted cursor (some t) es ≡ some (ok i)
unfolding select_weighted
select_weighted_of_position cursor zero i es pos found = elim pos [ ]
select_weighted_of_position cursor (suc n) i es pos found = rw (select_weighted, found)

total_weight_of_small :
    (n : ℕ) (es : List UpstreamEndpoint)
    → n + weights es < 2 ^ 64
    → total_weight n es ≡ some (n + weights es)
unfolding total_weight
total_weight_of_small n [] h = ground arith
total_weight_of_small n (e ∷ es) h = ground (arith, total_weight_of_small (n + e.weight) es)

-- The weighted policy selects the endpoint that the cursor's place in the cycle falls to.
pub select_from-weighted :
    (b : UpstreamBalancer) (key : Bytes) (es : List UpstreamEndpoint)
    → 0 < weights es
    → weights es < 2 ^ 64
    → (e : UpstreamEndpoint) × (i : ℕ) × (get_elem? es i ≡ some e)
      × (select_from b key weighted_round_robin es ≡ some (moved b key, ok e.url))
      × (pick (get_cursor key b.cursors % weights es) 0 es ≡ some e.url)
select_from-weighted b key es pos small =
    let c = get_cursor key b.cursors in
    let (i, e, found, at_i, picked) =
      position_of-pick (c % weights es) 0 es (omega arith) (omega arith) in
    let index : select_index weighted_round_robin c es ≡ some (ok i) =
      total c ∙ select_weighted_of_position c (weights es) i es pos found in
    (e, i, at_i, select_from_of_index b key weighted_round_robin es i e index at_i, picked)
  where
    total :
        (c : ℕ) → select_index weighted_round_robin c es ≡ select_weighted c (some (weights es)) es
    total c =
        unfold select_index in
        rw (total_weight_of_small 0 es (omega arith))
          (ap (λ n. select_weighted c (some n) es) (omega arith))

-- The round-robin policy selects by the cursor modulo the number of endpoints.
pub select_from-round_robin :
    (b : UpstreamBalancer) (key : Bytes) (es : List UpstreamEndpoint)
    → es ≢ []
    → (e : UpstreamEndpoint) × (get_elem? es (get_cursor key b.cursors % length es) ≡ some e)
      × (select_from b key round_robin es ≡ some (moved b key, ok e.url))
select_from-round_robin b key [] ne = absurd (ne refl)
select_from-round_robin b key (x ∷ xs) ne =
    let i = get_cursor key b.cursors % suc (length xs) in
    let (e, at_i) = get_elem?-lt (x ∷ xs) i (omega arith) in
    (
      e,
      at_i,
      select_from_of_index b key round_robin (x ∷ xs) i e (unfold select_index in refl) at_i,
    )
