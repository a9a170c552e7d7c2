-- ===== src/LoadBalancer.antt =====
-- run/slave/src/load_balancer.rs: the upstream balancer of one worker. The two hash maps are
-- association lists. `none` as the result of an operation is a panic: a remainder by zero, or an
-- `unwrap` of `None`.
pub mod Cursors
pub mod Pick
pub mod Cycle
pub mod Selecting
pub mod Fairness
pub mod Usable
pub mod Validated
use thwip.Prelude.{
  ℕ, zero, suc, ◌+◌, ◌%◌, ◌^◌, ◌<◌, String, ◌≡◌, Bool, true, false, not, Option, none, some, List,
  [], ◌∷◌, ◌++◌, ltb, ◌==◌, if◌then◌else◌, length, get_elem?, is_empty, Result, ok, err,
}
use thwip.Prelude.Text.{Bytes, codes, ◌=ᵇ◌, to_decimal}
use thwip.Config.{
  BalancePolicy, round_robin, weighted_round_robin, UpstreamEndpoint, UpstreamGroup, ProxyAction,
  Action, proxy, static, response, Groups, get_group, total_weight, configured,
}

abbrev pub Cursors : Type 0
Cursors = List (Bytes × ℕ)

pub record UpstreamBalancer : Type 0 where
  pub groups : Groups
  pub cursors : Cursors

pub data BalanceError : Type 0 where
  not_proxy missing_upstream ambiguous_upstream invalid_weight : BalanceError
  unknown_group : Bytes → BalanceError

unfoldable pub with_groups : Groups → UpstreamBalancer
with_groups groups = record { groups = groups; cursors = [] }

-- `cursors.entry(key).or_default()` reads 0 where there is no entry.
unfoldable pub get_cursor : Bytes → Cursors → ℕ
get_cursor key [] = 0
get_cursor key ((k, v) ∷ cursors) = if k =ᵇ key then v else get_cursor key cursors

-- A write through the entry, which inserts it where there is none.
unfoldable pub set_cursor : Bytes → ℕ → Cursors → Cursors
set_cursor key value [] = (key, value) ∷ []
set_cursor key value ((k, v) ∷ cursors) =
    if k =ᵇ key then (key, value) ∷ cursors else (k, v) ∷ set_cursor key value cursors

abbrev pub policy_name : BalancePolicy → Bytes
policy_name round_robin = codes "RoundRobin"
policy_name weighted_round_robin = codes "WeightedRoundRobin"

unfoldable pub endpoints_key : List UpstreamEndpoint → Bytes
endpoints_key [] = []
endpoints_key (endpoint ∷ endpoints) =
    endpoint.url ++ (b'#' ∷ (to_decimal endpoint.weight ++ (b'|' ∷ endpoints_key endpoints)))

unfoldable pub group_key : BalancePolicy → List UpstreamEndpoint → Bytes
unfolding endpoints_key
group_key policy upstreams = policy_name policy ++ (b':' ∷ endpoints_key upstreams)

-- The first endpoint whose boundary, the sum of the weights up to it, is above `position`.
unfoldable pub position_of : ℕ → ℕ → List UpstreamEndpoint → Option ℕ
position_of position boundary [] = none
position_of position boundary (endpoint ∷ endpoints) =
    elim (ltb position (boundary + endpoint.weight)) [
      | true ↦ some 0
      | false ↦ elim (position_of position (boundary + endpoint.weight) endpoints) [
        | none ↦ none
        | some i ↦ some (suc i)
      ]
    ]

-- `match policy`: the index that is selected, an overflow of the weights, or a panic.
unfoldable pub select_weighted :
    ℕ → Option ℕ → List UpstreamEndpoint → Option (Result ℕ BalanceError)
unfolding position_of
select_weighted cursor none upstreams = some (err invalid_weight)
select_weighted cursor (some zero) upstreams = none
select_weighted cursor (some (suc n)) upstreams = elim (position_of (cursor % suc n) 0 upstreams) [
  | none ↦ none
  | some i ↦ some (ok i)
]

unfoldable pub select_index :
    BalancePolicy → ℕ → List UpstreamEndpoint → Option (Result ℕ BalanceError)
unfolding select_weighted total_weight
select_index round_robin cursor upstreams = some (ok (cursor % length upstreams))
select_index weighted_round_robin cursor upstreams =
    select_weighted cursor (total_weight 0 upstreams) upstreams

abbrev pub Selection : Type 0
Selection = UpstreamBalancer × Result Bytes BalanceError

-- The end of `select`: the cursor's entry exists from here on, and moves on where an endpoint is
-- selected.
unfoldable pub advance :
    UpstreamBalancer
    → Bytes
    → ℕ
    → List UpstreamEndpoint
    → Option (Result ℕ BalanceError)
    → Option Selection
unfolding set_cursor
advance b key cursor upstreams none = none
advance b key cursor upstreams (some (err e)) =
    some (record b { cursors = set_cursor key cursor b.cursors }, err e)
advance b key cursor upstreams (some (ok i)) = elim (get_elem? upstreams i) [
  | none ↦ none
  | some endpoint ↦
      some
        (record b { cursors = set_cursor key ((cursor + 1) % 2 ^ 64) b.cursors }, ok endpoint.url)
]

unfoldable pub select_from :
    UpstreamBalancer → Bytes → BalancePolicy → List UpstreamEndpoint → Option Selection
unfolding select_index advance get_cursor
select_from b key policy upstreams =
    if is_empty upstreams
    then some (b, err missing_upstream)
    else advance b key (get_cursor key b.cursors) upstreams
        (select_index policy (get_cursor key b.cursors) upstreams)

abbrev pub named_key : Bytes → Bytes
named_key name = codes "named:" ++ name

unfoldable pub select_named : UpstreamBalancer → Bytes → Option UpstreamGroup → Option Selection
unfolding select_from
select_named b name none = some (b, err (unknown_group name))
select_named b name (some group) = select_from b (named_key name) group.policy group.servers

-- `select` at a proxy action that names its upstream in at most one way.
unfoldable pub select_upstream :
    UpstreamBalancer → ProxyAction → Option Bytes → Option Bytes → Option Selection
unfolding select_named get_group group_key
select_upstream b p (some upstream) _ = some (b, ok upstream)
select_upstream b p none (some name) = select_named b name (get_group name b.groups)
select_upstream b p none none = select_from b (group_key p.policy p.upstreams) p.policy p.upstreams

unfoldable pub select : UpstreamBalancer → Action → Option Selection
unfolding select_upstream configured
select b (proxy p) =
    if ltb 1 (configured p)
    then some (b, err ambiguous_upstream)
    else select_upstream b p p.upstream p.upstream_group
select b (static directory) = some (b, err not_proxy)
select b (response status body) = some (b, err not_proxy)
