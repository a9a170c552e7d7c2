-- ===== src/LoadBalancer/Usable.antt =====
-- The groups that `validate` accepts (crates/core/src/runtime/config.rs), and what the balancer answers
-- with one of them (run/slave/src/load_balancer.rs).
use thwip.Prelude.{
  ℕ, ◌<◌, ◌^◌, ◌≡◌, refl, ◌≢◌, ◌∙◌, true, false, ◌⊎◌, inl, inr, Option, none, some, List, [], ◌∷◌,
  arith, get_elem?, is_empty, ok, ◌>>◌, >>-eq-ok, All, Bool-cases,
}
use mathlib.Core.Path.{subst}
use thwip.Prelude.Text.{Bytes, ◌=ᵇ◌}
use thwip.Config.{
  BalancePolicy, round_robin, weighted_round_robin, UpstreamEndpoint, UpstreamGroup, ProxyAction,
  Action, proxy, Groups, get_group, total_weight, configured, is_some, known_group,
  validate_endpoints, validate_group, validate_groups, validate_proxy,
}
use thwip.LoadBalancer.{UpstreamBalancer, select, select_from}
use thwip.LoadBalancer.Pick.{weights, total_weight-eq-some}
use thwip.LoadBalancer.Selecting.{
  Resolves, select-Resolves, moved, select_from-weighted, select_from-round_robin,
}

-- Reading a weight refuses 0 (`deserialize_upstream_weight`).
abbrev pub HaveWeight : List UpstreamEndpoint → Type 0
HaveWeight endpoints = All (λ e. 0 < e.weight) endpoints

-- A list of endpoints that the balancer can choose from.
pub record IsUsable (endpoints : List UpstreamEndpoint) : Type 0 where
  pub some_endpoint : endpoints ≢ []
  pub some_weight : 0 < weights endpoints
  pub small : weights endpoints < 2 ^ 64

-- What the checks of `validate` say, one step down.
validate_endpoints-some :
    (endpoints : List UpstreamEndpoint)
    → validate_endpoints endpoints ≡ ok tt
    → is_some (total_weight 0 endpoints) ≡ true
unfolding validate_endpoints
validate_endpoints-some endpoints h = ground arith

validate_group-parts :
    (name : Bytes) (group : UpstreamGroup)
    → validate_group (name, group) ≡ ok tt
    → (is_empty group.servers ≡ false) × (validate_endpoints group.servers ≡ ok tt)
unfolding validate_group
validate_group-parts name group h = ground arith

pub validate_proxy-parts :
    (groups : Groups) (p : ProxyAction)
    → validate_proxy groups p ≡ ok tt
    → (configured p ≡ 1)
      × (validate_endpoints p.upstreams ≡ ok tt)
      × (known_group groups p.upstream_group ≡ true)
unfolding validate_proxy
validate_proxy-parts groups p h = ground arith

validate_endpoints-small :
    (endpoints : List UpstreamEndpoint)
    → validate_endpoints endpoints ≡ ok tt
    → weights endpoints < 2 ^ 64
validate_endpoints-small endpoints h =
    go (total_weight 0 endpoints) refl (validate_endpoints-some endpoints h)
  where
    go :
        (o : Option ℕ)
        → total_weight 0 endpoints ≡ o
        → is_some o ≡ true
        → weights endpoints < 2 ^ 64
    go none e h = cc
    go (some t) e h =
        let (sum, small) = total_weight-eq-some 0 t endpoints e in
        let small' = small (omega arith) in omega arith

pub IsUsable-of_validate :
    (endpoints : List UpstreamEndpoint)
    → is_empty endpoints ≡ false
    → HaveWeight endpoints
    → validate_endpoints endpoints ≡ ok tt
    → IsUsable endpoints
IsUsable-of_validate [] e w v = absurd (ground arith)
IsUsable-of_validate (x ∷ xs) e (w, ws) v = record {
  some_endpoint = λ h. cc;
  some_weight = omega arith;
  small = validate_endpoints-small (x ∷ xs) v;
}

-- A group of a validated map of groups.
pub get_group-IsUsable :
    (groups : Groups) (name : Bytes) (group : UpstreamGroup)
    → validate_groups groups ≡ ok tt
    → All (λ g. HaveWeight g.1.servers) groups
    → get_group name groups ≡ some group
    → IsUsable group.servers
get_group-IsUsable [] name group v w h = absurd (unfold get_group in cc)
get_group-IsUsable ((key, g) ∷ groups) name group v (w, ws) h =
    let (first, rest) = >>-eq-ok (validate_group (key, g)) (validate_groups groups) v' in
    let (nonempty, checked) = validate_group-parts key g first in
    elim (Bool-cases (key =ᵇ name)) [
      | inl here ↦
          let same : g ≡ group = unfold get_group in ground arith in
          subst (λ k. IsUsable k.servers) same (IsUsable-of_validate g.servers nonempty w checked)
      | inr there ↦ get_group-IsUsable groups name group rest ws (unfold get_group in ground arith)
    ]
  where
    v' : (validate_group (key, g) >> validate_groups groups) ≡ ok tt
    v' = unfold validate_groups in v

-- An endpoint's address, among those of the list.
unfoldable pub IsUrlOf : Bytes → List UpstreamEndpoint → Type 0
IsUrlOf url endpoints =
    (i : ℕ) × (e : UpstreamEndpoint) × (get_elem? endpoints i ≡ some e) × (url ≡ e.url)

select_from-IsUsable :
    (b : UpstreamBalancer) (key : Bytes) (policy : BalancePolicy) (es : List UpstreamEndpoint)
    → IsUsable es
    → (url : Bytes) × (select_from b key policy es ≡ some (moved b key, ok url)) × IsUrlOf url es
unfolding IsUrlOf
select_from-IsUsable b key round_robin es u =
    let (e, at_i, chosen) = select_from-round_robin b key es u.some_endpoint in
    (e.url, chosen, (_, e, at_i, refl))
select_from-IsUsable b key weighted_round_robin es u =
    let (e, i, at_i, chosen, _) = select_from-weighted b key es u.some_weight u.small in
    (e.url, chosen, (i, e, at_i, refl))

-- The address that `select` may answer with at an action.
unfoldable pub IsUpstreamOf : Groups → ProxyAction → Bytes → Type 0
IsUpstreamOf groups p url =
    (p.upstream ≡ some url)
    ⊎ ((key : Bytes) × (policy : BalancePolicy) × (endpoints : List UpstreamEndpoint) × Resolves
          groups p key policy endpoints
        × IsUrlOf url endpoints)

-- The balancer answers at this action, with one of its addresses, and keeps its groups.
unfoldable pub Answers : UpstreamBalancer → Action → Type 0
Answers b (proxy p) =
    (b' : UpstreamBalancer) × (url : Bytes) × (select b (proxy p) ≡ some (b', ok url))
    × (b'.groups ≡ b.groups)
    × IsUpstreamOf b.groups p url
Answers b _ = Unit

abbrev pub ActionHasWeight : Action → Type 0
ActionHasWeight (proxy p) = HaveWeight p.upstreams
ActionHasWeight _ = Unit

pub Answers-resolved :
    (b : UpstreamBalancer) (p : ProxyAction) (key : Bytes) (policy : BalancePolicy)
    (es : List UpstreamEndpoint)
    → Resolves b.groups p key policy es
    → IsUsable es
    → Answers b (proxy p)
unfolding Answers IsUpstreamOf
Answers-resolved b p key policy es r u =
    let (url, chosen, among) = select_from-IsUsable b key policy es u in
    (
      moved b key,
      url,
      select-Resolves b p key policy es r ∙ chosen,
      refl,
      inr (key, policy, es, r, among),
    )
