-- ===== src/Tests/Balancing.antt =====
-- Runs of run/slave/src/load_balancer.rs, on a configuration that `Config::validate` accepts.
use thwip.Prelude.{
  ℕ, zero, suc, ◌+◌, ◌%◌, ◌<◌, ◌^◌, ◌≡◌, refl, ◌≢◌, Bool, true, false, Option, some, none, List, [],
  ◌∷◌, ◌++◌, arith, length, All, get_elem?, Result, ok, err, if◌then◌else◌,
}
use thwip.Prelude.Text.{codes, ◌=ᵇ◌}
use thwip.Config.{
  Config, Server, Location, prefix, proxy, ProxyAction, UpstreamEndpoint, UpstreamGroup,
  weighted_round_robin, round_robin, validate,
}
use thwip.LoadBalancer.{UpstreamBalancer, get_cursor, select_from}
use thwip.LoadBalancer.Pick.{weights, weight_of, pick}
use thwip.LoadBalancer.Selecting.{Resolves, named, moved, select_from-weighted}
use thwip.LoadBalancer.Fairness.{served, served-weighted_cycle}
use thwip.LoadBalancer.Usable.{Answers}
use thwip.LoadBalancer.Validated.{validate-Answers}

abbrev endpoints : List UpstreamEndpoint
endpoints =
    record { url = codes "http://a"; weight = 2 }
    ∷ record { url = codes "http://b"; weight = 1 }
    ∷ []

abbrev group : UpstreamGroup
group = record { policy = weighted_round_robin; servers = endpoints }

abbrev by_group : ProxyAction
by_group = record {
  upstream = none;
  upstream_group = some (codes "g");
  upstreams = [];
  policy = round_robin;
}

abbrev config : Config
config = record {
  servers =
      record {
        server_name = none;
        locations = record { matcher = prefix (codes "/"); action = proxy by_group } ∷ [];
        listen = 80;
        ssl = none;
      }
      ∷ [];
  upstreams = (codes "g", group) ∷ [];
}

abbrev balancer : UpstreamBalancer
balancer = record { groups = config.upstreams; cursors = [] }

config-accepted : validate config ≡ ok tt
unfolding validate thwip.Prelude.Utf8.trim ◌=ᵇ◌
config-accepted = refl

validate-Answers_example :
    All (λ s. All (λ l. Answers balancer l.action) s.locations) config.servers
validate-Answers_example =
    validate-Answers config balancer config-accepted (ground arith) (ground arith) refl

endpoints-weights : weights endpoints ≡ 3
endpoints-weights = refl

select_from-weighted_example :
    (e : UpstreamEndpoint) × (i : ℕ) × (get_elem? endpoints i ≡ some e)
    × (select_from balancer (codes "k") weighted_round_robin endpoints
        ≡ some (moved balancer (codes "k"), ok e.url))
    × (pick (get_cursor (codes "k") [] % 3) 0 endpoints ≡ some e.url)
select_from-weighted_example =
    select_from-weighted balancer (codes "k") endpoints (omega arith) (omega arith)

group-found : Resolves balancer.groups by_group (codes "named:g") weighted_round_robin endpoints
unfolding thwip.Config.get_group ◌=ᵇ◌
group-found = named (codes "g") group refl refl refl refl refl refl refl

no_wrap : get_cursor (codes "named:g") balancer.cursors + weights endpoints < 2 ^ 64
unfolding get_cursor
no_wrap = omega arith

served-weighted_cycle_example :
    served (codes "http://a") 3 balancer (proxy by_group) ≡ weight_of (codes "http://a") endpoints
served-weighted_cycle_example =
    served-weighted_cycle (codes "http://a") balancer by_group (codes "named:g") endpoints
      group-found (omega arith) no_wrap
