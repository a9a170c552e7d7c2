-- ===== src/Readiness/Worker/Invariant/Run.antt =====
-- A worker of run/slave/src/runtime/readiness/worker.rs over a configuration that
-- crates/core/src/runtime/config.rs accepts.
use thwip.Prelude.{◌≡◌, ◌≢◌, sym, ◌∙◌, none, List, [], ◌∷◌, All, ok}
use thwip.Config.{Config, Server, Location, Action, proxy, static, response, validate}
use thwip.LoadBalancer.{UpstreamBalancer, select}
use thwip.LoadBalancer.Usable.{HaveWeight, ActionHasWeight, Answers}
use thwip.LoadBalancer.Validated.{validate-Answers}
use thwip.Readiness.Os.{Os}
use thwip.Readiness.Worker.Invariant.{AreBalanced}

Answers-selects :
    (b : UpstreamBalancer) (action : Action) → Answers b action → select b action ≢ none
unfolding Answers select
Answers-selects b (proxy p) (b', url, chosen, kept, from) = λ e. let both = sym chosen ∙ e in cc
Answers-selects b (static d) h = λ e. cc
Answers-selects b (response s body) h = λ e. cc

Answers-locations :
    (b : UpstreamBalancer) (locations : List Location)
    → All (λ l. Answers b l.action) locations
    → All (λ l. select b l.action ≢ none) locations
Answers-locations b [] h = tt
Answers-locations b (l ∷ ls) (h, hs) = (Answers-selects b l.action h, Answers-locations b ls hs)

Answers-servers :
    (b : UpstreamBalancer) (servers : List Server)
    → All (λ s. All (λ l. Answers b l.action) s.locations) servers
    → All (λ s. All (λ l. select b l.action ≢ none) s.locations) servers
Answers-servers b [] h = tt
Answers-servers b (s ∷ ss) (h, hs) = (Answers-locations b s.locations h, Answers-servers b ss hs)

pub validate-AreBalanced :
    (config : Config)
    → validate config ≡ ok tt
    → All (λ g. HaveWeight g.1.servers) config.upstreams
    → All (λ s. All (λ l. ActionHasWeight l.action) s.locations) config.servers
    → AreBalanced config.upstreams config.servers
validate-AreBalanced config valid groups_weigh weigh b e =
    Answers-servers b config.servers (validate-Answers config b valid groups_weigh weigh e)
