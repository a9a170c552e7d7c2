-- ===== src/LoadBalancer/Validated.antt =====
-- A configuration that `validate` accepts (crates/core/src/runtime/config.rs) lets the balancer
-- answer every proxy action of it.
use thwip.Prelude.{
  ℕ, ◌+◌, ◌≡◌, refl, true, false, not, inl, Option, none, some, List, [], ◌∷◌, arith, is_empty, ok,
  ◌>>◌, >>-eq-ok, All,
}
use thwip.Prelude.Text.{Bytes}
use thwip.Config.{
  UpstreamEndpoint, UpstreamGroup, ProxyAction, Action, proxy, static, response, Location, Server,
  Config, get_group, configured, is_some, known_group, count_if, validate_endpoints,
  validate_groups, validate_proxy, validate_action, validate_locations, validate_servers, validate,
  validate_ssl,
}
use thwip.LoadBalancer.{UpstreamBalancer, group_key, named_key, select, select_upstream}
use thwip.LoadBalancer.Selecting.{inline, named}
use thwip.LoadBalancer.Usable.{
  ActionHasWeight, Answers, Answers-resolved, HaveWeight, IsUpstreamOf, IsUsable-of_validate,
  get_group-IsUsable, validate_proxy-parts,
}

configured-one :
    (p : ProxyAction)
    → configured p ≡ 1
    → ((url : Bytes) → p.upstream ≡ some url → (p.upstream_group ≡ none) × (p.upstreams ≡ []))
      × ((name : Bytes) → p.upstream ≡ none → p.upstream_group ≡ some name → p.upstreams ≡ [])
      × (p.upstream ≡ none → p.upstream_group ≡ none → is_empty p.upstreams ≡ false)
configured-one p h = (
  (λ url e. by_url url p.upstream p.upstream_group p.upstreams e h'),
  (λ name e e'. by_name name p.upstream p.upstream_group p.upstreams e e' h'),
  (λ e e'. by_list p.upstream p.upstream_group p.upstreams e e' h'),
)
  where
    total : Option Bytes → Option Bytes → List UpstreamEndpoint → ℕ
    total u g l = count_if (is_some u) + count_if (is_some g) + count_if (not (is_empty l))

    h' : total p.upstream p.upstream_group p.upstreams ≡ 1
    h' = unfold configured in h

    by_url :
        (url : Bytes) (u g : Option Bytes) (l : List UpstreamEndpoint)
        → u ≡ some url
        → total u g l ≡ 1
        → (g ≡ none) × (l ≡ [])
    by_url url u g l e t = ground arith

    by_name :
        (name : Bytes) (u g : Option Bytes) (l : List UpstreamEndpoint)
        → u ≡ none
        → g ≡ some name
        → total u g l ≡ 1
        → l ≡ []
    by_name name u g l e e' t = ground arith

    by_list :
        (u g : Option Bytes) (l : List UpstreamEndpoint)
        → u ≡ none
        → g ≡ none
        → total u g l ≡ 1
        → is_empty l ≡ false
    by_list u g l e e' t = ground arith

-- `validate` of an action, with the groups validated too, lets every balancer over these groups
-- answer at it.
validate_proxy-Answers :
    (b : UpstreamBalancer) (p : ProxyAction)
    → validate_groups b.groups ≡ ok tt
    → All (λ g. HaveWeight g.1.servers) b.groups
    → HaveWeight p.upstreams
    → validate_proxy b.groups p ≡ ok tt
    → Answers b (proxy p)
validate_proxy-Answers b p groups_ok groups_weigh weigh h =
    let (one, endpoints_ok, known) = validate_proxy-parts b.groups p h in
    go p.upstream p.upstream_group refl refl (configured-one p one) endpoints_ok one known
  where
    Parts : Type 0
    Parts =
        ((url : Bytes) → p.upstream ≡ some url → (p.upstream_group ≡ none) × (p.upstreams ≡ []))
        × ((name : Bytes) → p.upstream ≡ none → p.upstream_group ≡ some name → p.upstreams ≡ [])
        × (p.upstream ≡ none → p.upstream_group ≡ none → is_empty p.upstreams ≡ false)

    direct : (url : Bytes) → p.upstream ≡ some url → configured p ≡ 1 → Answers b (proxy p)
    direct url e one =
        unfold Answers IsUpstreamOf in
        (b, url, (unfold select select_upstream in rw (one, e)), refl, inl e)

    of_group :
        (name : Bytes) (group : UpstreamGroup)
        → p.upstream ≡ none
        → p.upstream_group ≡ some name
        → p.upstreams ≡ []
        → get_group name b.groups ≡ some group
        → Answers b (proxy p)
    of_group name group e e' l found =
        Answers-resolved b p (named_key name) group.policy group.servers
          (named name group e e' l found refl refl refl)
          (get_group-IsUsable b.groups name group groups_ok groups_weigh found)

    of_name :
        (name : Bytes) (o : Option UpstreamGroup)
        → get_group name b.groups ≡ o
        → is_some o ≡ true
        → p.upstream ≡ none
        → p.upstream_group ≡ some name
        → p.upstreams ≡ []
        → Answers b (proxy p)
    of_name name none found known e e' l = cc
    of_name name (some group) found known e e' l = of_group name group e e' l found

    go :
        (u g : Option Bytes)
        → p.upstream ≡ u
        → p.upstream_group ≡ g
        → Parts
        → validate_endpoints p.upstreams ≡ ok tt
        → configured p ≡ 1
        → known_group b.groups p.upstream_group ≡ true
        → Answers b (proxy p)
    go (some url) g e e' parts v one known = direct url e one
    go none (some name) e e' parts v one known =
        of_name name (get_group name b.groups) refl (rw e' at known) e e' (parts.1 name e e')
    go none none e e' parts v one known =
        Answers-resolved b p (group_key p.policy p.upstreams) p.policy p.upstreams
          (inline e e' refl refl refl) (IsUsable-of_validate p.upstreams (parts.2 e e') weigh v)

validate_action-Answers :
    (b : UpstreamBalancer) (action : Action)
    → validate_groups b.groups ≡ ok tt
    → All (λ g. HaveWeight g.1.servers) b.groups
    → ActionHasWeight action
    → validate_action b.groups action ≡ ok tt
    → Answers b action
validate_action-Answers b (proxy p) g w weigh h =
    validate_proxy-Answers b p g w weigh (unfold validate_action in h)
validate_action-Answers b (static directory) g w weigh h = unfold Answers in tt
validate_action-Answers b (response status body) g w weigh h = unfold Answers in tt

validate_locations-Answers :
    (b : UpstreamBalancer) (locations : List Location)
    → validate_groups b.groups ≡ ok tt
    → All (λ g. HaveWeight g.1.servers) b.groups
    → All (λ l. ActionHasWeight l.action) locations
    → validate_locations b.groups locations ≡ ok tt
    → All (λ l. Answers b l.action) locations
validate_locations-Answers b [] g w weigh h = tt
validate_locations-Answers b (l ∷ ls) g w (a, as') h =
    let (first, rest) =
      >>-eq-ok (validate_action b.groups l.action) (validate_locations b.groups ls) (opened h) in
    (validate_action-Answers b l.action g w a first, validate_locations-Answers b ls g w as' rest)
  where
    opened :
        validate_locations b.groups (l ∷ ls) ≡ ok tt
        → (validate_action b.groups l.action >> validate_locations b.groups ls) ≡ ok tt
    opened h = unfold validate_locations in h

validate_servers-Answers :
    (b : UpstreamBalancer) (servers : List Server)
    → validate_groups b.groups ≡ ok tt
    → All (λ g. HaveWeight g.1.servers) b.groups
    → All (λ s. All (λ l. ActionHasWeight l.action) s.locations) servers
    → validate_servers b.groups servers ≡ ok tt
    → All (λ s. All (λ l. Answers b l.action) s.locations) servers
validate_servers-Answers b [] g w weigh h = tt
validate_servers-Answers b (s ∷ ss) g w (a, as') h =
    let (_, rest) = >>-eq-ok (validate_ssl s.ssl) _ (opened h) in
    let (first, rest') =
      >>-eq-ok (validate_locations b.groups s.locations) (validate_servers b.groups ss) rest in
    (
      validate_locations-Answers b s.locations g w a first,
      validate_servers-Answers b ss g w as' rest',
    )
  where
    opened :
        validate_servers b.groups (s ∷ ss) ≡ ok tt
        → (validate_ssl s.ssl
            >> (validate_locations b.groups s.locations >> validate_servers b.groups ss))
          ≡ ok tt
    opened h = unfold validate_servers in h

-- A configuration that `validate` accepts, and whose weights are above 0, has no proxy action at
-- which a balancer over its groups fails or panics: `select` answers with an address of the action,
-- or of the group that it names, and keeps the groups.
pub validate-Answers :
    (config : Config) (b : UpstreamBalancer)
    → validate config ≡ ok tt
    → All (λ g. HaveWeight g.1.servers) config.upstreams
    → All (λ s. All (λ l. ActionHasWeight l.action) s.locations) config.servers
    → b.groups ≡ config.upstreams
    → All (λ s. All (λ l. Answers b l.action) s.locations) config.servers
validate-Answers config b h groups_weigh weigh e =
    let (g, s) = >>-eq-ok (validate_groups config.upstreams) _ opened in
    validate_servers-Answers b config.servers (rw e g) (rw e groups_weigh) weigh (rw e s)
  where
    opened :
        (validate_groups config.upstreams >> validate_servers config.upstreams config.servers)
        ≡ ok tt
    opened = unfold validate in h
