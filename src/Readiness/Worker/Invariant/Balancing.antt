-- ===== src/Readiness/Worker/Invariant/Balancing.antt =====
-- The balancer of run/slave/src/load_balancer.rs in the hands of the worker: it answers at every action
-- that `route` selects, and keeps its groups.
use thwip.Prelude.{
  ℕ, zero, suc, ◌≡◌, refl, ◌≢◌, inl, inr, Option, none, some, List, [], ◌∷◌, ◌++◌, arith, All,
  get_elem?, Result, ok, err,
}
use mathlib.Core.Path.{subst}
use thwip.Prelude.Text.{Bytes}
use thwip.Config.{
  Server, Location, Action, proxy, static, response, UpstreamEndpoint, UpstreamGroup, BalancePolicy,
  get_group, ProxyAction,
}
use thwip.LoadBalancer.{
  UpstreamBalancer, BalanceError, select, select_upstream, select_named, select_from, select_index,
  advance, get_cursor, group_key, named_key,
}
use thwip.Router.{route}
use thwip.Router.Routing.{RouteChoice, route-RouteChoice}
use thwip.Readiness.Worker.Invariant.{AreBalanced}

All_middle :
    {A : Type 0} (P : A → Type 0) (xs : List A) (y : A) (ys : List A) → All P (xs ++ y ∷ ys) → P y
All_middle P [] y ys (h, _) = h
All_middle P (x ∷ xs) y ys (_, h) = All_middle P xs y ys h

All-get_elem? :
    {A : Type 0} (P : A → Type 0) (xs : List A) (i : ℕ) (a : A)
    → All P xs
    → get_elem? xs i ≡ some a
    → P a
All-get_elem? P [] i a h e = cc
All-get_elem? P (x ∷ xs) zero a (h, _) e = let same : x ≡ a = cc in subst P same h
All-get_elem? P (x ∷ xs) (suc i) a (_, h) e = All-get_elem? P xs i a h e

-- What holds of the actions of all locations holds of the one that is selected.
All-route :
    (P : Action → Type 0) (server : Server) (target : Bytes) (action : Action)
    → All (λ l. P l.action) server.locations
    → route server target ≡ some action
    → P action
All-route P server target action h e =
    go (subst (RouteChoice server.locations target) e (route-RouteChoice server target))
  where
    at_location :
        (l : Location) (before behind : List Location)
        → server.locations ≡ before ++ l ∷ behind
        → l.action ≡ action
        → P action
    at_location l before behind splits acts =
        subst P acts
          (All_middle (λ x. P x.action) before l behind (subst (All (λ x. P x.action)) splits h))

    go : RouteChoice server.locations target (some action) → P action
    go (inl c) = at_location c.location c.before c.behind c.splits c.acts
    go (inr (_, c)) = at_location c.location c.before c.behind c.splits c.acts

pub select-route :
    (b : UpstreamBalancer) (servers : List Server) (i : ℕ) (server : Server) (target : Bytes)
    (action : Action)
    → AreBalanced b.groups servers
    → get_elem? servers i ≡ some server
    → route server target ≡ some action
    → select b action ≢ none
select-route b servers i server target action h at_i e =
    All-route (λ a. select b a ≢ none) server target action
      (All-get_elem? (λ s. All (λ l. select b l.action ≢ none) s.locations) servers i server
        (h b refl) at_i)
      e

advance-groups :
    (b b' : UpstreamBalancer) (key : Bytes) (cursor : ℕ) (es : List UpstreamEndpoint)
    (i : Option (Result ℕ BalanceError)) (r : Result Bytes BalanceError)
    → advance b key cursor es i ≡ some (b', r)
    → b'.groups ≡ b.groups
unfolding advance
advance-groups b b' key cursor es none r e = cc
advance-groups b b' key cursor es (some (err x)) r e = ground arith
advance-groups b b' key cursor es (some (ok i)) r e = ground arith

select_from-groups :
    (b b' : UpstreamBalancer) (key : Bytes) (policy : BalancePolicy) (es : List UpstreamEndpoint)
    (r : Result Bytes BalanceError)
    → select_from b key policy es ≡ some (b', r)
    → b'.groups ≡ b.groups
unfolding select_from
select_from-groups b b' key policy es r e = ground (
  arith,
  advance-groups b b' key (get_cursor key b.cursors) es
      (select_index policy (get_cursor key b.cursors) es) r,
)

select_upstream-groups :
    (b b' : UpstreamBalancer) (p : ProxyAction) (url name : Option Bytes)
    (r : Result Bytes BalanceError)
    → select_upstream b p url name ≡ some (b', r)
    → b'.groups ≡ b.groups
unfolding select_upstream select_named
select_upstream-groups b b' p (some url) name r e = ground arith
select_upstream-groups b b' p none none r e =
    select_from-groups b b' (group_key p.policy p.upstreams) p.policy p.upstreams r e
select_upstream-groups b b' p none (some name) r e = go (get_group name b.groups) e
  where
    go : (o : Option UpstreamGroup) → select_named b name o ≡ some (b', r) → b'.groups ≡ b.groups
    go none k = ground arith
    go (some group) k = select_from-groups b b' (named_key name) group.policy group.servers r k

pub select-groups :
    (b b' : UpstreamBalancer) (action : Action) (r : Result Bytes BalanceError)
    → select b action ≡ some (b', r)
    → b'.groups ≡ b.groups
unfolding select
select-groups b b' (proxy p) r e =
    ground (arith, select_upstream-groups b b' p p.upstream p.upstream_group r)
select-groups b b' (static directory) r e = ground arith
select-groups b b' (response status body) r e = ground arith
