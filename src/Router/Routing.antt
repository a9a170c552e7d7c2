-- ===== src/Router/Routing.antt =====
-- Which location `route` chooses (run/slave/src/router.rs).
use thwip.Prelude.{
  ℕ, ◌≤◌, ◌<◌, ◌≡◌, refl, ◌∙◌, ap, true, ◌⊎◌, inl, inr, Option, none, some, List, [], ◌∷◌, ◌++◌,
  arith, ltb, length, All, All-append, append_assoc, append-nil, Bool-cases,
}
use thwip.Prelude.Text.{Bytes}
use thwip.Config.{prefix, Action, Location, Server}
use thwip.Router.{find_exact, prefix_length, longer, best_prefix, action_of, or_else, route}
use thwip.Router.Matching.{
  IsExactChoice, IsPrefixChoice, All-map, NoPrefix, NotExact, Shorter, ShorterOrEqual,
  find_exact-none, find_exact-some, prefix_length-none, prefix_length-some,
}

-- What the accumulator of `best_prefix` knows of the locations seen.
abbrev Best : List Location → Bytes → Option (ℕ × Action) → Type 0
Best seen target none = All (NoPrefix target) seen
Best seen target (some (n, action)) = (c : IsPrefixChoice seen target action) × (length c.path ≡ n)

-- A location that does not match, or is shorter, leaves the choice as it is.
Best-skip :
    (seen : List Location) (l : Location) (target : Bytes) (n : ℕ) (action : Action)
    → Best seen target (some (n, action))
    → Shorter target n l
    → Best (seen ++ l ∷ []) target (some (n, action))
Best-skip seen l target n action (c, e) shorter = (
  record {
    location = c.location;
    path = c.path;
    before = c.before;
    behind = c.behind ++ l ∷ [];
    splits = ap (λ k. k ++ l ∷ []) c.splits ∙ append_assoc c.before _ _;
    acts = c.acts;
    is_prefix = c.is_prefix;
    matches = c.matches;
    longest = c.longest;
    last = All-append _ c.behind (l ∷ []) c.last (rw e (shorter, tt));
  },
  e,
)

-- All that was seen is no longer than a location that takes its place.
seen-ShorterOrEqual :
    (seen : List Location) (target : Bytes) (best : Option (ℕ × Action)) (n : ℕ)
    → Best seen target best
    → ((m : ℕ) (a : Action) → best ≡ some (m, a) → m ≤ n)
    → All (ShorterOrEqual target n) seen
seen-ShorterOrEqual seen target none n b le =
    All-map _ _ seen (λ l no path e m. absurd (no path e m)) b
seen-ShorterOrEqual seen target (some (m, a)) n (c, e) le =
    let m_le : m ≤ n = le m a refl in
    rw c.splits (
      All-append _ c.before (c.location ∷ c.behind)
        (All-map _ _ c.before (λ l h path p q. weaken (h path p q) m_le) c.longest)
        (
          (λ path p q. self path p m_le),
          All-map _ _ c.behind (λ l h path p q. weaken (suc_le (h path p q)) m_le) c.last,
        ))
  where
    weaken : {k : ℕ} → k ≤ length c.path → m ≤ n → k ≤ n
    weaken h h' = omega arith

    suc_le : {k j : ℕ} → k < j → k ≤ j
    suc_le h = omega arith

    self : (path : Bytes) → c.location.matcher ≡ prefix path → m ≤ n → length path ≤ n
    self path p h = let same : path ≡ c.path = ground (arith, c.is_prefix) in rw same (omega arith)

Best-take :
    (seen : List Location) (l : Location) (target : Bytes) (best : Option (ℕ × Action)) (n : ℕ)
    → prefix_length l.matcher target ≡ some n
    → Best seen target best
    → ((m : ℕ) (a : Action) → best ≡ some (m, a) → m ≤ n)
    → Best (seen ++ l ∷ []) target (some (n, l.action))
Best-take seen l target best n found b le =
    let (path, is_prefix, matches, e) = prefix_length-some l target n found in
    (
      record {
        location = l;
        path = path;
        before = seen;
        behind = [];
        splits = refl;
        acts = refl;
        is_prefix = is_prefix;
        matches = matches;
        longest = rw e (seen-ShorterOrEqual seen target best n b le);
        last = tt;
      },
      e,
    )

Best-step :
    (seen : List Location) (l : Location) (target : Bytes) (best : Option (ℕ × Action)) (n : ℕ)
    → prefix_length l.matcher target ≡ some n
    → Best seen target best
    → Best (seen ++ l ∷ []) target (longer best n l.action)
Best-step seen l target none n found b =
    unfold longer in Best-take seen l target none n found b (λ m a e. absurd (cc))
Best-step seen l target (some (m, a)) n found b = elim (Bool-cases (ltb n m)) [
  | inl keeps ↦ unfold longer in rw keeps (Best-skip seen l target m a b (shorter keeps))
  | inr takes ↦
      unfold longer in
      rw takes (Best-take seen l target (some (m, a)) n found b (λ m' a' e. ground arith))
]
  where
    shorter : ltb n m ≡ true → Shorter target m l
    shorter keeps path e q =
        let (path', e', _, len) = prefix_length-some l target n found in
        let same : path ≡ path' = ground (arith, e, e') in rw same (ground arith)

Best-pass :
    (seen : List Location) (l : Location) (target : Bytes) (best : Option (ℕ × Action))
    → prefix_length l.matcher target ≡ none
    → Best seen target best
    → Best (seen ++ l ∷ []) target best
Best-pass seen l target none e b = All-append _ seen (l ∷ []) b (prefix_length-none l target e, tt)
Best-pass seen l target (some (n, a)) e b =
    Best-skip seen l target n a b (λ path p q. absurd (prefix_length-none l target e path p q))

best_prefix-none :
    (best : Option (ℕ × Action)) (l : Location) (ls : List Location) (target : Bytes)
    → prefix_length l.matcher target ≡ none
    → best_prefix best (l ∷ ls) target ≡ best_prefix best ls target
unfolding best_prefix
best_prefix-none best l ls target e = rw (best_prefix, e)

best_prefix-some :
    (best : Option (ℕ × Action)) (l : Location) (ls : List Location) (target : Bytes) (n : ℕ)
    → prefix_length l.matcher target ≡ some n
    → best_prefix best (l ∷ ls) target ≡ best_prefix (longer best n l.action) ls target
unfolding best_prefix
best_prefix-some best l ls target n e = rw (best_prefix, e)

best_prefix-Best :
    (seen locations : List Location) (target : Bytes) (best : Option (ℕ × Action))
    → Best seen target best
    → Best (seen ++ locations) target (best_prefix best locations target)
best_prefix-Best seen [] target best b = unfold best_prefix in rw append-nil b
best_prefix-Best seen (l ∷ ls) target best b =
    rw (← append_assoc seen (l ∷ []) ls)
      (go (prefix_length l.matcher target) refl (best_prefix-Best (seen ++ l ∷ []) ls target))
  where
    go :
        (o : Option ℕ)
        → prefix_length l.matcher target ≡ o
        → ((b' : Option (ℕ × Action))
            → Best (seen ++ l ∷ []) target b'
            → Best ((seen ++ l ∷ []) ++ ls) target (best_prefix b' ls target))
        → Best ((seen ++ l ∷ []) ++ ls) target (best_prefix best (l ∷ ls) target)
    go none e ih =
        rw (best_prefix-none best l ls target e) (ih best (Best-pass seen l target best e b))
    go (some n) e ih =
        rw (best_prefix-some best l ls target n e)
          (ih (longer best n l.action) (Best-step seen l target best n e b))

-- What `route` answers: the first exact location; with none, the longest matching prefix, and the
-- last of those of the same length; with none of these either, nothing.
abbrev pub RouteChoice : List Location → Bytes → Option Action → Type 0
RouteChoice locations target none =
    All (NotExact target) locations × All (NoPrefix target) locations
RouteChoice locations target (some action) =
    IsExactChoice locations target action
    ⊎ (All (NotExact target) locations × IsPrefixChoice locations target action)

-- `route` makes this choice, for every list of locations and every target.
pub route-RouteChoice :
    (server : Server) (target : Bytes) → RouteChoice server.locations target (route server target)
unfolding route
route-RouteChoice server target =
    go (find_exact server.locations target) (best_prefix none server.locations target) refl
      (best_prefix-Best [] server.locations target none tt)
  where
    go :
        (o : Option Action) (best : Option (ℕ × Action))
        → find_exact server.locations target ≡ o
        → Best server.locations target best
        → RouteChoice server.locations target (or_else o (action_of best))
    go (some action) best e b = inl (find_exact-some server.locations target action e)
    go none none e b = (find_exact-none server.locations target e, b)
    go none (some (n, action)) e b = inr (find_exact-none server.locations target e, b.0)
