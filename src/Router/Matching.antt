-- ===== src/Router/Matching.antt =====
-- Locations that match a target exactly or by a prefix (run/slave/src/router.rs).
use thwip.Prelude.{
  ℕ, ◌≤◌, ◌<◌, ◌≡◌, refl, ◌≢◌, ap, true, false, inl, inr, none, some, List, [], ◌∷◌, ◌++◌, arith,
  length, All, Bool-cases,
}
use thwip.Prelude.Text.{Bytes, =ᵇ_iff, starts_with}
use thwip.Config.{PathMatcher, exact, prefix, Action, Location}
use thwip.Router.{matches_exact, find_exact, prefix_length}

abbrev pub NotExact : Bytes → Location → Type 0
NotExact target l = l.matcher ≢ exact target

-- A prefix location that the target starts with has at most this length, or less.
abbrev pub ShorterOrEqual : Bytes → ℕ → Location → Type 0
ShorterOrEqual target n l =
    (path : Bytes) → l.matcher ≡ prefix path → starts_with path target ≡ true → length path ≤ n

abbrev pub Shorter : Bytes → ℕ → Location → Type 0
Shorter target n l =
    (path : Bytes) → l.matcher ≡ prefix path → starts_with path target ≡ true → length path < n

-- The action is that of the first exact location for the target.
pub record IsExactChoice (locations : List Location) (target : Bytes) (action : Action)
    : Type 0 where
  pub location : Location
  pub before : List Location
  pub behind : List Location
  pub splits : locations ≡ before ++ location ∷ behind
  pub acts : location.action ≡ action
  pub is_exact : location.matcher ≡ exact target
  pub first : All (NotExact target) before

-- The action is that of the last among the longest matching prefix locations.
pub record IsPrefixChoice (locations : List Location) (target : Bytes) (action : Action)
    : Type 0 where
  pub location : Location
  pub path : Bytes
  pub before : List Location
  pub behind : List Location
  pub splits : locations ≡ before ++ location ∷ behind
  pub acts : location.action ≡ action
  pub is_prefix : location.matcher ≡ prefix path
  pub matches : starts_with path target ≡ true
  pub longest : All (ShorterOrEqual target (length path)) before
  pub last : All (Shorter target (length path)) behind

matches_exact_iff :
    (m : PathMatcher) (target : Bytes)
    → ((matches_exact m target ≡ true) → m ≡ exact target)
      × ((matches_exact m target ≡ false) → m ≢ exact target)
unfolding matches_exact
matches_exact_iff (exact path) target =
    ((λ h. ground (arith, =ᵇ_iff path target)), (λ h e. ground (arith, =ᵇ_iff path target)))
matches_exact_iff (prefix path) target = ((λ h. cc), (λ h e. cc))

pub find_exact-some :
    (locations : List Location) (target : Bytes) (action : Action)
    → find_exact locations target ≡ some action
    → IsExactChoice locations target action
find_exact-some [] target action h = absurd (unfold find_exact in cc)
find_exact-some (l ∷ ls) target action h = elim (Bool-cases (matches_exact l.matcher target)) [
  | inl here ↦ record {
    location = l;
    before = [];
    behind = ls;
    splits = refl;
    acts = unfold find_exact in ground arith;
    is_exact = (matches_exact_iff l.matcher target).0 here;
    first = tt;
  }
  | inr there ↦
      let r = find_exact-some ls target action (later there h) in
      record {
        location = r.location;
        before = l ∷ r.before;
        behind = r.behind;
        splits = ap (λ k. l ∷ k) r.splits;
        acts = r.acts;
        is_exact = r.is_exact;
        first = ((matches_exact_iff l.matcher target).1 there, r.first);
      }
]
  where
    later :
        matches_exact l.matcher target ≡ false
        → find_exact (l ∷ ls) target ≡ some action
        → find_exact ls target ≡ some action
    later e h = unfold find_exact in ground arith

pub find_exact-none :
    (locations : List Location) (target : Bytes)
    → find_exact locations target ≡ none
    → All (NotExact target) locations
find_exact-none [] target h = tt
find_exact-none (l ∷ ls) target h = elim (Bool-cases (matches_exact l.matcher target)) [
  | inl here ↦ absurd (unfold find_exact in ground arith)
  | inr there ↦ (
    (matches_exact_iff l.matcher target).1 there,
    find_exact-none ls target (unfold find_exact in ground arith),
  )
]

pub All-map :
    (P Q : Location → Type 0) (locations : List Location)
    → ((l : Location) → P l → Q l)
    → All P locations
    → All Q locations
All-map P Q [] f h = tt
All-map P Q (l ∷ ls) f (h, hs) = (f l h, All-map P Q ls f hs)

-- No prefix location of the list matches.
abbrev pub NoPrefix : Bytes → Location → Type 0
NoPrefix target l = (path : Bytes) → l.matcher ≡ prefix path → starts_with path target ≢ true

pub prefix_length-none :
    (l : Location) (target : Bytes) → prefix_length l.matcher target ≡ none → NoPrefix target l
unfolding prefix_length
prefix_length-none l target h path e m = ground arith

pub prefix_length-some :
    (l : Location) (target : Bytes) (n : ℕ)
    → prefix_length l.matcher target ≡ some n
    → (path : Bytes) × (l.matcher ≡ prefix path)
      × (starts_with path target ≡ true)
      × (length path ≡ n)
prefix_length-some l target n h = go l.matcher h
  where
    go :
        (m : PathMatcher)
        → prefix_length m target ≡ some n
        → (path : Bytes) × (m ≡ prefix path) × (starts_with path target ≡ true) × (length path ≡ n)
    go (exact path) h = absurd (unfold prefix_length in cc)
    go (prefix path) h = unfold prefix_length in (path, refl, ground arith, ground arith)
