-- ===== src/LoadBalancer/Cycle.antt =====
-- One cycle of the weighted policy gives every endpoint its share.
use thwip.Prelude.{
  ℕ, zero, suc, ◌+◌, ◌*◌, ◌≤◌, ◌<◌, ◌≡◌, refl, ◌∙◌, ap, Option, none, some, List, [], ◌∷◌, arith,
  if◌then◌else◌,
}
use thwip.Prelude.Text.{Bytes, ◌=ᵇ◌}
use thwip.Config.{UpstreamEndpoint}
use thwip.LoadBalancer.Pick.{weights, weight_of, pick}

-- The sum of `f` over `n` numbers from `k` on.
abbrev pub sum_over : (ℕ → ℕ) → ℕ → ℕ → ℕ
sum_over f k zero = 0
sum_over f k (suc n) = f k + sum_over f (k + 1) n

pub sum_over-split :
    (f : ℕ → ℕ) (k n m : ℕ) → sum_over f k (n + m) ≡ sum_over f k n + sum_over f (k + n) m
sum_over-split f k zero m =
    let e : k + 0 ≡ k = omega arith in let e' : 0 + m ≡ m = omega arith in rw (e, e') (omega arith)
sum_over-split f k (suc n) m =
    let e : suc n + m ≡ suc (n + m) = omega arith in
    let e' : k + suc n ≡ k + 1 + n = omega arith in
    rw (e, e') (omega (arith, sum_over-split f (k + 1) n m))

pub sum_over-ext :
    (f g : ℕ → ℕ) (k n : ℕ)
    → ((p : ℕ) → k ≤ p → p < k + n → f p ≡ g p)
    → sum_over f k n ≡ sum_over g k n
sum_over-ext f g k zero h = refl
sum_over-ext f g k (suc n) h = omega (
  arith,
  h k (omega arith) (omega arith),
  sum_over-ext f g (k + 1) n (λ p a b. h p (omega arith) (omega arith)),
)

pub sum_over-const : (c k n : ℕ) → sum_over (λ p. c) k n ≡ n * c
sum_over-const c k zero = omega arith
sum_over-const c k (suc n) = omega (arith, sum_over-const c (k + 1) n)

-- A sum over one period may begin anywhere.
pub sum_over-periodic :
    (f : ℕ → ℕ) (t k : ℕ) → ((p : ℕ) → f (p + t) ≡ f p) → sum_over f k t ≡ sum_over f 0 t
sum_over-periodic f t zero h = refl
sum_over-periodic f t (suc k) h =
    let e : k + 1 ≡ suc k = omega arith in
    let last : sum_over f k (t + 1) ≡ sum_over f k t + f (k + t) =
      sum_over-split f k t 1 ∙ omega arith in
    let e' : t + 1 ≡ suc t = omega arith in
    let first : sum_over f k (suc t) ≡ f k + sum_over f (suc k) t =
      ap (λ j. f k + sum_over f j t) e in
    omega (arith, sum_over-periodic f t k h, h k, first, rw e' at last)

abbrev pub is_url : Bytes → Option Bytes → ℕ
is_url url none = 0
is_url url (some u) = if u =ᵇ url then 1 else 0

-- Over the positions of a cycle, a text is picked as often as its weight says.
pub pick_share :
    (url : Bytes) (b : ℕ) (es : List UpstreamEndpoint)
    → sum_over (λ p. is_url url (pick p b es)) b (weights es) ≡ weight_of url es
pick_share url b [] = refl
pick_share url b (e ∷ es) =
    sum_over-split here b e.weight (weights es)
    ∙ omega (
      arith,
      sum_over-ext here (λ p. if e.url =ᵇ url then 1 else 0) b e.weight first,
      sum_over-const (if e.url =ᵇ url then 1 else 0) b e.weight,
      sum_over-ext here (λ p. is_url url (pick p (b + e.weight) es)) (b + e.weight) (weights es)
          rest,
      pick_share url (b + e.weight) es,
      share,
    )
  where
    here : ℕ → ℕ
    here p = is_url url (pick p b (e ∷ es))

    first : (p : ℕ) → b ≤ p → p < b + e.weight → here p ≡ (if e.url =ᵇ url then 1 else 0)
    first p h k = ground arith

    rest :
        (p : ℕ)
        → b + e.weight ≤ p
        → p < b + e.weight + weights es
        → here p ≡ is_url url (pick p (b + e.weight) es)
    rest p h k = ground arith

    share : e.weight * (if e.url =ᵇ url then 1 else 0) ≡ (if e.url =ᵇ url then e.weight else 0)
    share = ground arith
