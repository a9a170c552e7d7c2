-- ===== src/Router/Hostname.antt =====
-- The host in a host header (`hostname` of run/slave/src/router.rs).
use thwip.Prelude.{
  arith, ◌==◌, if◌then◌else◌, ◌≢◌, ◌∙◌, ℕ, ◌≡◌, refl, ap, Bool, true, false, Option, none, some, [],
  ◌∷◌, ◌++◌,
}
use mathlib.Core.Option.{some-injective}
use mathlib.Core.Path.{subst}
use mathlib.Core.Option
use thwip.Prelude.Utf8.{trim}
use thwip.Prelude.Text.{before, codes, contains, split_once, strip_prefix, Bytes}
use thwip.Router.{hostname_of, first_or, hostname}

-- The host that the value of a host header names: an address in brackets, or all before a port.
pub data IsHost (value host : Bytes) : Type 0 where
  bracketed :
      (port : Bytes)
      → trim value ≡ b'[' ∷ (host ++ b']' ∷ port)
      → contains b']' host ≡ false
      → IsHost value host
  unclosed : trim value ≡ b'[' ∷ host → contains b']' host ≡ false → IsHost value host
  with_port :
      (port : Bytes)
      → trim value ≡ host ++ b':' ∷ port
      → contains b':' host ≡ false
      → ((address : Bytes) → trim value ≢ b'[' ∷ address)
      → IsHost value host
  plain :
      trim value ≡ host
      → contains b':' host ≡ false
      → ((address : Bytes) → trim value ≢ b'[' ∷ address)
      → IsHost value host

split_once-some :
    (d : ℕ) (s a b : Bytes)
    → split_once d s ≡ some (a, b)
    → (s ≡ a ++ d ∷ b) × (contains d a ≡ false)
unfolding split_once
split_once-some d [] a b h = cc
split_once-some d (c ∷ s) a b h = go (c == d) refl (split_once d s) (split_once-some d s) h
  where
    go :
        (t : Bool)
        → (c == d) ≡ t
        → (o : Option (Bytes × Bytes))
        → ((a b : Bytes) → o ≡ some (a, b) → (s ≡ a ++ d ∷ b) × (contains d a ≡ false))
        → (if t then some ([], s) else Option.map (before c) o) ≡ some (a, b)
        → (c ∷ s ≡ a ++ d ∷ b) × (contains d a ≡ false)
    go true e o later k =
        let both = some-injective ([], s) (a, b) k in
        let no_start : [] ≡ a = ap (λ x. x.0) both in
        let rest : s ≡ b = ap (λ x. x.1) both in
        let same : c ≡ d = ground arith in
        subst (λ x. (c ∷ s ≡ x ++ d ∷ b) × (contains d x ≡ false)) no_start
          (ap (λ x. x ∷ s) same ∙ ap (λ x. d ∷ x) rest, refl)
    go false e none later k = cc
    go false e (some (x, y)) later k =
        let both = some-injective (c ∷ x, y) (a, b) k in
        let start : c ∷ x ≡ a = ap (λ z. z.0) both in
        let rest : y ≡ b = ap (λ z. z.1) both in
        let (splits, free) = later x y refl in
        subst (λ z. (c ∷ s ≡ z ++ d ∷ b) × (contains d z ≡ false)) start
          (ap (λ z. c ∷ z) (splits ∙ ap (λ z. x ++ d ∷ z) rest), rw (e, free) refl)

split_once-none : (d : ℕ) (s : Bytes) → split_once d s ≡ none → contains d s ≡ false
unfolding split_once
split_once-none d [] h = refl
split_once-none d (c ∷ s) h = go (c == d) refl (split_once d s) (split_once-none d s) h
  where
    go :
        (t : Bool)
        → (c == d) ≡ t
        → (o : Option (Bytes × Bytes)) → (o ≡ none → contains d s ≡ false)
        → (if t then some ([], s) else Option.map (before c) o) ≡ none
        → contains d (c ∷ s) ≡ false
    go true e o later k = cc
    go false e none later k = rw e (later refl)
    go false e (some ends) later k = cc

opens : (s address : Bytes) → strip_prefix (codes "[") s ≡ some address → s ≡ b'[' ∷ address
unfolding strip_prefix
opens [] address h = cc
opens (c ∷ s) address h = ground arith

first_byte : Bytes → ℕ
first_byte [] = 0
first_byte (c ∷ s) = c

opens_not : (s : Bytes) → strip_prefix (codes "[") s ≡ none → (address : Bytes) → s ≢ b'[' ∷ address
unfolding strip_prefix first_byte
opens_not [] h address = λ e. cc
opens_not (c ∷ s) h address = λ e. let first : c ≡ b'[' = ap first_byte e in absurd (ground arith)

-- `hostname` finds the host that the value names.
pub hostname-IsHost : (value : Bytes) → IsHost value (hostname value)
unfolding hostname hostname_of
hostname-IsHost value = go (strip_prefix (codes "[") (trim value)) refl
  where
    go :
        (o : Option Bytes)
        → strip_prefix (codes "[") (trim value) ≡ o
        → IsHost value (hostname_of (trim value) o)
    go (some address) e = closed (split_once b']' address) refl
      where
        closed :
            (o : Option (Bytes × Bytes))
            → split_once b']' address ≡ o
            → IsHost value (first_or address o)
        closed none k = unclosed (opens (trim value) address e) (split_once-none b']' address k)
        closed (some (a, b)) k =
            let (splits, free) = split_once-some b']' address a b k in
            bracketed b (opens (trim value) address e ∙ ap (λ x. b'[' ∷ x) splits) free
    go none e = ported (split_once b':' (trim value)) refl
      where
        ported :
            (o : Option (Bytes × Bytes))
            → split_once b':' (trim value) ≡ o
            → IsHost value (first_or (trim value) o)
        ported none k = plain refl (split_once-none b':' (trim value) k) (opens_not (trim value) e)
        ported (some (a, b)) k =
            let (splits, free) = split_once-some b':' (trim value) a b k in
            with_port b splits free (opens_not (trim value) e)
