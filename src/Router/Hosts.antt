-- ===== src/Router/Hosts.antt =====
-- Which virtual host `select_server` chooses (run/slave/src/router.rs).
use thwip.Prelude.{
  ◌↔◌, ◌∙◌, ℕ, ◌≡◌, refl, ap, Bool, true, false, Option, none, some, List, [], ◌∷◌, ◌++◌, get_elem?,
  find, All, Bool-cases, inl, inr,
}
use mathlib.Core.Option.{some-injective}
use mathlib.Core.Path.{subst}
use thwip.Prelude.Text.{eq_ignore_ascii_case, codes, to_ascii_lowercase, =ᵇ_iff, Bytes}
use thwip.Config.{Server}
use thwip.Http.{Header, RequestHead, is_named}
use thwip.Router.Hostname.{IsHost, hostname-IsHost}
use thwip.Router.{hostname, is_server_name, server_of_host, or_default, select_server}

-- The first element that a predicate holds of.
pub record IsFirst {ℓ κ} {A : Type ℓ} (P : A → Type κ) (xs : List A) (x : A) : Type (ℓ ⊔ κ) where
  pub before : List A
  pub behind : List A
  pub splits : xs ≡ before ++ x ∷ behind
  pub holds : P x
  pub earlier : All (λ y. P y → ⊥) before

module _ {ℓ κ} {A : Type ℓ} (P : A → Type κ) (p : A → Bool)
    (reflects : (x : A) → (p x ≡ true) ↔ P x) where
  refuses : (x : A) → p x ≡ false → P x → ⊥
  refuses x e holds = let e' = (reflects x).1 holds in cc

  find-some : (xs : List A) (x : A) → find p xs ≡ some x → IsFirst P xs x
  find-some [] x h = absurd (cc)
  find-some (y ∷ ys) x h = elim (Bool-cases (p y)) [
    | inl e ↦
        subst (IsFirst P (y ∷ ys)) (some-injective y x (rw e at h)) (record {
          before = [];
          behind = ys;
          splits = refl;
          holds = (reflects y).0 e;
          earlier = tt;
        })
    | inr e ↦
        let r = find-some ys x (rw e at h) in
        record {
          before = y ∷ r.before;
          behind = r.behind;
          splits = ap (λ k. y ∷ k) r.splits;
          holds = r.holds;
          earlier = (refuses y e, r.earlier);
        }
  ]

  find-none : (xs : List A) → find p xs ≡ none → All (λ y. P y → ⊥) xs
  find-none [] h = tt
  find-none (y ∷ ys) h = elim (Bool-cases (p y)) [
    | inl e ↦ absurd (let h' : some y ≡ none = rw e at h in cc)
    | inr e ↦ (refuses y e, find-none ys (rw e at h))
  ]

-- A host header.
abbrev pub IsHostHeader : Header → Type 0
IsHostHeader header = header.name ≡ codes "host"

-- The server at an index has this name, whatever the case of its ASCII letters.
abbrev pub GoesBy : List Server → Bytes → ℕ → Type 0
GoesBy servers host i =
    (server : Server) × (name : Bytes) × (get_elem? servers i ≡ some server)
    × (server.server_name ≡ some name)
    × (to_ascii_lowercase name ≡ to_ascii_lowercase host)

GoesBy-reflects :
    (servers : List Server) (host : Bytes) (i : ℕ)
    → (is_server_name host (get_elem? servers i) ≡ true) ↔ GoesBy servers host i
unfolding is_server_name
GoesBy-reflects servers host i = go (get_elem? servers i)
  where
    named :
        (server : Server) (o : Option Bytes)
        → ((elim o as (λ _. Bool) [ none ↦ false | some name ↦ eq_ignore_ascii_case name host ])
            ≡ true)
          ↔ ((name : Bytes) × (o ≡ some name) × (to_ascii_lowercase name ≡ to_ascii_lowercase host))
    named server none = ((λ e. absurd (cc)), (λ (name, e, same). absurd (cc)))
    named server (some name) = (
      (λ e. (name, refl, (=ᵇ_iff (to_ascii_lowercase name) (to_ascii_lowercase host)).0 e)),
      (λ (other, e, same).
          (=ᵇ_iff (to_ascii_lowercase name) (to_ascii_lowercase host)).1
            (ap to_ascii_lowercase (some-injective name other e) ∙ same)),
    )

    go :
        (o : Option Server)
        → (is_server_name host o ≡ true) ↔ (
            (server : Server) × (name : Bytes) × (o ≡ some server)
            × (server.server_name ≡ some name)
            × (to_ascii_lowercase name ≡ to_ascii_lowercase host))
    go none = ((λ e. absurd (cc)), (λ (server, name, e, other, same). absurd (cc)))
    go (some server) = (
      (λ e.
          let (name, is_named, same) = (named server server.server_name).0 e in
          (server, name, refl, is_named, same)),
      (λ (other, name, e, is_named, same).
          (named server server.server_name).1
            (name, ap (λ x. x.server_name) (some-injective server other e) ∙ is_named, same)),
    )

-- The choice among the servers of a listener: the first index whose server goes by the host of the first
-- host header; where no server does, or the request has no such header, the default.
pub data HostChoice (indices : List ℕ) (default : ℕ) (headers : List Header) (servers : List Server)
    (choice : ℕ) : Type 0 where
  by_name :
      (header : Header) (host : Bytes)
      → IsFirst IsHostHeader headers header
      → IsHost header.value host
      → IsFirst (GoesBy servers host) indices choice
      → HostChoice indices default headers servers choice
  unknown_name :
      (header : Header) (host : Bytes)
      → IsFirst IsHostHeader headers header
      → IsHost header.value host
      → All (λ i. GoesBy servers host i → ⊥) indices
      → choice ≡ default
      → HostChoice indices default headers servers choice
  no_host :
      All (λ h. IsHostHeader h → ⊥) headers
      → choice ≡ default
      → HostChoice indices default headers servers choice

is_host : (header : Header) → (is_named "host" header ≡ true) ↔ IsHostHeader header
is_host header = =ᵇ_iff header.name (codes "host")

-- `select_server` chooses the first of its servers that goes by the host of the first host header, without
-- regard to the case of ASCII letters, where the host is the address in brackets or what stands before a
-- port; where no server goes by it, or there is no such header, it chooses the default.
pub select_server-HostChoice :
    (indices : List ℕ) (default : ℕ) (request : RequestHead) (servers : List Server)
    → HostChoice indices default request.headers servers
        (select_server indices default request servers)
select_server-HostChoice indices default request servers =
    unfold select_server in go (find (is_named "host") request.headers) refl
  where
    test : Bytes → ℕ → Bool
    test host i = is_server_name host (get_elem? servers i)

    named :
        (header : Header) (o : Option ℕ)
        → IsFirst IsHostHeader request.headers header
        → find (test (hostname header.value)) indices ≡ o
        → HostChoice indices default request.headers servers (or_default default o)
    named header none f e =
        unknown_name header (hostname header.value) f (hostname-IsHost header.value)
          (find-none (GoesBy servers (hostname header.value)) (test (hostname header.value))
            (GoesBy-reflects servers (hostname header.value)) indices e)
          refl
    named header (some i) f e =
        by_name header (hostname header.value) f (hostname-IsHost header.value) (
          find-some (GoesBy servers (hostname header.value)) (test (hostname header.value))
            (GoesBy-reflects servers (hostname header.value)) indices i e)

    go :
        (o : Option Header)
        → find (is_named "host") request.headers ≡ o
        → HostChoice indices default request.headers servers
            (or_default default (server_of_host indices servers o))
    go none e =
        unfold server_of_host in
        no_host (find-none IsHostHeader (is_named "host") is_host request.headers e) refl
    go (some header) e =
        unfold server_of_host in
        named header _ (find-some IsHostHeader (is_named "host") is_host request.headers header e)
          refl
