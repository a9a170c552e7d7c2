-- ===== src/Proxy/Framing.antt =====
-- The framing of the body of a forwarded request (run/slave/src/proxy.rs with
-- `RequestHead::body_length` of run/slave/src/http.rs).
use mathlib.Core.Bool.{false≢true}
use thwip.Http.{Header, RequestHead, is_named, body_length}
use thwip.Http.Framing.{undeclared, body_length-eq-ok_iff}
use thwip.Prelude.{
  ℕ, String, ◌≡◌, refl, ◌∙◌, sym, ap, Bool, true, false, not, ◌||◌, List, [], ◌∷◌, ◌++◌, any, keep,
  All-append, ok, Bool-cases, inl, inr,
}
use thwip.Prelude.Text.{Bytes, codes, ◌=ᵇ◌, =ᵇ_iff, contains_text}
use thwip.Proxy.{Upstream, connection_headers, is_sent, is_hop_by_hop}
use thwip.Proxy.HeadText.{host_header, close_header, sent, forwarded, keep-All}

any-append : (p : Header → Bool) (xs ys : List Header) → any p (xs ++ ys) ≡ (any p xs || any p ys)
any-append p [] ys = refl
any-append p (x ∷ xs) ys = elim (Bool-cases (p x)) [
  | inl e ↦ rw e
  | inr e ↦ rw (e, any-append p xs ys)
]

-- What is kept has no element of a kind that is never kept.
any-keep-false :
    (p q : Header → Bool) (xs : List Header)
    → ((x : Header) → q x ≡ true → p x ≡ false)
    → any p (keep q xs) ≡ false
any-keep-false p q [] h = refl
any-keep-false p q (x ∷ xs) h = elim (Bool-cases (q x)) [
  | inl e ↦ rw (e, h x e) (any-keep-false p q xs h)
  | inr e ↦ rw e (any-keep-false p q xs h)
]

-- A kind that is always kept is there as before.
any-keep-same :
    (p q : Header → Bool) (xs : List Header)
    → ((x : Header) → p x ≡ true → q x ≡ true)
    → any p (keep q xs) ≡ any p xs
any-keep-same p q [] h = refl
any-keep-same p q (x ∷ xs) h = go (p x) (q x) refl refl (any-keep-same p q xs h)
  where
    go :
        (a b : Bool)
        → p x ≡ a
        → q x ≡ b
        → any p (keep q xs) ≡ any p xs
        → any p (keep q (x ∷ xs)) ≡ any p (x ∷ xs)
    go true b e e' ih = rw (h x e, e)
    go false true e e' ih = rw (e', e) ih
    go false false e e' ih = rw (e', e) ih

-- Only the headers that came with the request can frame the body.
any-forwarded :
    (name : String) (u : Upstream) (r : RequestHead)
    → is_named name (host_header u) ≡ false
    → is_named name close_header ≡ false
    → any (is_named name) (forwarded u r).headers ≡ any (is_named name) (sent r)
any-forwarded name u r h k =
    rw h (any-append (is_named name) (sent r) (close_header ∷ []) ∙ rw k (or_false _))
  where
    or_false : (b : Bool) → (b || (false || false)) ≡ b
    or_false true = refl
    or_false false = refl

abbrev pub length_name : Bytes
length_name = codes "content-length"

is_named-name : (name : String) (h : Header) → is_named name h ≡ true → h.name ≡ codes name
is_named-name name h e = (=ᵇ_iff h.name (codes name)).0 e

hop_by_name :
    (h : Header) (name : Bytes)
    → h.name ≡ name
    → is_hop_by_hop h ≡ is_hop_by_hop (record { name = name; value = h.value })
hop_by_name h name e = ap (λ n. is_hop_by_hop (record { name = n; value = h.value })) e

coding_is_hop :
    (v : Bytes) → is_hop_by_hop (record { name = codes "transfer-encoding"; value = v }) ≡ true
unfolding is_hop_by_hop ◌=ᵇ◌
coding_is_hop v = refl

length_is_no_hop : (v : Bytes) → is_hop_by_hop (record { name = length_name; value = v }) ≡ false
unfolding is_hop_by_hop ◌=ᵇ◌
length_is_no_hop v = refl

-- A transfer coding is never sent on.
coding_not_sent :
    (names : List Bytes) (h : Header)
    → is_sent names h ≡ true
    → is_named "transfer-encoding" h ≡ false
coding_not_sent names h e = elim (Bool-cases (is_named "transfer-encoding" h)) [
  | inl coded ↦
      let hop =
        hop_by_name h _ (is_named-name "transfer-encoding" h coded) ∙ coding_is_hop h.value in
      absurd (false≢true (rw hop at e))
  | inr plain ↦ plain
]

length_sent_iff :
    (names : List Bytes) (h : Header)
    → is_named "content-length" h ≡ true
    → is_sent names h ≡ not (contains_text length_name names)
length_sent_iff names h e =
    let name = is_named-name "content-length" h e in
    rw (hop_by_name h length_name name ∙ length_is_no_hop h.value, name)

not_here :
    (u : Upstream)
    → (is_named "content-length" (host_header u) ≡ false)
      × (is_named "transfer-encoding" (host_header u) ≡ false)
unfolding ◌=ᵇ◌
not_here u = (refl, refl)

not_close :
    (is_named "content-length" close_header ≡ false)
    × (is_named "transfer-encoding" close_header ≡ false)
unfolding ◌=ᵇ◌
not_close = (refl, refl)

no_coding :
    (u : Upstream) (r : RequestHead)
    → any (is_named "transfer-encoding") (forwarded u r).headers ≡ false
no_coding u r =
    any-forwarded "transfer-encoding" u r (not_here u).1 not_close.1
    ∙ any-keep-false (is_named "transfer-encoding") _ r.headers
        (coding_not_sent (connection_headers r.headers))

-- A request whose `Connection` header does not name the content length is sent on with the framing
-- that the proxy itself used, whatever else that header names.
pub forwarded-body_length :
    (u : Upstream) (r : RequestHead) (n : ℕ)
    → contains_text length_name (connection_headers r.headers) ≡ false
    → body_length r ≡ ok n
    → body_length (forwarded u r) ≡ ok n
forwarded-body_length u r n kept h =
    let f = (body_length-eq-ok_iff r n).0 h in
    (body_length-eq-ok_iff (forwarded u r) n).1 (record {
      no_coding = no_coding u r;
      declared = (
        (λ e. absurd (false≢true (sym (not_here u).0 ∙ e))),
        All-append _ (sent r) _ (keep-All _ _ r.headers f.declared)
            ((λ e. absurd (false≢true (sym not_close.0 ∙ e))), tt),
      );
      default = λ e. f.default (sym same ∙ e);
    })
  where
    same :
        any (is_named "content-length") (forwarded u r).headers
        ≡ any (is_named "content-length") r.headers
    same =
        any-forwarded "content-length" u r (not_here u).0 not_close.0
        ∙ any-keep-same (is_named "content-length") _ r.headers
            (λ x e. length_sent_iff (connection_headers r.headers) x e ∙ rw kept)

pub forwarded-drops_length :
    (u : Upstream) (r : RequestHead)
    → contains_text length_name (connection_headers r.headers) ≡ true
    → body_length (forwarded u r) ≡ ok 0
forwarded-drops_length u r named = (body_length-eq-ok_iff (forwarded u r) 0).1 (record {
  no_coding = no_coding u r;
  declared = undeclared 0 (forwarded u r).headers none_left;
  default = λ e. refl;
})
  where
    gone :
        (x : Header)
        → is_sent (connection_headers r.headers) x ≡ true
        → is_named "content-length" x ≡ false
    gone x e = elim (Bool-cases (is_named "content-length" x)) [
      | inl is_length ↦ absurd (
          false≢true
            (sym (length_sent_iff (connection_headers r.headers) x is_length ∙ rw named) ∙ e))
      | inr other ↦ other
    ]

    none_left : any (is_named "content-length") (forwarded u r).headers ≡ false
    none_left =
        any-forwarded "content-length" u r (not_here u).0 not_close.0
        ∙ any-keep-false (is_named "content-length") _ r.headers (λ x e. gone x e)
