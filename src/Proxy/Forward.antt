-- ===== src/Proxy/Forward.antt =====
-- The request that `request_bytes` (run/slave/src/proxy.rs) writes is read back by the parser of
-- run/slave/src/http.rs.
use thwip.Http.{
  max_request_head_size, RequestHead, complete, is_blank, find_head_end, parse_lines,
  parse_request_head,
}
use thwip.Http.Fragments.{parse_of_Accepted}
use thwip.Http.Lines.{NoCr, IsLine, find_head_end-text_of, split_crlf-text_of, drop-mark}
use thwip.Http.Trimming.{any-trim_end}
use thwip.Http.WellFormed.{IsRequest, parse_request_head-IsRequest}
use thwip.Prelude.{
  ℕ, ◌+◌, ◌≤◌, ◌≡◌, refl, ◌≢◌, ◌∙◌, ap, Bool, true, false, ◌||◌, some, [], ◌∷◌, ◌++◌, arith, ◌==◌,
  length, drop, any, is_empty, All, ok, take-append_self, Bool-cases, All-append, inl, inr,
  ||-eq-false,
}
use thwip.Prelude.Text.{
  Bytes, codes, split_crlf, is_ascii_control, is_ascii_whitespace, trim_matches, trim_end_matches,
}
use thwip.Prelude.Utf8.{is_utf8}
use thwip.Proxy.{Upstream, target_of, request_bytes}
use thwip.Proxy.Lines.{NoCr-of_token, NoCr-of_no_space, request_line}
use thwip.Proxy.HeadText.{
  CanForward, forwarded, head_text, lines-All, lines-parsed, lines_of, request_bytes-head_text,
}

request_line-NoCr :
    (u : Upstream) (r : RequestHead)
    → CanForward u r
    → NoCr (request_line r.method (target_of u r.target))
request_line-NoCr u r w = All-append _ r.method _ (NoCr-of_token r.method w.method_token) (
  omega arith,
  All-append _ (target_of u r.target) (codes " HTTP/1.1")
      (NoCr-of_no_space _ w.target_part.no_space) (omega arith),
)

request_bytes-parsed :
    (u : Upstream) (r : RequestHead) (body : Bytes)
    → CanForward u r
    → is_utf8 (head_text u r) ≡ true
    → length (head_text u r) ≤ max_request_head_size
    → (parse_request_head (request_bytes u r body)
        ≡ ok (complete (forwarded u r) (length (head_text u r) + 4)))
      × (drop (length (head_text u r) + 4) (request_bytes u r body) ≡ body)
request_bytes-parsed u r body w valid small = rw (request_bytes-head_text u r body) (
  parse_of_Accepted (head ++ mark) (forwarded u r) (length head + 4) (record {
    head_end = length head;
    found = find (request_line-NoCr u r w) (lines-All u r w);
    small = small;
    consumes = refl;
    text = rw (take-append_self head mark) valid;
    lines =
        rw (take-append_self head mark)
          (ap parse_lines (cut (request_line-NoCr u r w) (lines-All u r w)) ∙ lines-parsed u r w);
  }),
  drop-mark head body,
)
  where
    head : Bytes
    head = head_text u r

    mark : Bytes
    mark = 13 ∷ 10 ∷ 13 ∷ 10 ∷ body

    find :
        NoCr (request_line r.method (target_of u r.target))
        → All IsLine (lines_of u r)
        → find_head_end (head ++ mark) ≡ some (length head)
    find a b =
        unfold head_text in
        find_head_end-text_of (request_line r.method (target_of u r.target)) (lines_of u r) body a b

    cut :
        NoCr (request_line r.method (target_of u r.target))
        → All IsLine (lines_of u r)
        → split_crlf head ≡ request_line r.method (target_of u r.target) ∷ lines_of u r
    cut a b =
        unfold head_text in
        split_crlf-text_of (request_line r.method (target_of u r.target)) (lines_of u r) a b

-- What a configured upstream needs for its URL to fit into a request.
pub record IsPlain (u : Upstream) : Type 0 where
  pub authority_no_break : any (λ c. (c == 13) || (c == 10)) u.authority ≡ false
  pub authority_trimmed : trim_matches is_blank u.authority ≡ u.authority
  pub base_no_space : any is_ascii_whitespace u.base_path ≡ false
  pub base_plain : any is_ascii_control u.base_path ≡ false

any-append :
    (q : ℕ → Bool) (s t : Bytes) → any q s ≡ false → any q t ≡ false → any q (s ++ t) ≡ false
any-append q [] t h k = k
any-append q (c ∷ s) t h k =
    let (first, rest) = ||-eq-false (q c) (any q s) h in rw first (any-append q s t rest k)

any-target_of :
    (q : ℕ → Bool) (u : Upstream) (target : Bytes)
    → any q u.base_path ≡ false
    → any q target ≡ false
    → any q (target_of u target) ≡ false
any-target_of q u target h k = elim (Bool-cases (is_empty u.base_path)) [
  | inl e ↦ unfold target_of in rw e k
  | inr e ↦ unfold target_of in rw e (any-append q _ target (any-trim_end _ q u.base_path h) k)
]

target_of-nonempty : (u : Upstream) (target : Bytes) → target ≢ [] → target_of u target ≢ []
target_of-nonempty u target ne = elim (Bool-cases (is_empty u.base_path)) [
  | inl e ↦ unfold target_of in rw e ne
  | inr e ↦ unfold target_of in rw e (behind (trim_end_matches (λ c. c == b'/') u.base_path))
]
  where
    behind : (s : Bytes) → s ++ target ≢ []
    behind [] e = ne e
    behind (c ∷ s) e = cc

CanForward-of : (u : Upstream) (r : RequestHead) → IsPlain u → IsRequest r → CanForward u r
CanForward-of u r p w = record {
  method_part = w.method_part;
  method_token = w.method_token;
  target_part = record {
    nonempty = target_of-nonempty u r.target w.target_part.nonempty;
    no_space = any-target_of _ u r.target p.base_no_space w.target_part.no_space;
  };
  target_plain = any-target_of _ u r.target p.base_plain w.target_plain;
  headers = w.headers;
  authority_no_break = p.authority_no_break;
  authority_trimmed = p.authority_trimmed;
}

-- A request that the parser accepted is sent to a plain upstream so that the parser reads it back
-- as the forwarded request, with the body, whatever it holds, right behind what it consumes: if the
-- head that is sent is valid UTF-8 of at most 16384 bytes.
pub parse_request_head-request_bytes :
    (u : Upstream) (bytes : Bytes) (r : RequestHead) (consumed : ℕ) (body : Bytes)
    → parse_request_head bytes ≡ ok (complete r consumed)
    → IsPlain u
    → is_utf8 (head_text u r) ≡ true
    → length (head_text u r) ≤ max_request_head_size
    → (parse_request_head (request_bytes u r body)
        ≡ ok (complete (forwarded u r) (length (head_text u r) + 4)))
      × (drop (length (head_text u r) + 4) (request_bytes u r body) ≡ body)
parse_request_head-request_bytes u bytes r consumed body h p valid small =
    request_bytes-parsed u r body
      (CanForward-of u r p (parse_request_head-IsRequest bytes r consumed h)) valid small
