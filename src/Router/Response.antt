-- ===== src/Router/Response.antt =====
-- The plain response of run/slave/src/router.rs: its lines, and the length that it states.
use thwip.Http.{find_head_end}
use thwip.Http.Lines.{NoCr, IsLine, text_of, find_head_end-text_of, split_crlf-text_of, drop-mark}
use thwip.Prelude.{
  ℕ, zero, suc, ◌+◌, ◌/◌, ◌%◌, Bool-cases, inl, inr, String, ◌≡◌, Bool, some, List, [], ◌∷◌, ◌++◌,
  arith, ltb, if◌then◌else◌, length, drop, All, All-append, append_assoc,
}
use thwip.Prelude.Text.{Bytes, codes, to_decimal, decimal_onto, digits_value, split_crlf}
use thwip.Prelude.Decimal.{digits_value-to_decimal}
use thwip.Router.{reason_phrase, response_bytes_with_body}

pub status_line : ℕ → Bytes
status_line status =
    codes "HTTP/1.1 " ++ (to_decimal status ++ (codes " " ++ codes (reason_phrase status)))

abbrev type_line : Bytes → Bytes
type_line content_type = codes "Content-Type: " ++ content_type

abbrev length_line : Bytes → Bytes
length_line body = codes "Content-Length: " ++ to_decimal (length body)

-- The lines of the head.
abbrev pub rest_lines : Bytes → Bytes → List Bytes
rest_lines content_type body =
    type_line content_type ∷ length_line body ∷ codes "Connection: close" ∷ []

decimal_onto-NoCr : (fuel n : ℕ) (out : Bytes) → NoCr out → NoCr (decimal_onto fuel n out)
decimal_onto-NoCr zero n out h = unfold decimal_onto in h
decimal_onto-NoCr (suc fuel) n out h =
    step (decimal_onto-NoCr fuel (n / 10) ((b'0' + n % 10) ∷ out) (omega arith, h))
  where
    step :
        NoCr (decimal_onto fuel (n / 10) ((b'0' + n % 10) ∷ out))
        → NoCr (decimal_onto (suc fuel) n out)
    step ih = elim (Bool-cases (ltb n 10)) [
      | inl e ↦ unfold decimal_onto in rw (decimal_onto, e) (omega arith, h)
      | inr e ↦ unfold decimal_onto in rw (decimal_onto, e) ih
    ]

to_decimal-NoCr : (n : ℕ) → NoCr (to_decimal n)
to_decimal-NoCr n = unfold to_decimal in decimal_onto-NoCr (suc n) n [] tt

OneLine : String → Type 0
OneLine s = NoCr (codes s)

one_line : (s : String) → NoCr (codes s) → OneLine s
unfolding OneLine
one_line s h = h

either : (b : Bool) (s t : String) → OneLine s → OneLine t → OneLine (if b then s else t)
either b s t h k = elim (Bool-cases b) [ inl e ↦ rw e h | inr e ↦ rw e k ]

reason_phrase-OneLine : (status : ℕ) → OneLine (reason_phrase status)
unfolding reason_phrase
reason_phrase-OneLine status = either _ _ _ (one_line "OK" (omega arith)) (
    either _ _ _ (one_line "Created" (omega arith)) (
      either _ _ _ (one_line "No Content" (omega arith)) (
        either _ _ _ (one_line "Partial Content" (omega arith)) (
          either _ _ _ (one_line "Not Modified" (omega arith)) (
            either _ _ _ (one_line "Bad Request" (omega arith)) (
              either _ _ _ (one_line "Not Found" (omega arith)) (
                either _ _ _ (one_line "Method Not Allowed" (omega arith)) (
                  either _ _ _ (one_line "Payload Too Large" (omega arith)) (
                    either _ _ _ (one_line "Range Not Satisfiable" (omega arith)) (
                      either _ _ _ (one_line "Internal Server Error" (omega arith)) (
                        either _ _ _ (one_line "Not Implemented" (omega arith)) (
                          either _ _ _ (one_line "Bad Gateway" (omega arith)) (
                            either _ _ _ (one_line "Gateway Timeout" (omega arith))
                              (one_line "Unknown" (omega arith)))))))))))))))

reason_phrase-NoCr : (status : ℕ) → NoCr (codes (reason_phrase status))
reason_phrase-NoCr status = opened (reason_phrase-OneLine status)
  where
    opened : OneLine (reason_phrase status) → NoCr (codes (reason_phrase status))
    opened h = unfold OneLine in h

status_line-NoCr : (status : ℕ) → NoCr (status_line status)
unfolding status_line
status_line-NoCr status = All-append _ (codes "HTTP/1.1 ") _ (omega arith) (
    All-append _ (to_decimal status) _ (to_decimal-NoCr status)
      (omega arith, reason_phrase-NoCr status))

rest_lines-All :
    (content_type body : Bytes) → NoCr content_type → All IsLine (rest_lines content_type body)
rest_lines-All content_type body h = (
  ((λ e. cc), All-append _ (codes "Content-Type: ") content_type (omega arith) h),
  (
    ((λ e. cc), All-append _ (codes "Content-Length: ") _ (omega arith) (to_decimal-NoCr _)),
    (((λ e. cc), omega arith), tt),
  ),
)

pub head_of : ℕ → Bytes → Bytes → Bytes
head_of status content_type body = text_of (status_line status) (rest_lines content_type body)

response-head_of :
    (status : ℕ) (content_type body : Bytes) (include_body : Bool)
    → response_bytes_with_body status content_type body include_body
      ≡ head_of status content_type body
        ++ (13 ∷ 10 ∷ 13 ∷ 10 ∷ (if include_body then body else []))
response-head_of status content_type body include_body =
    unfold response_bytes_with_body head_of status_line in simp append_assoc

-- A response whose content type is on one line has a head that ends at the first blank line; its
-- lines are the status line, the content type, the length of the body and `Connection: close`; the
-- length is read back as that of the body; and behind the head stands the body, or nothing for a
-- request that asks for the head alone.
pub response_bytes_with_body-parts :
    (status : ℕ) (content_type body : Bytes) (include_body : Bool)
    → NoCr content_type
    → (find_head_end (response_bytes_with_body status content_type body include_body)
        ≡ some (length (head_of status content_type body)))
      × (split_crlf (head_of status content_type body)
          ≡ status_line status
            ∷ (codes "Content-Type: " ++ content_type)
            ∷ (codes "Content-Length: " ++ to_decimal (length body))
            ∷ codes "Connection: close"
            ∷ [])
      × (digits_value 0 (to_decimal (length body)) ≡ some (length body))
      × (drop
            (length (head_of status content_type body) + 4)
            (response_bytes_with_body status content_type body include_body)
          ≡ (if include_body then body else []))
response_bytes_with_body-parts status content_type body include_body h =
    rw (response-head_of status content_type body include_body) (
      ends (status_line-NoCr status) (rest_lines-All content_type body h),
      splits (status_line-NoCr status) (rest_lines-All content_type body h),
      digits_value-to_decimal (length body),
      drop-mark (head_of status content_type body) _,
    )
  where
    ends :
        NoCr (status_line status)
        → All IsLine (rest_lines content_type body)
        → find_head_end (
            head_of status content_type body
            ++ (13 ∷ 10 ∷ 13 ∷ 10 ∷ (if include_body then body else [])))
          ≡ some (length (head_of status content_type body))
    ends a b =
        unfold head_of in
        find_head_end-text_of (status_line status) (rest_lines content_type body)
          (if include_body then body else []) a b

    splits :
        NoCr (status_line status)
        → All IsLine (rest_lines content_type body)
        → split_crlf (head_of status content_type body)
          ≡ status_line status ∷ rest_lines content_type body
    splits a b =
        unfold head_of in split_crlf-text_of (status_line status) (rest_lines content_type body) a b
