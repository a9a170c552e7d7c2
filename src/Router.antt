-- ===== src/Router.antt =====
-- run/slave/src/router.rs: the choice of an action and of a virtual host, and the plain response.
-- Text is the bytes of its UTF-8 form.
pub mod Matching
pub mod Routing
pub mod Hostname
pub mod Hosts
pub mod Response
use thwip.Prelude.{
  ℕ, zero, suc, ◌+◌, ◌≤◌, ◌<◌, String, ◌≡◌, Bool, true, false, not, ◌&&◌, Option, none, some, List,
  [], ◌∷◌, ◌++◌, ltb, leb, ◌==◌, if◌then◌else◌, length, get_elem?, find,
}
use thwip.Prelude.Text.{
  Bytes, codes, ◌=ᵇ◌, starts_with, strip_prefix, split_once, eq_ignore_ascii_case, to_decimal,
}
use thwip.Prelude.Utf8.{trim}
use thwip.Config.{PathMatcher, exact, prefix, Action, Location, Server}
use thwip.Http.{Header, RequestHead, is_named}

unfoldable pub matches_exact : PathMatcher → Bytes → Bool
matches_exact (exact path) target = path =ᵇ target
matches_exact (prefix path) target = false

-- `find_map` over the exact locations.
unfoldable pub find_exact : List Location → Bytes → Option Action
unfolding matches_exact
find_exact [] target = none
find_exact (location ∷ locations) target =
    if matches_exact location.matcher target
    then some location.action
    else find_exact locations target

-- The `filter_map`: the length of a prefix that the target starts with.
unfoldable pub prefix_length : PathMatcher → Bytes → Option ℕ
prefix_length (exact path) target = none
prefix_length (prefix path) target = if starts_with path target then some (length path) else none

-- `max_by_key` keeps the last of the longest.
unfoldable pub longer : Option (ℕ × Action) → ℕ → Action → Option (ℕ × Action)
longer none n action = some (n, action)
longer (some (m, best)) n action = if ltb n m then some (m, best) else some (n, action)

unfoldable pub best_prefix : Option (ℕ × Action) → List Location → Bytes → Option (ℕ × Action)
unfolding prefix_length longer
best_prefix best [] target = best
best_prefix best (location ∷ locations) target = elim (prefix_length location.matcher target) [
  | none ↦ best_prefix best locations target
  | some n ↦ best_prefix (longer best n location.action) locations target
]

abbrev pub action_of : Option (ℕ × Action) → Option Action
action_of none = none
action_of (some (n, action)) = some action

abbrev pub or_else {ℓ} : {A : Type ℓ} → Option A → Option A → Option A
or_else (some a) other = some a
or_else none other = other

unfoldable pub route : Server → Bytes → Option Action
unfolding find_exact best_prefix
route server target =
    or_else (find_exact server.locations target)
      (action_of (best_prefix none server.locations target))

abbrev pub first_or : Bytes → Option (Bytes × Bytes) → Bytes
first_or default none = default
first_or default (some (a, b)) = a

-- Without a port, and without the brackets of an IPv6 address.
unfoldable pub hostname_of : Bytes → Option Bytes → Bytes
hostname_of host (some bracketed) = first_or bracketed (split_once b']' bracketed)
hostname_of host none = first_or host (split_once b':' host)

unfoldable pub hostname : Bytes → Bytes
unfolding hostname_of
hostname host = hostname_of (trim host) (strip_prefix (codes "[") (trim host))

unfoldable pub is_server_name : Bytes → Option Server → Bool
is_server_name host none = false
is_server_name host (some server) = elim server.server_name [
  | none ↦ false
  | some name ↦ eq_ignore_ascii_case name host
]

abbrev pub or_default : ℕ → Option ℕ → ℕ
or_default n none = n
or_default n (some m) = m

unfoldable pub server_of_host : List ℕ → List Server → Option Header → Option ℕ
unfolding hostname is_server_name
server_of_host indices servers none = none
server_of_host indices servers (some header) =
    find (λ i. is_server_name (hostname header.value) (get_elem? servers i)) indices

unfoldable pub select_server : List ℕ → ℕ → RequestHead → List Server → ℕ
unfolding server_of_host
select_server server_indices default_server request servers =
    or_default default_server
      (server_of_host server_indices servers (find (is_named "host") request.headers))

unfoldable pub reason_phrase : ℕ → String
reason_phrase status =
    if status == 200
    then "OK"
    else if status == 201
    then "Created"
    else if status == 204
    then "No Content"
    else if status == 206
    then "Partial Content"
    else if status == 304
    then "Not Modified"
    else if status == 400
    then "Bad Request"
    else if status == 404
    then "Not Found"
    else if status == 405
    then "Method Not Allowed"
    else if status == 413
    then "Payload Too Large"
    else if status == 416
    then "Range Not Satisfiable"
    else if status == 500
    then "Internal Server Error"
    else if status == 501
    then "Not Implemented"
    else if status == 502
    then "Bad Gateway"
    else if status == 504
    then "Gateway Timeout"
    else "Unknown"

abbrev pub crlf : Bytes
crlf = 13 ∷ 10 ∷ []

unfoldable pub response_bytes_with_body : ℕ → Bytes → Bytes → Bool → Bytes
unfolding reason_phrase
response_bytes_with_body status content_type body include_body =
    codes "HTTP/1.1 "
    ++ (to_decimal status
        ++ (codes " "
            ++ (codes (reason_phrase status)
                ++ (crlf
                    ++ (codes "Content-Type: "
                        ++ (content_type
                            ++ (crlf
                                ++ (codes "Content-Length: "
                                    ++ (to_decimal (length body)
                                        ++ (crlf
                                            ++ (codes "Connection: close"
                                                ++ (crlf
                                                    ++ (crlf
                                                        ++ (if include_body
                                                            then body
                                                            else []))))))))))))))

unfoldable pub response_bytes : ℕ → Bytes → Bytes
unfolding response_bytes_with_body
response_bytes status body =
    response_bytes_with_body status (codes "text/plain; charset=utf-8") body true
