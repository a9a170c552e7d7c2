-- ===== src/Tests/Routing.antt =====
-- Runs of run/slave/src/router.rs.
use thwip.Prelude.{
  ℕ, zero, suc, ◌+◌, ◌≡◌, refl, Bool, true, false, Option, some, none, List, [], ◌∷◌, ◌++◌, arith,
  length, drop, if◌then◌else◌,
}
use thwip.Prelude.Text.{Bytes, codes, split_crlf, digits_value, to_decimal}
use thwip.Http.{RequestHead, http11, find_head_end}
use thwip.Config.{Server, exact, prefix, response}
use thwip.Router.{route, select_server, response_bytes_with_body}
use thwip.Router.Routing.{RouteChoice, route-RouteChoice}
use thwip.Router.Hosts.{HostChoice, select_server-HostChoice}
use thwip.Router.Response.{head_of, status_line, response_bytes_with_body-parts}

abbrev server_a : Server
server_a = record {
  server_name = some (codes "a");
  locations =
      record { matcher = prefix (codes "/"); action = response 200 (codes "root") }
      ∷ record { matcher = prefix (codes "/api"); action = response 200 (codes "api") }
      ∷ record { matcher = exact (codes "/api/x"); action = response 200 (codes "x") }
      ∷ [];
  listen = 80;
  ssl = none;
}

abbrev server_b : Server
server_b = record { server_name = some (codes "b"); locations = []; listen = 80; ssl = none }

abbrev asks_b : RequestHead
asks_b = record {
  method = codes "GET";
  target = codes "/";
  version = http11;
  headers = record { name = codes "host"; value = codes "B:80" } ∷ [];
}

routed_exact : route server_a (codes "/api/x") ≡ some (response 200 (codes "x"))
unfolding route thwip.Prelude.Text.◌=ᵇ◌
routed_exact = refl

routed_prefix : route server_a (codes "/api/y") ≡ some (response 200 (codes "api"))
unfolding route thwip.Prelude.Text.◌=ᵇ◌ thwip.Prelude.Text.starts_with
routed_prefix = refl

route-RouteChoice_example :
    RouteChoice server_a.locations (codes "/api/y") (route server_a (codes "/api/y"))
route-RouteChoice_example = route-RouteChoice server_a (codes "/api/y")

selected_b : select_server (0 ∷ 1 ∷ []) 0 asks_b (server_a ∷ server_b ∷ []) ≡ 1
unfolding select_server thwip.Prelude.Text.◌=ᵇ◌ thwip.Prelude.Text.strip_prefix
    thwip.Prelude.Utf8.trim thwip.Prelude.Text.split_once thwip.Prelude.Text.to_lower
selected_b = refl

select_server-HostChoice_example :
    HostChoice
      (0 ∷ 1 ∷ [])
      0
      asks_b.headers
      (server_a ∷ server_b ∷ [])
      (select_server (0 ∷ 1 ∷ []) 0 asks_b (server_a ∷ server_b ∷ []))
select_server-HostChoice_example =
    select_server-HostChoice (0 ∷ 1 ∷ []) 0 asks_b (server_a ∷ server_b ∷ [])

response_bytes_with_body-parts_example :
    (find_head_end (response_bytes_with_body 200 (codes "text") (codes "hi") true)
      ≡ some (length (head_of 200 (codes "text") (codes "hi"))))
    × (split_crlf (head_of 200 (codes "text") (codes "hi"))
        ≡ status_line 200
          ∷ (codes "Content-Type: " ++ codes "text")
          ∷ (codes "Content-Length: " ++ to_decimal 2)
          ∷ codes "Connection: close"
          ∷ [])
    × (digits_value 0 (to_decimal 2) ≡ some 2)
    × (drop
          (length (head_of 200 (codes "text") (codes "hi")) + 4)
          (response_bytes_with_body 200 (codes "text") (codes "hi") true)
        ≡ codes "hi")
response_bytes_with_body-parts_example =
    response_bytes_with_body-parts 200 (codes "text") (codes "hi") true (ground arith)
