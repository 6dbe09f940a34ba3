-- ===== src/TryItOut/Examples.antt =====
-- A request that is sent, and one to a host inside the network.
use bumd.Prelude.{
  ℕ, suc, String, true, none, some, [], ◌∷◌, ◌≡◌, ◌⊎◌, refl, Except, returned, thrown,
}
use bumd.Json.{str, arr, obj, nil, cons, end, field}
use bumd.TryItOut.Types.{Failure, target_forbidden, TryItOutResponse}
use bumd.TryItOut.{
  Urls, TryItOutRequest, Outbound, SpecStore, try_it_out_error, set_params, server_origins,
  sanitize_headers, assert_allowed_target, outbound, plan, execute,
}
use bumd.TryItOut.Headers.{Clean}
use bumd.TryItOut.Guarded.{Sendable, execute-Sendable}

-- An address is its origin, which is also its host.
abbrev plain : Urls String
plain = record {
  new_url = λ text. some text;
  protocol = λ u. "https:";
  origin = λ u. u;
  hostname = λ u. u;
  pathname = λ u. "/";
  set_pathname = λ u path. u;
  clear = λ u. u;
  set_param = λ u name value. u;
  without_last = λ text. "";
  ends_with_slash = λ text. true;
  to_lower_case = λ text. text;
  split_commas = λ text. text ∷ [];
  trim = λ text. text;
  stringify = λ value. "json";
  parse =
      λ text. some (obj (field "servers" (arr (cons (obj (field "url" (str text) end)) nil)) end));
  parse_yaml = λ text. returned (str text);
}

abbrev to : String → TryItOutRequest
to server = record {
  server_url = server;
  method = "GET";
  path = "/users";
  query = none;
  headers = some (("host", "x") ∷ ("accept", "*/*") ∷ []);
  body = none;
}

-- The specification declares this server only.
abbrev declares : String → SpecStore
declares server = record { version = some "v1"; raw_spec = λ id. returned server }

abbrev count : Outbound String → ℕ → Except Failure TryItOutResponse × ℕ
count out world =
    (returned (record { status = 200; headers = out.headers; body = out.url }), suc world)

sent_once : execute plain count (declares "api.example") none (some (to "api.example")) 0 ≡ (
  returned (record { status = 200; headers = ("accept", "*/*") ∷ []; body = "api.example" }),
  1,
)
unfolding execute plan assert_allowed_target set_params server_origins sanitize_headers
sent_once = refl

refused :
    execute plain count (declares "127.0.0.1") none (some (to "127.0.0.1")) 0
    ≡ (thrown (try_it_out_error target_forbidden "Target host is not allowed." 403), 0)
unfolding execute plan assert_allowed_target set_params server_origins
refused = refl

execute-Sendable_example :
    ((s : Sendable plain (declares "api.example") none (some (to "api.example"))) × (execute plain
          count
          (declares "api.example")
          none
          (some (to "api.example"))
          0
        ≡ count (outbound plain s.req s.target) 0)
      × Clean plain (outbound plain s.req s.target).headers)
    ⊎ ((¬ Sendable plain (declares "api.example") none (some (to "api.example")))
        × ((e : Failure) × (execute plain count
                (declares "api.example")
                none
                (some (to "api.example"))
                0
              ≡ (thrown e, 0))))
execute-Sendable_example =
    execute-Sendable plain count (declares "api.example") none (some (to "api.example")) 0
