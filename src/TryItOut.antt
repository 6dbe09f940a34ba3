-- ===== src/TryItOut.antt =====
-- apps/backend/src/try-it-out/try-it-out.service.ts: requests that are sent for a reader of a
-- documentation, only to the servers that the specification declares. Addresses, as WHATWG's URL reads
-- them, and the zod check of the request are parameters.
pub mod Types
pub mod Declared
pub mod Headers
pub mod Target
pub mod Guarded
mod Examples
use bumd.Prelude.{
  ℕ, String, Bool, true, false, not, ◌&&◌, ◌||◌, Option, none, some, List, [], ◌∷◌, ◌++◌, ◌==◌,
  if◌then◌else◌, map, filter, any, contains, add, Dict, from_entries, lookup, Except, returned,
  thrown, ◌>>=◌, ◌>>◌, throw_if, starts_with, concat,
}
use bumd.Json.{Json, Items, str, arr, obj, nil, cons, entries}
use Types.{
  TryItOutErrorCode, version_not_found, invalid_request, target_forbidden, TryItOutError, Failure,
  try_it_out, other, TryItOutResponse,
}

-- What the service uses of `URL` and of texts.
pub record Urls (U : Type 0) : Type 0 where
  pub new_url : String → Option U  -- none for a TypeError
  pub protocol : U → String
  pub origin : U → String
  pub hostname : U → String
  pub pathname : U → String
  pub set_pathname : U → String → U
  pub clear : U → U  -- of search and hash
  pub set_param : U → String → String → U
  pub without_last : String → String  -- slice(0, -1)
  pub ends_with_slash : String → Bool
  pub to_lower_case : String → String
  pub split_commas : String → List String
  pub trim : String → String
  pub stringify : Json → String
  pub parse : String → Option Json  -- none for a SyntaxError
  pub parse_yaml : String → Except Failure Json

-- `TryItOutRequestSchema`
pub record TryItOutRequest : Type 0 where
  pub server_url : String
  pub method : String
  pub path : String
  pub query : Option (Dict String)
  pub headers : Option (Dict String)
  pub body : Option Json

-- What the HTTP client is given.
pub record Outbound (U : Type 0) : Type 0 where
  pub url : U
  pub method : String
  pub headers : Dict String
  pub body : Option String
  pub timeout_ms : ℕ

-- `getVersionForRoute` for the route of the request, and `getRawSpec`.
pub record SpecStore : Type 0 where
  pub version : Option String
  pub raw_spec : String → Except Failure String

abbrev pub default_timeout_ms : ℕ
default_timeout_ms = 5000

abbrev pub internal_hostnames : List String
internal_hostnames = "localhost" ∷ "ip6-localhost" ∷ "ip6-loopback" ∷ []

-- The beginnings that `InternalIpv4Ranges` match.
abbrev pub internal_ipv4_ranges : List String
internal_ipv4_ranges =
    "10." ∷ "127." ∷ "169.254." ∷ "172.16." ∷ "172.17." ∷ "172.18." ∷ "172.19." ∷ "172.20."
    ∷ "172.21." ∷ "172.22." ∷ "172.23." ∷ "172.24." ∷ "172.25." ∷ "172.26." ∷ "172.27." ∷ "172.28."
    ∷ "172.29." ∷ "172.30." ∷ "172.31." ∷ "192.168." ∷ []

abbrev pub blocked_request_headers : List String
blocked_request_headers =
    "host" ∷ "connection" ∷ "content-length" ∷ "cookie" ∷ "set-cookie" ∷ "transfer-encoding" ∷ []

abbrev pub try_it_out_error : TryItOutErrorCode → String → ℕ → Failure
try_it_out_error code message status =
    try_it_out (record { code = code; message = message; status_code = status })

abbrev pub or_no_texts : Option (Dict String) → Dict String
or_no_texts none = []
or_no_texts (some d) = d

-- `parseRequest`, by what the schema makes of the body.
abbrev pub parse_request : Option TryItOutRequest → Except Failure TryItOutRequest
parse_request none = thrown (try_it_out_error invalid_request "Try it out request is invalid." 400)
parse_request (some req) = returned req

abbrev pub require_version : Option String → Except Failure String
require_version none =
    thrown (try_it_out_error version_not_found "Version is not available for this doc." 404)
require_version (some id) = returned id

module _ {U : Type 0} (urls : Urls U) where
  -- The loop over the query.
  unfoldable pub set_params : U → Dict String → U
  set_params target [] = target
  set_params target ((name, value) ∷ query) = set_params (urls.set_param target name value) query

  abbrev pub at_path : U → String → Dict String → U
  at_path target path query =
      let base_path =
        if urls.ends_with_slash (urls.pathname target)
        then urls.without_last (urls.pathname target)
        else urls.pathname target in
      let operation_path = if starts_with "/" path then path else concat "/" path in
      set_params (urls.clear (urls.set_pathname target (concat base_path operation_path))) query

  abbrev pub built : Option U → String → Dict String → Except Failure U
  built none path query = thrown (other (some "Invalid URL"))
  built (some target) path query = returned (at_path target path query)

  abbrev pub build_target_url : String → String → Option (Dict String) → Except Failure U
  build_target_url server_url path query = built (urls.new_url server_url) path (or_no_texts query)

  abbrev pub is_internal_hostname : String → Bool
  is_internal_hostname hostname =
      let normalized = urls.to_lower_case hostname in
      contains internal_hostnames normalized
      || normalized == "::1"
      || any (λ range. starts_with range normalized) internal_ipv4_ranges

  abbrev pub forbidden : String → Failure
  forbidden message = try_it_out_error target_forbidden message 403

  unfoldable pub assert_allowed_target : U → List String → List String → Except Failure (Unit {0})
  assert_allowed_target target declared_origins allowed_hosts = do
    throw_if (not (urls.protocol target == "http:") && not (urls.protocol target == "https:"))
        (forbidden "Target protocol is not allowed.")
    throw_if (not (contains declared_origins (urls.origin target)))
        (forbidden "Target server is not declared by this spec.")
    throw_if
        (is_internal_hostname (urls.hostname target)
          && not (contains allowed_hosts (urls.hostname target)))
        (forbidden "Target host is not allowed.")

  abbrev pub add_origin : Option U → List String → List String
  add_origin none origins = origins
  add_origin (some url) origins = urls.origin url ∷ origins

  abbrev pub add_server_url : Option Json → List String → List String
  add_server_url (some (str url)) origins = add_origin (urls.new_url url) origins
  add_server_url _ origins = origins

  -- The origins of the servers whose address is valid.
  unfoldable pub server_origins : Items → List String
  server_origins nil = []
  server_origins (cons (obj server) servers) =
      add_server_url (lookup "url" (entries server)) (server_origins servers)
  server_origins (cons _ servers) = server_origins servers

  abbrev pub origins_of : Option Json → List String
  origins_of (some (arr servers)) = server_origins servers
  origins_of _ = []

  abbrev pub declared_server_origins : Json → List String
  declared_server_origins (obj spec) = origins_of (lookup "servers" (entries spec))
  declared_server_origins _ = []

  -- `allowedHostsFromEnv`, of the variable BUMD_TRY_PROXY_ALLOWED_HOSTS.
  abbrev pub allowed_hosts_from_env : Option String → List String
  allowed_hosts_from_env none =
      filter (λ host. not (host == "")) (map urls.trim (urls.split_commas ""))
  allowed_hosts_from_env (some hosts) =
      filter (λ host. not (host == "")) (map urls.trim (urls.split_commas hosts))

  abbrev pub parsed_or_yaml : String → Option Json → Except Failure Json
  parsed_or_yaml raw none = urls.parse_yaml raw
  parsed_or_yaml raw (some spec) = returned spec

  -- `parseSpec`
  abbrev pub parse_spec : String → Except Failure Json
  parse_spec raw = parsed_or_yaml raw (urls.parse raw)

  abbrev pub is_kept : String × String → Bool
  is_kept header = not (contains blocked_request_headers (urls.to_lower_case header.0))

  abbrev pub with_content_type : Dict String → Option Json → Dict String
  with_content_type headers none = headers
  with_content_type headers (some body) =
      if any (λ header. urls.to_lower_case header.0 == "content-type") headers
      then headers
      else headers ++ ("content-type", "application/json") ∷ []

  unfoldable pub sanitize_headers : Dict String → Option Json → Dict String
  sanitize_headers headers body = from_entries [] (with_content_type (filter is_kept headers) body)

  abbrev pub request_body : Option Json → Option String
  request_body none = none
  request_body (some (str text)) = some text
  request_body (some body) = some (urls.stringify body)

  abbrev pub outbound : TryItOutRequest → U → Outbound U
  outbound req target = record {
    url = target;
    method = req.method;
    headers = sanitize_headers (or_no_texts req.headers) req.body;
    body = request_body req.body;
    timeout_ms = default_timeout_ms;
  }

  -- `execute` up to the call of the HTTP client.
  unfoldable pub plan :
      SpecStore → Option String → Option TryItOutRequest → Except Failure (Outbound U)
  unfolding assert_allowed_target
  plan store allowed parsed = do
    req ← parse_request parsed
    version ← require_version store.version
    raw_spec ← store.raw_spec version
    target ← build_target_url req.server_url req.path req.query
    spec ← parse_spec raw_spec
    assert_allowed_target target (declared_server_origins spec) (allowed_hosts_from_env allowed)
    returned (outbound req target)

  abbrev pub sent :
      {W : Type 0}
      → (Outbound U → W → Except Failure TryItOutResponse × W)
      → Except Failure (Outbound U)
      → W
      → Except Failure TryItOutResponse × W
  sent send (thrown e) world = (thrown e, world)
  sent send (returned out) world = send out world

  -- `execute`; `parsed` is what the schema makes of the body, and `send` the HTTP client.
  unfoldable pub execute :
      {W : Type 0}
      → (Outbound U → W → Except Failure TryItOutResponse × W)
      → SpecStore
      → Option String
      → Option TryItOutRequest
      → W
      → Except Failure TryItOutResponse × W
  unfolding plan
  execute send store allowed parsed world = sent send (plan store allowed parsed) world
