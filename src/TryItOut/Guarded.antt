-- ===== src/TryItOut/Guarded.antt =====
-- Only requests to declared and allowed servers are sent (try-it-out/try-it-out.service.ts).
use bumd.Prelude.{
  String, true, not, ◌||◌, Option, none, some, ◌==◌, ◌≡◌, ◌⊎◌, refl, sym, ap, ◌∙◌, contains, lookup,
  Except, returned, thrown, >>=-returned, >>-returned, returned-injective, Except-cases, inl, inr,
}
use bumd.Json.{Json, Items, Fields, null, bool, num, str, arr, obj, entries}
use bumd.TryItOut.Types.{Failure, TryItOutResponse}
use bumd.TryItOut.{
  Urls, TryItOutRequest, Outbound, SpecStore, or_no_texts, parse_request, require_version,
  build_target_url, is_internal_hostname, origins_of, declared_server_origins,
  allowed_hosts_from_env, parse_spec, outbound, plan, sent, execute,
}
use bumd.TryItOut.Declared.{Declared, server_origins-Declared, Declared-server_origins}
use bumd.TryItOut.Headers.{Clean, sanitize_headers-Clean}
use bumd.TryItOut.Target.{assert_allowed_target_iff}

differ : {E A : Type 0} {e : E} {a : A} → ¬ (◌≡◌ {A = Except E A} (thrown e) (returned a))
differ h = cc

module _ {U : Type 0} (urls : Urls U) where
  -- What a request must be for the service to send it.
  pub record Sendable (store : SpecStore) (allowed : Option String)
      (parsed : Option TryItOutRequest) : Type 0 where
    pub req : TryItOutRequest
    pub valid : parsed ≡ some req
    pub version : String
    pub found : store.version ≡ some version
    pub raw_spec : String
    pub stored : store.raw_spec version ≡ returned raw_spec
    pub target : U
    pub addressed : build_target_url urls req.server_url req.path req.query ≡ returned target
    pub spec : Fields
    pub parses : parse_spec urls raw_spec ≡ returned (obj spec)
    pub servers : Items
    pub listed : lookup "servers" (entries spec) ≡ some (arr servers)
    pub declared : Declared urls (urls.origin target) servers
    pub web : (urls.protocol target == "http:" || urls.protocol target == "https:") ≡ true
    pub outside :
        (not (is_internal_hostname urls (urls.hostname target))
          || contains (allowed_hosts_from_env urls allowed) (urls.hostname target))
        ≡ true

  declared_server_origins-Declared :
      (spec : Json) (origin : String)
      → contains (declared_server_origins urls spec) origin ≡ true
      → (fs : Fields) × (servers : Items) × (spec ≡ obj fs)
        × (lookup "servers" (entries fs) ≡ some (arr servers))
        × Declared urls origin servers
  declared_server_origins-Declared (obj fs) origin h =
      listed_origins (lookup "servers" (entries fs)) refl h
    where
      listed_origins :
          (o : Option Json)
          → lookup "servers" (entries fs) ≡ o
          → contains (origins_of urls o) origin ≡ true
          → (gs : Fields) × (servers : Items) × (obj fs ≡ obj gs)
            × (lookup "servers" (entries gs) ≡ some (arr servers))
            × Declared urls origin servers
      listed_origins (some (arr servers)) e m =
          (fs, servers, refl, e, server_origins-Declared urls servers origin m)
      listed_origins none e m = cc
      listed_origins (some null) e m = cc
      listed_origins (some (bool b)) e m = cc
      listed_origins (some (num n)) e m = cc
      listed_origins (some (str s)) e m = cc
      listed_origins (some (obj gs)) e m = cc
  declared_server_origins-Declared null origin h = cc
  declared_server_origins-Declared (bool b) origin h = cc
  declared_server_origins-Declared (num n) origin h = cc
  declared_server_origins-Declared (str s) origin h = cc
  declared_server_origins-Declared (arr vs) origin h = cc

  parse_request-returned :
      (parsed : Option TryItOutRequest) {req : TryItOutRequest}
      → parse_request parsed ≡ returned req
      → parsed ≡ some req
  parse_request-returned none h = cc
  parse_request-returned (some r) h = ap some (returned-injective h)

  require_version-returned :
      (o : Option String) {v : String} → require_version o ≡ returned v → o ≡ some v
  require_version-returned none h = cc
  require_version-returned (some w) h = ap some (returned-injective h)

  plan-Sendable :
      (store : SpecStore) (allowed : Option String) (parsed : Option TryItOutRequest)
      {out : Outbound U}
      → plan urls store allowed parsed ≡ returned out
      → (s : Sendable store allowed parsed) × (out ≡ outbound urls s.req s.target)
  unfolding plan
  plan-Sendable store allowed parsed h =
      let (req, e1, r1) = >>=-returned (parse_request parsed) _ h in
      let (version, e2, r2) = >>=-returned (require_version store.version) _ r1 in
      let (raw_spec, e3, r3) = >>=-returned (store.raw_spec version) _ r2 in
      let (target, e4, r4) =
        >>=-returned (build_target_url urls req.server_url req.path req.query) _ r3 in
      let (spec, e5, r5) = >>=-returned (parse_spec urls raw_spec) _ r4 in
      let (ok, r6) = >>-returned _ _ r5 in
      let (web, member, outside) =
        (assert_allowed_target_iff urls target (declared_server_origins urls spec)
            (allowed_hosts_from_env urls allowed)).0
          ok in
      let (fs, servers, e6, e7, declared) =
        declared_server_origins-Declared spec (urls.origin target) member in
      (
        record {
          req = req;
          valid = parse_request-returned parsed e1;
          version = version;
          found = require_version-returned store.version e2;
          raw_spec = raw_spec;
          stored = e3;
          target = target;
          addressed = e4;
          spec = fs;
          parses = e5 ∙ ap returned e6;
          servers = servers;
          listed = e7;
          declared = declared;
          web = web;
          outside = outside;
        },
        sym (returned-injective r6),
      )

  Sendable-plan :
      (store : SpecStore) (allowed : Option String) (parsed : Option TryItOutRequest)
      (s : Sendable store allowed parsed)
      → plan urls store allowed parsed ≡ returned (outbound urls s.req s.target)
  unfolding plan
  Sendable-plan store allowed parsed s =
      let member =
        (assert_allowed_target_iff urls s.target (declared_server_origins urls (obj s.spec))
            (allowed_hosts_from_env urls allowed)).1
          (
            s.web,
            simp s.listed
                (Declared-server_origins urls (urls.origin s.target) s.servers s.declared),
            s.outside,
          ) in
      simp (s.valid, s.found, s.stored, s.addressed, s.parses, member) refl

  -- A request is sent, once and without a blocked header, exactly if the body is a valid request, the
  -- route has a version, and the target has a web protocol, an origin that a server of the version's
  -- specification declares, and a host that is allowed or not internal. Otherwise an error is thrown and
  -- nothing is sent.
  pub execute-Sendable :
      {W : Type 0} (send : Outbound U → W → Except Failure TryItOutResponse × W) (store : SpecStore)
      (allowed : Option String) (parsed : Option TryItOutRequest) (world : W)
      → ((s : Sendable store allowed parsed) × (execute urls send store allowed parsed world
            ≡ send (outbound urls s.req s.target) world)
          × Clean urls (outbound urls s.req s.target).headers)
        ⊎ ((¬ Sendable store allowed parsed)
            × ((e : Failure) × (execute urls send store allowed parsed world ≡ (thrown e, world))))
  unfolding execute
  execute-Sendable send store allowed parsed world =
      elim (Except-cases (plan urls store allowed parsed)) [
        | inl (out, planned) ↦
            let (s, same) = plan-Sendable store allowed parsed planned in
            inl (
              s,
              ap (λ m. sent urls send m world) planned ∙ ap (λ o. send o world) same,
              sanitize_headers-Clean urls (or_no_texts s.req.headers) s.req.body,
            )
        | inr (e, refused) ↦ inr (
          λ s. differ (sym refused ∙ Sendable-plan store allowed parsed s),
          (e, ap (λ m. sent urls send m world) refused),
        )
      ]
