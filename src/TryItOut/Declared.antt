-- ===== src/TryItOut/Declared.antt =====
-- The origins of the servers that a specification declares (try-it-out/try-it-out.service.ts).
use bumd.Prelude.{
  String, true, Option, none, some, List, ◌==◌, ◌≡◌, ◌⊎◌, refl, arith, contains, eq_iff, eq_self,
  lookup, Bool-cases, inl, inr,
}
use bumd.Json.{Json, Items, Fields, null, bool, num, str, arr, obj, nil, cons, entries}
use bumd.TryItOut.{Urls, add_origin, add_server_url, server_origins}

module _ {U : Type 0} (urls : Urls U) where
  -- One of the servers has an address of this origin.
  pub data Declared (origin : String) : Items → Type 0 where
    here :
        (server : Fields) (servers : Items) (url : String) (u : U)
        → lookup "url" (entries server) ≡ some (str url)
        → urls.new_url url ≡ some u
        → urls.origin u ≡ origin
        → Declared origin (cons (obj server) servers)
    there :
        (server : Json) (servers : Items)
        → Declared origin servers
        → Declared origin (cons server servers)

  contains-add_server_url :
      (o : Option Json) (origins : List String) (origin : String)
      → contains (add_server_url urls o origins) origin ≡ true
      → (contains origins origin ≡ true)
        ⊎ ((url : String) × (u : U) × (o ≡ some (str url))
            × (urls.new_url url ≡ some u)
            × (urls.origin u ≡ origin))
  contains-add_server_url none origins origin h = inl h
  contains-add_server_url (some null) origins origin h = inl h
  contains-add_server_url (some (bool b)) origins origin h = inl h
  contains-add_server_url (some (num n)) origins origin h = inl h
  contains-add_server_url (some (arr vs)) origins origin h = inl h
  contains-add_server_url (some (obj fs)) origins origin h = inl h
  contains-add_server_url (some (str url)) origins origin h = by_url (urls.new_url url) refl h
    where
      by_url :
          (o : Option U)
          → urls.new_url url ≡ o
          → contains (add_origin urls o origins) origin ≡ true
          → (contains origins origin ≡ true)
            ⊎ ((s : String) × (u : U) × (some (str url) ≡ some (str s))
                × (urls.new_url s ≡ some u)
                × (urls.origin u ≡ origin))
      by_url none e m = inl m
      by_url (some u) e m = elim (Bool-cases (urls.origin u == origin)) [
        | inl same ↦ inr (url, u, refl, e, (eq_iff (urls.origin u) origin).0 same)
        | inr other ↦ inl (ground (arith))
      ]

  pub server_origins-Declared :
      (servers : Items) (origin : String)
      → contains (server_origins urls servers) origin ≡ true
      → Declared origin servers
  unfolding server_origins
  server_origins-Declared nil origin h = cc
  server_origins-Declared (cons (obj server) servers) origin h =
      elim (contains-add_server_url (lookup "url" (entries server)) (server_origins urls servers)
        origin h) [
          | inl m ↦ there (obj server) servers (server_origins-Declared servers origin m)
          | inr (url, u, a, b, c) ↦ here server servers url u a b c
        ]
  server_origins-Declared (cons null servers) origin h =
      there null servers (server_origins-Declared servers origin h)
  server_origins-Declared (cons (bool b) servers) origin h =
      there (bool b) servers (server_origins-Declared servers origin h)
  server_origins-Declared (cons (num n) servers) origin h =
      there (num n) servers (server_origins-Declared servers origin h)
  server_origins-Declared (cons (str s) servers) origin h =
      there (str s) servers (server_origins-Declared servers origin h)
  server_origins-Declared (cons (arr vs) servers) origin h =
      there (arr vs) servers (server_origins-Declared servers origin h)

  keeps_origin :
      (o : Option Json) (origins : List String) (origin : String)
      → contains origins origin ≡ true
      → contains (add_server_url urls o origins) origin ≡ true
  keeps_origin none origins origin h = h
  keeps_origin (some null) origins origin h = h
  keeps_origin (some (bool b)) origins origin h = h
  keeps_origin (some (num n)) origins origin h = h
  keeps_origin (some (arr vs)) origins origin h = h
  keeps_origin (some (obj fs)) origins origin h = h
  keeps_origin (some (str url)) origins origin h = by_url (urls.new_url url)
    where
      by_url : (o : Option U) → contains (add_origin urls o origins) origin ≡ true
      by_url none = h
      by_url (some u) = ground (arith, h)

  pub Declared-server_origins :
      (origin : String) (servers : Items)
      → Declared origin servers
      → contains (server_origins urls servers) origin ≡ true
  unfolding server_origins
  Declared-server_origins origin _ (here server servers url u a b c) =
      simp (a, b, c) (ground (arith, eq_self origin))
  Declared-server_origins origin _ (there (obj fs) servers d) =
      keeps_origin (lookup "url" (entries fs)) (server_origins urls servers) origin
        (Declared-server_origins origin servers d)
  Declared-server_origins origin _ (there null servers d) = Declared-server_origins origin servers d
  Declared-server_origins origin _ (there (bool b) servers d) =
      Declared-server_origins origin servers d
  Declared-server_origins origin _ (there (num n) servers d) =
      Declared-server_origins origin servers d
  Declared-server_origins origin _ (there (str s) servers d) =
      Declared-server_origins origin servers d
  Declared-server_origins origin _ (there (arr vs) servers d) =
      Declared-server_origins origin servers d
