-- ===== src/TryItOut/Target.antt =====
-- The target of a request is allowed (try-it-out/try-it-out.service.ts).
use bumd.Prelude.{
  String, Bool, true, false, not, ◌&&◌, ◌||◌, List, ◌==◌, ◌≡◌, ◌↔◌, refl, arith, contains, Except,
  returned, ◌>>◌, throw_if, >>-returned,
}
use bumd.TryItOut.{Urls, is_internal_hostname, assert_allowed_target}

throw_if_returned : {E : Type 0} (b : Bool) (e : E) → throw_if b e ≡ returned tt → b ≡ false
throw_if_returned true e h = cc
throw_if_returned false e h = refl

then_returned :
    {E : Type 0} (b : Bool) (e : E) (k : Except E (Unit {0}))
    → b ≡ false
    → k ≡ returned tt
    → (throw_if b e >> k) ≡ returned tt
then_returned true e k b h = cc
then_returned false e k b h = h

last_returned : {E : Type 0} (b : Bool) (e : E) → b ≡ false → throw_if b e ≡ returned tt
last_returned true e h = cc
last_returned false e h = refl

-- Three guards pass exactly if none of their tests holds.
guards :
    {E : Type 0} (http https declared internal allowed : Bool) (e f g : E)
    → ((throw_if (not http && not https) e
          >> (throw_if (not declared) f >> throw_if (internal && not allowed) g))
        ≡ returned tt)
      ↔ (((http || https) ≡ true) × (declared ≡ true) × ((not internal || allowed) ≡ true))
guards http https declared internal allowed e f g = (
  λ h.
      let (one, rest) =
        >>-returned _ (throw_if (not declared) f >> throw_if (internal && not allowed) g) h in
      let (two, three) = >>-returned _ (throw_if (internal && not allowed) g) rest in
      let a = throw_if_returned (not http && not https) e one in
      let b = throw_if_returned (not declared) f two in
      let c = throw_if_returned (internal && not allowed) g three in
      (ground arith, ground arith, ground arith),
  λ h. then_returned (not http && not https) e _ (ground arith) (
      then_returned (not declared) f _ (ground arith)
        (last_returned (internal && not allowed) g (ground arith))),
)

module _ {U : Type 0} (urls : Urls U) where
  pub assert_allowed_target_iff :
      (target : U) (origins hosts : List String)
      → (assert_allowed_target urls target origins hosts ≡ returned tt) ↔ (
          ((urls.protocol target == "http:" || urls.protocol target == "https:") ≡ true)
          × (contains origins (urls.origin target) ≡ true)
          × ((not (is_internal_hostname urls (urls.hostname target))
                || contains hosts (urls.hostname target))
              ≡ true))
  unfolding assert_allowed_target
  assert_allowed_target_iff target origins hosts =
      guards (urls.protocol target == "http:") (urls.protocol target == "https:")
        (contains origins (urls.origin target)) (is_internal_hostname urls (urls.hostname target))
        (contains hosts (urls.hostname target)) _ _ _
