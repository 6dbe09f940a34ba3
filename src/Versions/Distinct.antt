-- ===== src/Versions/Distinct.antt =====
-- No two versions of one branch hold the same text, and the ids count the versions
-- (in-memory-deploy-store.ts, versions.service.ts).
use bumd.Prelude.{
  ℕ, ◌+◌, true, false, Option, none, some, List, [], ◌∷◌, ◌++◌, find?, All, ◌≡◌, sym, subst, arith,
  eq_iff, Bool-cases, inl, inr,
}
use bumd.Versions.Types.{ApiTokenAuthContext, DeployRequest, VersionRecord}
use bumd.Versions.{Outside, Store, VersionKey, has_key, find_version_by_hash, key_of, deploy}
use bumd.Versions.Deploy.{Stores, deploy-Stores}

abbrev pub version_key : VersionRecord → VersionKey
version_key v = record {
  org_slug = v.organization_id;
  doc_slug = v.doc_id;
  branch_slug = v.branch_id;
  sha256 = v.sha256;
}

-- No later version has the key of an earlier one.
abbrev pub UniqueKeys : List VersionRecord → Type 0
UniqueKeys [] = Unit
UniqueKeys (v ∷ vs) = All (λ w. has_key (version_key v) w ≡ false) vs × UniqueKeys vs

-- The ids count from `n`, and the next one is free.
abbrev pub Counted : ℕ → ℕ → List VersionRecord → Type 0
Counted n next [] = n ≡ next
Counted n next (v ∷ vs) = (v.id ≡ n) × Counted (n + 1) next vs

pub record IsValid {W : Type 0} (s : Store W) : Type 0 where
  pub keys : UniqueKeys s.versions
  pub ids : Counted 1 s.next_sequence_number s.versions

other_key :
    (key : VersionKey) (w v : VersionRecord)
    → has_key key w ≡ false
    → has_key key v ≡ true
    → has_key (version_key w) v ≡ false
other_key key w v differs same = ground (
  arith,
  eq_iff w.organization_id key.org_slug,
  eq_iff w.doc_id key.doc_slug,
  eq_iff w.branch_id key.branch_slug,
  eq_iff w.sha256 key.sha256,
  eq_iff v.organization_id key.org_slug,
  eq_iff v.doc_id key.doc_slug,
  eq_iff v.branch_id key.branch_slug,
  eq_iff v.sha256 key.sha256,
  eq_iff v.organization_id w.organization_id,
  eq_iff v.doc_id w.doc_id,
  eq_iff v.branch_id w.branch_id,
  eq_iff v.sha256 w.sha256,
)

All-append :
    (P : VersionRecord → Type 0) (vs : List VersionRecord) (v : VersionRecord)
    → All P vs
    → P v
    → All P (vs ++ v ∷ [])
All-append P [] v h p = (p, tt)
All-append P (w ∷ vs) v h p = (h.0, All-append P vs v h.1 p)

UniqueKeys-append :
    (key : VersionKey) (vs : List VersionRecord) (v : VersionRecord)
    → UniqueKeys vs
    → find? (has_key key) vs ≡ none
    → has_key key v ≡ true
    → UniqueKeys (vs ++ v ∷ [])
UniqueKeys-append key [] v unique missing same = (tt, tt)
UniqueKeys-append key (w ∷ vs) v unique missing same = elim (Bool-cases (has_key key w)) [
  | inl here ↦ absurd (cc (simp here at missing))
  | inr differs ↦ (
    All-append (λ u. has_key (version_key w) u ≡ false) vs v unique.0
        (other_key key w v differs same),
    UniqueKeys-append key vs v unique.1 (simp differs at missing) same,
  )
]

Counted-append :
    (n next : ℕ) (vs : List VersionRecord) (v : VersionRecord)
    → Counted n next vs
    → v.id ≡ next
    → Counted n (next + 1) (vs ++ v ∷ [])
Counted-append n next [] v counted own = (omega arith, omega arith)
Counted-append n next (w ∷ vs) v counted own =
    (counted.0, Counted-append (n + 1) next vs v counted.1 own)

module _ {W : Type 0} (outside : Outside W) where
  Stores-IsValid :
      (request : DeployRequest) (auth : ApiTokenAuthContext) (s t : Store W)
      → IsValid s
      → Stores outside request auth s t
      → IsValid t
  unfolding find_version_by_hash
  Stores-IsValid request auth s t valid stored = record {
    keys = subst UniqueKeys (sym stored.versions) (
        UniqueKeys-append (key_of outside request) s.versions stored.version valid.keys stored.new
          stored.key);
    ids =
        subst (λ next. Counted 1 next t.versions) (sym stored.next)
          (subst (Counted 1 (s.next_sequence_number + 1)) (sym stored.versions) (
            Counted-append 1 s.next_sequence_number s.versions stored.version valid.ids stored.id));
  }

  -- A deploy, however it ends, keeps the keys of the versions (organization, document, branch and
  -- digest of the text) different from each other, and their ids counting from one.
  pub deploy-IsValid :
      (input : Option DeployRequest) (auth : ApiTokenAuthContext) (s : Store W)
      → IsValid s
      → IsValid (deploy outside input auth s).1
  unfolding deploy
  deploy-IsValid none auth s valid = valid
  deploy-IsValid (some request) auth s valid = elim (deploy-Stores outside request auth s) [
    | inl same ↦ subst IsValid (sym same) valid
    | inr stored ↦
        Stores-IsValid request auth s (deploy outside (some request) auth s).1 valid stored.0
  ]
