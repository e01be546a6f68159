-- ===== src/Gitrepo/Revision/Identity.antt =====
-- internal/gitrepo/repository.go: what a repository on the disk says of itself is a valid revision.
use auto_mas_runtime.Base.{
  ◌≡◌, sym, ap, ◌∙◌, Bool, true, ◌||◌, List, [], ◌∷◌, ◌++◌, Option, none, some, Bytes, codes, all,
  bytes_eq, bytes_eq_refl, arith, Option-cases, Bool-cases, subst, inl, inr,
}
use auto_mas_runtime.Mirror.Source.{Source}
use auto_mas_runtime.Mirror.Report.{valid_git_commit}
use auto_mas_runtime.Gitrepo.Revision.{
  Target, parse_target, Revision, release_prefix, revision_valid, valid_revision_source_key,
  Snapshot, source_for_url, origin_url, AlphaBinding, bound_target, release_target, head_target_of,
  identity_of_version, identity_of_snapshot,
}

source_for_url-valid :
    (key_ok : Bytes → Bool) (sources : List Source) (url : Bytes) (s : Source)
    → all (λ s. key_ok s.key) sources ≡ true
    → source_for_url sources url ≡ some s
    → key_ok s.key ≡ true
unfolding source_for_url
source_for_url-valid key_ok [] url s h k = absurd (ground (arith, k))
source_for_url-valid key_ok (x ∷ rest) url s h k =
    ground (arith, h, k, source_for_url-valid key_ok rest url s)

parse_target_lem : (v : Bytes) (t : Target) → parse_target v ≡ some t → t.version ≡ v
unfolding parse_target
parse_target_lem v t h = ground (arith, h)

-- The branch of a target fits its version.
abbrev Fits : Target → Type 0
Fits target =
    (t : Target) × (parse_target target.version ≡ some t)
    × ((bytes_eq t.branch target.branch
          || bytes_eq target.branch (release_prefix ++ target.version))
        ≡ true)

second : (a : Bool) {b : Bool} → b ≡ true → (a || b) ≡ true
second a h = ground (arith, h)

same_text : {a b : Bytes} → a ≡ b → bytes_eq a b ≡ true
same_text {b = b} e = rw e (bytes_eq_refl b)

parsed-Fits : (v : Bytes) (t : Target) → parse_target v ≡ some t → Fits t
parsed-Fits v t h =
    (t, ap parse_target (parse_target_lem v t h) ∙ h, ground (arith, bytes_eq_refl t.branch))

released-Fits :
    (v : Bytes) (t : Target)
    → parse_target v ≡ some t
    → Fits (record t { branch = release_prefix ++ v })
released-Fits v t h = (
  t,
  ap parse_target (parse_target_lem v t h) ∙ h,
  second (bytes_eq t.branch (release_prefix ++ v))
      (same_text (ap (λ x. release_prefix ++ x) (sym (parse_target_lem v t h)))),
)

bound_target-Fits :
    (snapshot : Snapshot) (v : Bytes) (x : Option AlphaBinding) (target : Target)
    → bound_target snapshot v x ≡ some target
    → Fits target
unfolding bound_target
bound_target-Fits snapshot v none target h = absurd (ground (arith, h))
bound_target-Fits snapshot v (some b) target h = elim (Option-cases (parse_target b.version)) [
  | inl e ↦ absurd (ground (arith, h, e))
  | inr (t, e) ↦ parsed-Fits b.version target (e ∙ ground (arith, h, e))
]

release_target-Fits : (v : Bytes) (target : Target) → release_target v ≡ some target → Fits target
unfolding release_target
release_target-Fits v target h = elim (Option-cases (parse_target v)) [
  | inl e ↦ absurd (ground (arith, h, e))
  | inr (t, e) ↦ subst Fits (ground (arith, h, e)) (released-Fits v t e)
]

head_target_of-Fits :
    (snapshot : Snapshot) (v : Bytes) (target : Target)
    → head_target_of snapshot v ≡ some target
    → Fits target
unfolding head_target_of
head_target_of-Fits snapshot v target h =
    elim (Bool-cases (bytes_eq snapshot.head_target (codes "refs/heads/dev"))) [
      | inl e ↦ bound_target-Fits snapshot v snapshot.alpha_binding target (ground (arith, h, e))
      | inr e ↦ release_target-Fits v target (ground (arith, h, e))
    ]

Fits-valid :
    (target : Target) (r : Revision)
    → Fits target
    → r.version ≡ target.version
    → r.branch ≡ target.branch
    → valid_git_commit r.commit ≡ true
    → valid_revision_source_key r.source_key ≡ true
    → revision_valid r ≡ true
unfolding revision_valid
Fits-valid target r (t, p, b) hv hb hc hk =
    ground (arith, ap parse_target hv ∙ p, b, hv, hb, hc, hk)

identity_of_version-valid :
    (sources : List Source) (parse : Bytes → Option Bytes) (snapshot : Snapshot) (s : Source)
    (r : Revision)
    → valid_revision_source_key s.key ≡ true
    → valid_git_commit snapshot.commit ≡ true
    → identity_of_version sources parse snapshot s ≡ some r
    → revision_valid r ≡ true
unfolding identity_of_version
identity_of_version-valid sources parse snapshot s r hk hc h =
    elim (Option-cases (parse snapshot.version_payload)) [
      | inl e ↦ absurd (ground (arith, h, e))
      | inr (v, e) ↦ elim (Option-cases (head_target_of snapshot v)) [
        | inl f ↦ absurd (ground (arith, h, e, f))
        | inr (target, f) ↦
            Fits-valid target r (head_target_of-Fits snapshot v target f) (ground (arith, h, e, f))
              (ground (arith, h, e, f)) (ground (arith, h, e, f, hc)) (ground (arith, h, e, f, hk))
      ]
    ]

-- When the keys of the git sources are valid, the identity that is read of a repository is a valid
-- revision: its version parses, its branch fits the version, and its commit and its source key are
-- valid.
pub identity_of_snapshot-valid :
    (sources : List Source) (parse : Bytes → Option Bytes) (snapshot : Snapshot) (r : Revision)
    → all (λ s. valid_revision_source_key s.key) sources ≡ true
    → identity_of_snapshot sources parse snapshot ≡ some r
    → revision_valid r ≡ true
unfolding identity_of_snapshot
identity_of_snapshot-valid sources parse snapshot r hs h =
    elim (Option-cases (origin_url snapshot)) [
      | inl e ↦ absurd (ground (arith, h, e))
      | inr (url, e) ↦ elim (Option-cases (source_for_url sources url)) [
        | inl f ↦ absurd (ground (arith, h, e, f))
        | inr (s, f) ↦
            identity_of_version-valid sources parse snapshot s r
              (source_for_url-valid valid_revision_source_key sources url s hs f)
              (ground (arith, h, e, f)) (ground (arith, h, e, f))
      ]
    ]
