-- ===== src/Gitrepo/Revision.antt =====
-- internal/gitrepo/target.go and repository.go: a product version with its branch, and what a
-- repository on the disk says of itself. The git sources are those of the default catalog, and
-- `parse_version` reads the version document of a repository with encoding/json: both parameters.
pub mod Identity
use auto_mas_runtime.Base.{
  ℕ, ◌≡◌, Bool, true, false, not, ◌&&◌, ◌||◌, List, [], ◌∷◌, ◌++◌, Option, none, some, Bytes, codes,
  all, any, drop, length, get_or, ltb, leb, ◌==◌, if◌then◌else◌, bytes_eq, is_empty, is_none,
}
use auto_mas_runtime.Base.Strings.{contains, has_suffix}
use auto_mas_runtime.Version.{product_branch}
use auto_mas_runtime.Mirror.Source.{Source, key_loop}
use auto_mas_runtime.Mirror.Report.{valid_git_commit}

pub record Target : Type 0 where
  pub version : Bytes
  pub branch : Bytes

abbrev letter_or_digit : ℕ → Bool
letter_or_digit c =
    leb b'a' c && leb c b'z' || (leb b'A' c && leb c b'Z' || leb b'0' c && leb c b'9')

abbrev pub version_letter : ℕ → Bool
version_letter c = letter_or_digit c || (c == b'.' || (c == b'-' || c == b'_'))

unfoldable pub valid_version : Bytes → Bool
valid_version version =
    if ltb (length version) 2 || (ltb 128 (length version) || not (get_or version 0 0 == b'v'))
    then false
    else if contains (codes "..") version
        || contains (codes "@{") version
        || has_suffix (codes ".") version
        || has_suffix (codes ".lock") version
    then false
    else all version_letter (drop 1 version)

-- `ParseTarget`.
unfoldable pub parse_target : Bytes → Option Target
parse_target product_version =
    if not (valid_version product_version)
    then none
    else some (record { version = product_version; branch = product_branch product_version })

pub record Revision : Type 0 where
  pub version : Bytes
  pub branch : Bytes
  pub commit : Bytes
  pub source_key : Bytes

abbrev pub release_prefix : Bytes
release_prefix = codes "release/"

-- `validRevisionSourceKey`; its loop is the one of `validSourceKey` in internal/mirror.
unfoldable pub valid_revision_source_key : Bytes → Bool
unfolding key_loop
valid_revision_source_key key = if is_empty key then false else key_loop true false key

-- `Revision.validate() == nil`; `NewRevision` asks for the same. Git commits are tested as in a
-- rotation.
unfoldable pub revision_valid : Revision → Bool
revision_valid r = elim (parse_target r.version) [
  | none ↦ false
  | some target ↦
      (bytes_eq target.branch r.branch || bytes_eq r.branch (release_prefix ++ r.version))
      && (valid_git_commit r.commit && valid_revision_source_key r.source_key)
]

pub record Remote : Type 0 where
  pub name : Bytes
  pub fetch_urls : List Bytes
  pub mirror : Bool

pub record AlphaBinding : Type 0 where
  pub commit : Bytes
  pub version : Bytes
  pub source_version : Bytes

-- What the reader sees of a repository.
pub record Snapshot : Type 0 where
  pub non_bare : Bool
  pub remotes : List Remote
  pub head_symbolic : Bool
  pub head_target : Bytes
  pub commit : Bytes
  pub shallow : List Bytes
  pub tags : List Bytes
  pub version_regular : Bool
  pub version_payload : Bytes
  pub alpha_binding : Option AlphaBinding

-- `recoverySourceForURL`.
unfoldable pub source_for_url : List Source → Bytes → Option Source
source_for_url [] url = none
source_for_url (s ∷ rest) url = if bytes_eq s.base_url url then some s else source_for_url rest url

-- The one remote, `origin`, with one URL.
unfoldable pub origin_url : Snapshot → Option Bytes
origin_url snapshot = if not snapshot.non_bare then none else elim snapshot.remotes [
  | [] ↦ none
  | remote ∷ others ↦ elim others [
    | _ ∷ _ ↦ none
    | [] ↦
        if not (bytes_eq remote.name (codes "origin")) || remote.mirror
        then none
        else elim remote.fetch_urls [
          | [] ↦ none
          | url ∷ more ↦ elim more [ [] ↦ some url | _ ∷ _ ↦ none ]
        ]
  ]
]

-- The target of the development branch, that a binding names.
unfoldable pub bound_target : Snapshot → Bytes → Option AlphaBinding → Option Target
bound_target snapshot version none = none
bound_target snapshot version (some binding) =
    if not (bytes_eq binding.commit snapshot.commit)
      || not (bytes_eq binding.source_version version)
    then none
    else elim (parse_target binding.version) [
      | none ↦ none
      | some target ↦
          if not (bytes_eq target.branch (codes "dev")) || not (valid_version version)
          then none
          else some target
    ]

unfoldable pub release_target : Bytes → Option Target
release_target version = elim (parse_target version) [
  | none ↦ none
  | some target ↦ some (record target { branch = release_prefix ++ version })
]

-- The target that the head stands for, of a repository whose version document says `version`.
unfoldable pub head_target_of : Snapshot → Bytes → Option Target
head_target_of snapshot version =
    if bytes_eq snapshot.head_target (codes "refs/heads/dev")
    then bound_target snapshot version snapshot.alpha_binding
    else release_target version

module _ (git_sources : List Source) (parse_version : Bytes → Option Bytes) where
  -- From the version document on.
  unfoldable pub identity_of_version : Snapshot → Source → Option Revision
  identity_of_version snapshot source = elim (parse_version snapshot.version_payload) [
    | none ↦ none
    | some version ↦ elim (head_target_of snapshot version) [
      | none ↦ none
      | some target ↦
          if not (bytes_eq snapshot.head_target (codes "refs/heads/" ++ target.branch))
          then none
          else some (record {
            version = target.version;
            branch = target.branch;
            commit = snapshot.commit;
            source_key = source.key;
          })
    ]
  ]

  -- `repositoryIdentityFromSnapshot`. A `repositoryIdentity` has the fields of a revision.
  unfoldable pub identity_of_snapshot : Snapshot → Option Revision
  identity_of_snapshot snapshot = elim (origin_url snapshot) [
    | none ↦ none
    | some url ↦ elim (source_for_url git_sources url) [
      | none ↦ none
      | some source ↦
          if not snapshot.head_symbolic
            || not (valid_git_commit snapshot.commit)
            || not (any (λ c. bytes_eq c snapshot.commit) snapshot.shallow)
            || not (is_none_tag snapshot.tags)
            || not snapshot.version_regular
          then none
          else identity_of_version snapshot source
    ]
  ]
    where
      is_none_tag : List Bytes → Bool
      is_none_tag [] = true
      is_none_tag (t ∷ tags) = false
