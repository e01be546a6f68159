-- ===== src/Mirror/Source.antt =====
-- internal/mirror/kind.go, source.go and packageindex.go: a kind of sources, a validated source.
-- `net/url` is a parameter: what `url.Parse` reads from a text, and what `URL.String` writes, with
-- `strings.ToLower`, that a host goes through. Whether a scheme is https is told by its ASCII letters
-- alone: no other letter has its lower case among them.
use mathlib.Core.Bool.{decide, decide_iff}
use auto_mas_runtime.Base.{
  ◌≡◌, ◌↔◌, ℕ, Bool, true, false, not, ◌&&◌, ◌||◌, List, [], ◌∷◌, Option, none, some, Bytes, codes,
  any, bytes_eq, leb, ◌==◌, if◌then◌else◌, ℕ_discrete, ends_with, to_lower, is_empty,
}

-- A `Kind` is a string: one of the constants, or any other text.
pub data Kind : Type 0 where
  git uv python package_index : Kind
  other : Bytes → Kind

Kind-discrete : Discrete Kind
Kind-discrete = hlevel ℕ_discrete

unfoldable pub kind_eq : Kind → Kind → Bool
unfolding Kind-discrete ℕ_discrete decide
kind_eq a b = decide (Kind-discrete a b)

abbrev pub all_kinds : List Kind
all_kinds = git ∷ uv ∷ python ∷ package_index ∷ []

unfoldable pub kind_valid : Kind → Bool
kind_valid (other s) = false
kind_valid git = true
kind_valid uv = true
kind_valid python = true
kind_valid package_index = true

abbrev pub kind_text : Kind → Bytes
kind_text git = codes "git"
kind_text uv = codes "uv"
kind_text python = codes "python"
kind_text package_index = codes "package-index"
kind_text (other s) = s

abbrev pub is_lower : ℕ → Bool
is_lower c = leb b'a' c && leb c b'z'

abbrev pub is_digit : ℕ → Bool
is_digit c = leb b'0' c && leb c b'9'

-- The loop of `validSourceKey`: `first` is `i == 0`, and a hyphen may not end the key or follow
-- another.
unfoldable pub key_loop : Bool → Bool → Bytes → Bool
key_loop first previous_hyphen [] = true
key_loop first previous_hyphen (c ∷ rest) =
    let after_letter = key_loop false false rest in
    let after_hyphen = key_loop false true rest in
    if is_lower c
    then after_letter
    else if is_digit c
    then (if first then false else after_letter)
    else if c == b'-'
    then (if first || is_empty rest || previous_hyphen then false else after_hyphen)
    else false

unfoldable pub valid_source_key : Bytes → Bool
unfolding key_loop
valid_source_key value = if is_empty value then false else key_loop true false value

-- What the code reads of a `url.URL`.
pub record Url : Type 0 where
  pub absolute : Bool
  pub opaque : Bytes
  pub scheme : Bytes
  pub host : Bytes
  pub hostname : Bytes
  pub has_user : Bool
  pub raw_query : Bytes
  pub force_query : Bool
  pub fragment : Bytes
  pub raw_fragment : Bytes
  pub path : Bytes
  pub raw_path : Bytes

pub record UrlPackage : Type 0 where
  pub parse : Bytes → Option Url
  pub write : Url → Bytes
  pub lower : Bytes → Bytes

pub record Source : Type 0 where
  pub kind : Kind
  pub key : Bytes
  pub base_url : Bytes
  pub official : Bool
  pub simple_base : Bytes
  pub packages_base : Bytes

abbrev bool_eq : Bool → Bool → Bool
bool_eq true b = b
bool_eq false b = not b

-- `==` on sources.
unfoldable pub source_eq : Source → Source → Bool
source_eq a b =
    kind_eq a.kind b.kind
    && bytes_eq a.key b.key
    && bytes_eq a.base_url b.base_url
    && bool_eq a.official b.official
    && bytes_eq a.simple_base b.simple_base
    && bytes_eq a.packages_base b.packages_base

abbrev contains_byte : ℕ → Bytes → Bool
contains_byte c s = any (λ x. x == c) s

module _ (net : UrlPackage) where
  -- The policy on a parsed URL; `none` refuses it.
  unfoldable pub accept_url : Bytes → Url → Option Bytes
  accept_url value u =
      if not u.absolute
        || not (is_empty u.opaque)
        || not (bytes_eq (to_lower u.scheme) (codes "https"))
        || is_empty u.hostname
        || u.has_user
        || not (is_empty u.raw_query)
        || u.force_query
        || not (is_empty u.fragment)
        || not (is_empty u.raw_fragment)
        || contains_byte b'#' value
        || contains_byte 0 u.path
        || contains_byte 0 u.raw_path
      then none
      else some (net.write (record u { scheme = codes "https"; host = net.lower u.host }))

  unfoldable pub normalize_source_url : Bytes → Option Bytes
  normalize_source_url value =
      if is_empty value || contains_byte 0 value
      then none
      else elim (net.parse value) [ none ↦ none | some u ↦ accept_url value u ]

  -- `NewSource`.
  unfoldable pub new_source : Kind → Bytes → Bytes → Bool → Option Source
  new_source kind key base_url official =
      if not (kind_valid kind) || not (valid_source_key key)
      then none
      else elim (normalize_source_url base_url) [
        | none ↦ none
        | some normalized ↦ some (record {
          kind = kind;
          key = key;
          base_url = normalized;
          official = official;
          simple_base = [];
          packages_base = [];
        })
      ]

  -- `normalizeRewritePrefixes`: both prefixes must be canonical already.
  unfoldable pub normalize_rewrite_prefixes : Bytes → Bytes → Option (Bytes × Bytes)
  normalize_rewrite_prefixes simple_base packages_base =
      if is_empty simple_base
        || is_empty packages_base
        || ends_with b'/' simple_base
        || not (ends_with b'/' packages_base)
      then none
      else elim (normalize_source_url simple_base) [
        | none ↦ none
        | some s ↦ elim (normalize_source_url packages_base) [
          | none ↦ none
          | some p ↦
              if not (bytes_eq s simple_base) || not (bytes_eq p packages_base)
              then none
              else some (s, p)
        ]
      ]

  -- `NewPackageIndexSource`.
  unfoldable pub new_package_index_source : Bytes → Bytes → Bytes → Bytes → Bool → Option Source
  new_package_index_source key base_url simple_base packages_base official =
      elim (new_source package_index key base_url official) [
        | none ↦ none
        | some source ↦ elim (normalize_rewrite_prefixes simple_base packages_base) [
          | none ↦ none
          | some (s, p) ↦ some (record source { simple_base = s; packages_base = p })
        ]
      ]

  -- `rebuildSource`: validation goes the way of construction.
  unfoldable pub rebuild_source : Source → Option Source
  rebuild_source s =
      if not (is_empty s.simple_base) || not (is_empty s.packages_base)
      then new_package_index_source s.key s.base_url s.simple_base s.packages_base s.official
      else new_source s.kind s.key s.base_url s.official

  -- `validateSource(source) == nil`.
  unfoldable pub validate_source : Source → Bool
  validate_source s = elim (rebuild_source s) [
    | none ↦ false
    | some normalized ↦ source_eq normalized s
  ]

pub kind_eq_iff : (a b : Kind) → (kind_eq a b ≡ true) ↔ (a ≡ b)
unfolding kind_eq
kind_eq_iff a b = decide_iff (Kind-discrete a b)
