-- ===== src/Mirror/Catalog.antt =====
-- internal/mirror/source.go and policy.go: the catalog of sources by kind, the policy of the
-- command line, and the order of attempts (a `Plan` of the source is an `AttemptPlan` here) that
-- both determine. A Go map is a function or a list of entries, sha256 a parameter. The checks of a
-- nil catalog are the caller's: a catalog here is there.
pub mod Distinct
pub mod Order
pub mod Attempts
pub mod Build
pub mod Refused
pub mod Plans
pub mod Tests
use auto_mas_runtime.Base.{
  ℕ, zero, suc, ◌+◌, Bool, true, false, not, ◌&&◌, ◌||◌, List, [], ◌∷◌, ◌++◌, Option, none, some,
  Bytes, codes, any, all, map, filter, bytes_eq, ◌==◌, if◌then◌else◌, is_none, is_empty, length,
}
use auto_mas_runtime.Mirror.Source.{
  Kind, kind_eq, all_kinds, kind_valid, kind_text, valid_source_key, UrlPackage, Source,
  validate_source, source_eq,
}

-- `m[kind] = value`.
abbrev pub update {ℓ} : {A : Type ℓ} → Kind → A → (Kind → A) → Kind → A
update kind value m k = if kind_eq kind k then value else m k

pub record Catalog : Type 0 where
  pub sources : Kind → List Source

-- The maps that `NewCatalog` fills.
pub record Building : Type 0 where
  pub grouped : Kind → List Source
  pub keys : Kind → List Bytes
  pub official_counts : Kind → ℕ

abbrev pub mem_key : Bytes → List Bytes → Bool
mem_key key = any (λ k. bytes_eq k key)

module _ (net : UrlPackage) where
  -- One round of the loop; `none` is an error.
  unfoldable pub add_source : Source → Building → Option Building
  add_source source b =
      if not (validate_source net source)
      then none
      else if mem_key source.key (b.keys source.kind)
      then none
      else some (record {
        grouped = update source.kind (b.grouped source.kind ++ source ∷ []) b.grouped;
        keys = update source.kind (source.key ∷ b.keys source.kind) b.keys;
        official_counts =
            if source.official
            then update source.kind (b.official_counts source.kind + 1) b.official_counts
            else b.official_counts;
      })

  unfoldable pub add_sources : List Source → Building → Option Building
  add_sources [] b = some b
  add_sources (s ∷ rest) b = elim (add_source s b) [ none ↦ none | some b' ↦ add_sources rest b' ]

  -- `NewCatalog`.
  unfoldable pub new_catalog : List Source → Option Catalog
  new_catalog sources =
      elim (add_sources sources
        (record { grouped = λ k. []; keys = λ k. []; official_counts = λ k. 0 })) [
          | none ↦ none
          | some b ↦
              if all (λ kind. b.official_counts kind == 1) all_kinds
              then some (record { sources = b.grouped })
              else none
        ]

  -- The inner loop of `validateCatalog`; `none` is an error, else the count of official sources.
  unfoldable pub check_sources : Kind → List Source → List Bytes → ℕ → Option ℕ
  check_sources kind [] keys official_count = some official_count
  check_sources kind (source ∷ rest) keys official_count =
      let next =
        check_sources kind rest (source.key ∷ keys)
          (if source.official then official_count + 1 else official_count) in
      if not (validate_source net source) || not (kind_eq source.kind kind)
      then none
      else if mem_key source.key keys
      then none
      else next

  unfoldable pub check_kind : Catalog → Kind → Bool
  check_kind catalog kind =
      if length (catalog.sources kind) == 0
      then false
      else elim (check_sources kind (catalog.sources kind) [] 0) [
        | none ↦ false
        | some official_count ↦ official_count == 1
      ]

  -- `validateCatalog(catalog) == nil`.
  unfoldable pub validate_catalog : Catalog → Bool
  validate_catalog catalog = all (check_kind catalog) all_kinds

module _ (net : UrlPackage) where
  -- The loop of `validPlan`.
  unfoldable pub plan_sources_ok : Kind → List Source → List Bytes → Bool
  plan_sources_ok kind [] keys = true
  plan_sources_ok kind (s ∷ rest) keys =
      let next = plan_sources_ok kind rest (s.key ∷ keys) in
      if not (kind_eq s.kind kind) || not (validate_source net s)
      then false
      else if mem_key s.key keys
      then false
      else next

-- `Catalog.Source`.
unfoldable pub find_key : Bytes → List Source → Option Source
find_key key [] = none
find_key key (s ∷ rest) = if bytes_eq s.key key then some s else find_key key rest

unfoldable pub catalog_source : Catalog → Kind → Bytes → Option Source
catalog_source catalog kind key =
    if not (kind_valid kind) || not (valid_source_key key)
    then none
    else find_key key (catalog.sources kind)

abbrev pub Preferred : Type 0
Preferred = List (Kind × Bytes)

pub record Policy : Type 0 where
  pub preferred : Option Preferred  -- `none` is the nil map of the zero value
  pub offline : Bool
  pub mirror_only : Bool

abbrev pub entry_ok : Kind × Bytes → Bool
entry_ok e = kind_valid e.0 && valid_source_key e.1

-- `NewPolicy`; a nil map in the specification has no entries.
unfoldable pub new_policy : Preferred → Bool → Bool → Option Policy
new_policy preferred offline mirror_only =
    if offline && (not (length preferred == 0) || mirror_only)
    then none
    else if all entry_ok preferred
    then some (record { preferred = some preferred; offline = offline; mirror_only = mirror_only })
    else none

unfoldable pub valid_policy : Policy → Bool
valid_policy policy = elim policy.preferred [
  | none ↦ false
  | some preferred ↦
      if policy.offline && (not (length preferred == 0) || policy.mirror_only)
      then false
      else all entry_ok preferred
]

-- `policy.preferred[kind]`.
unfoldable pub preferred_key : Kind → Preferred → Option Bytes
preferred_key kind [] = none
preferred_key kind ((k, key) ∷ rest) = if kind_eq k kind then some key else preferred_key kind rest

pub record AttemptPlan : Type 0 where
  pub kind : Kind
  pub sources : List Source
  pub offline : Bool
  pub seal : Bytes

abbrev bool_text : Bool → Bytes
bool_text true = codes "true"
bool_text false = codes "false"

-- The fields of a source in the text that is sealed, each behind a zero byte.
seal_source : Source → Bytes
seal_source s =
    0 ∷ kind_text s.kind
    ++ (0 ∷ s.key
        ++ (0 ∷ s.base_url
            ++ (0 ∷ bool_text s.official ++ (0 ∷ s.simple_base ++ (0 ∷ s.packages_base)))))

unfoldable pub seal_sources : List Source → Bytes
unfolding seal_source
seal_sources [] = []
seal_sources (s ∷ rest) = seal_source s ++ seal_sources rest

-- `planSeal`.
unfoldable pub plan_seal : (Bytes → Bytes) → Kind → List Source → Bool → Bytes
plan_seal sha256 kind sources offline =
    sha256 (kind_text kind ++ (0 ∷ bool_text offline ++ seal_sources sources))

-- `newPlan`, and the literals of `BuildPlan`.
unfoldable pub new_plan : (Bytes → Bytes) → Kind → List Source → Bool → AttemptPlan
new_plan sha256 kind sources offline = record {
  kind = kind;
  sources = sources;
  offline = offline;
  seal = plan_seal sha256 kind sources offline;
}

pub data PlanError : Type 0 where
  invalid_plan policy_rejected : PlanError

pub data PlanResult : Type 0 where
  built : AttemptPlan → PlanResult
  refused : PlanError → PlanResult

-- The loop over the preferred sources of every kind.
unfoldable pub preferred_ok : Catalog → Bool → Preferred → Bool
preferred_ok catalog mirror_only [] = true
preferred_ok catalog mirror_only ((kind, key) ∷ rest) = elim (catalog_source catalog kind key) [
  | none ↦ false
  | some source ↦
      if mirror_only && source.official then false else preferred_ok catalog mirror_only rest
]

abbrev is_preferred : Option Bytes → Source → Bool
is_preferred none s = false
is_preferred (some key) s = bytes_eq s.key key

-- The preferred source in front. `preferred_ok` has found it by then.
unfoldable pub first_choice : Catalog → Kind → Option Bytes → List Source
first_choice catalog kind none = []
first_choice catalog kind (some key) = elim (catalog_source catalog kind key) [
  | none ↦ []
  | some s ↦ s ∷ []
]

-- The order of attempts: the preferred source, the mirrors, the official source.
unfoldable pub ordered : Catalog → Bool → Kind → Option Bytes → List Source
unfolding first_choice
ordered catalog mirror_only kind preferred =
    first_choice catalog kind preferred
    ++ (filter (λ s. not (s.official || is_preferred preferred s)) (catalog.sources kind)
        ++ (if mirror_only
            then []
            else filter (λ s. not (not s.official || is_preferred preferred s))
                (catalog.sources kind)))

module _ (net : UrlPackage) (sha256 : Bytes → Bytes) where
  unfoldable pub build_online : Catalog → Preferred → Bool → Kind → PlanResult
  build_online catalog preferred mirror_only kind =
      if not (preferred_ok catalog mirror_only preferred)
      then refused policy_rejected
      else let sources = ordered catalog mirror_only kind (preferred_key kind preferred) in
        if length sources == 0
        then refused policy_rejected
        else built (new_plan sha256 kind sources false)

  -- `BuildPlan`.
  unfoldable pub build_plan : Catalog → Policy → Kind → PlanResult
  unfolding build_online
  build_plan catalog policy kind =
      if not (kind_valid kind) || not (valid_policy policy) || not (validate_catalog net catalog)
      then refused invalid_plan
      else if policy.offline
      then built (new_plan sha256 kind [] true)
      else elim policy.preferred [
        | none ↦ refused invalid_plan
        | some preferred ↦ build_online catalog preferred policy.mirror_only kind
      ]

  -- `validPlan`.
  unfoldable pub valid_plan : AttemptPlan → Bool
  valid_plan p =
      if not (kind_valid p.kind)
        || not (bytes_eq p.seal (plan_seal sha256 p.kind p.sources p.offline))
      then false
      else if p.offline
      then length p.sources == 0
      else if length p.sources == 0
      then false
      else plan_sources_ok net p.kind p.sources []
