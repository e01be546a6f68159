-- ===== src/Mirror/Cache.antt =====
-- internal/mirror/probecache.go: the cache of measured orders, by kind. Each call has the time that its
-- clock would give, in nanoseconds; a difference below zero is zero here, and neither reaches a positive
-- time to live. A time to live that is not positive is 0.
pub mod Remembers
pub mod History
pub mod Tests
use auto_mas_runtime.Base.{
  ℕ, ◌-◌, Bool, true, false, not, ◌&&◌, ◌||◌, List, [], ◌∷◌, Option, none, some, Bytes, bytes_eq,
  is_empty, leb, ◌==◌, if◌then◌else◌,
}
use auto_mas_runtime.Mirror.Source.{UrlPackage, Kind, kind_eq, kind_valid}
use auto_mas_runtime.Mirror.Catalog.{AttemptPlan, valid_plan}
use auto_mas_runtime.Mirror.Rank.{ProbeResult}

abbrev pub default_probe_cache_ttl : ℕ
default_probe_cache_ttl = 1800000000000

pub record CachedRanking : Type 0 where
  pub seal : Bytes
  pub plan : AttemptPlan
  pub results : List ProbeResult
  pub stored_at : ℕ

abbrev pub Entries : Type 0
Entries = Kind → Option CachedRanking

abbrev pub set_entry : Kind → Option CachedRanking → Entries → Entries
set_entry kind entry entries k = if kind_eq k kind then entry else entries k

abbrev pub effective_ttl : ℕ → ℕ
effective_ttl ttl = if ttl == 0 then default_probe_cache_ttl else ttl

abbrev pub Hit : Type 0
Hit = AttemptPlan × List ProbeResult

abbrev pub expired : ℕ → ℕ → CachedRanking → Bool
expired ttl now entry = leb (effective_ttl ttl) (now - entry.stored_at)

-- `Lookup`, of a cache that is not nil.
unfoldable pub lookup : ℕ → ℕ → Kind → Bytes → Entries → Option Hit × Entries
lookup ttl now kind seal entries =
    if not (kind_valid kind) || is_empty seal then (none, entries) else elim (entries kind) [
      | none ↦ (none, entries)
      | some entry ↦
          if not (bytes_eq entry.seal seal)
          then (none, entries)
          else if expired ttl now entry
          then (none, set_entry kind none entries)
          else (some (entry.plan, entry.results), entries)
    ]

module _ (net : UrlPackage) (sha256 : Bytes → Bytes) where
  -- What `Store` asks of its arguments.
  abbrev pub storable : Kind → Bytes → AttemptPlan → Bool
  storable kind seal plan =
      kind_valid kind
      && (not (is_empty seal) && (valid_plan net sha256 plan && kind_eq plan.kind kind))

  -- `Store`, of a cache that is not nil.
  unfoldable pub store : ℕ → Kind → Bytes → AttemptPlan → List ProbeResult → Entries → Entries
  store now kind seal plan results entries =
      if storable kind seal plan
      then set_entry kind
          (some (record { seal = seal; plan = plan; results = results; stored_at = now })) entries
      else entries
