-- ===== src/Logging/Retention.antt =====
-- internal/logging/retention.go: the choice of the log files that are removed. Dates are day numbers.
-- `filepath.Clean` and `strings.EqualFold` are parameters. Go visits the map
-- of the groups in any order; the groups do not meet, and the result is sorted.
pub mod Groups
pub mod Oldest
pub mod Tests
use auto_mas_runtime.Base.{
  ℕ, ◌+◌, ◌-◌, ◌≡◌, Bool, true, false, not, ◌&&◌, ◌||◌, List, [], ◌∷◌, ◌++◌, Bytes, any, filter,
  length, ltb, leb, ◌==◌, if◌then◌else◌, bytes_eq, is_empty,
}

pub record Candidate : Type 0 where
  pub path : Bytes
  pub command : Bytes
  pub local_date : ℕ
  pub path_key : Bytes
  pub sequence : ℕ

pub record RetentionPolicy : Type 0 where
  pub max_age_days : ℕ
  pub max_files_per_command : ℕ

-- `<` on Go strings.
unfoldable pub bytes_less : Bytes → Bytes → Bool
bytes_less a [] = false
bytes_less [] (y ∷ ys) = true
bytes_less (x ∷ xs) (y ∷ ys) = let rest = bytes_less xs ys in if x == y then rest else ltb x y

-- The order inside a group: the newest file first.
unfoldable pub newer : Candidate → Candidate → Bool
newer a b =
    if not (a.local_date == b.local_date)
    then ltb b.local_date a.local_date
    else if not (a.sequence == b.sequence)
    then ltb b.sequence a.sequence
    else bytes_less a.path_key b.path_key

-- The order of the removals.
unfoldable pub removed_before : Candidate → Candidate → Bool
removed_before a b =
    if not (bytes_eq a.command b.command)
    then bytes_less a.command b.command
    else if not (a.local_date == b.local_date)
    then ltb a.local_date b.local_date
    else if not (a.sequence == b.sequence)
    then ltb a.sequence b.sequence
    else bytes_less a.path_key b.path_key

-- `sort.Slice`.
unfoldable pub insert_by :
    (Candidate → Candidate → Bool) → Candidate → List Candidate → List Candidate
insert_by less x [] = x ∷ []
insert_by less x (y ∷ ys) =
    let rest = insert_by less x ys in if less y x then y ∷ rest else x ∷ y ∷ ys

unfoldable pub sort_by : (Candidate → Candidate → Bool) → List Candidate → List Candidate
sort_by less [] = []
sort_by less (x ∷ xs) = insert_by less x (sort_by less xs)

-- `sameRetentionPath`.
unfoldable pub same_retention_path : (Bytes → Bytes) → (Bytes → Bytes → Bool) → Bytes → Bytes → Bool
same_retention_path clean equal_fold left right =
    if is_empty left || is_empty right then false else equal_fold (clean left) (clean right)

-- What the loop over a group keeps and removes, with what is left of the overflow.
pub record Trimmed : Type 0 where
  pub kept : List Candidate
  pub removed : List Candidate
  pub overflow : ℕ

module _ (clean : Bytes → Bytes) (equal_fold : Bytes → Bytes → Bool) (active_path : Bytes)
    (today : ℕ) (policy : RetentionPolicy) where
  abbrev pub is_active : Candidate → Bool
  is_active c = same_retention_path clean equal_fold c.path active_path

  -- Not active, and older than the oldest day that is kept.
  abbrev pub is_aged : Candidate → Bool
  is_aged c = not (is_active c) && leb (c.local_date + policy.max_age_days) today

  -- One round of the loop that goes from the oldest file to the newest.
  unfoldable pub trim_one : Candidate → Trimmed → Trimmed
  trim_one c after =
      if is_active c || not (ltb 0 after.overflow)
      then record after { kept = c ∷ after.kept }
      else record after { removed = c ∷ after.removed; overflow = after.overflow - 1 }

  -- The loop, on a group with the newest file first.
  unfoldable pub trim : ℕ → List Candidate → Trimmed
  trim overflow [] = record { kept = []; removed = []; overflow = overflow }
  trim overflow (c ∷ rest) = trim_one c (trim overflow rest)

  -- The files of a command that are not too old, the newest first.
  unfoldable pub group : Bytes → List Candidate → List Candidate
  group command candidates =
      sort_by newer (filter (λ c. bytes_eq c.command command && not (is_aged c)) candidates)

  unfoldable pub trim_group : Bytes → List Candidate → Trimmed
  trim_group command candidates =
      let files = group command candidates in
      trim (length files - policy.max_files_per_command) files

  -- The commands of the groups, each once.
  unfoldable pub commands_of : List Candidate → List Bytes
  commands_of [] = []
  commands_of (c ∷ rest) =
      let others = commands_of rest in
      if any (λ k. bytes_eq k c.command) others then others else c.command ∷ others

  unfoldable pub overflow_removals : List Bytes → List Candidate → List Candidate
  overflow_removals [] candidates = []
  overflow_removals (k ∷ ks) candidates =
      (trim_group k candidates).removed ++ overflow_removals ks candidates

  -- `selectRetentionRemovals`.
  unfoldable pub select_retention_removals : List Candidate → List Candidate
  select_retention_removals candidates =
      sort_by removed_before
        (filter is_aged candidates ++ overflow_removals (commands_of candidates) candidates)
