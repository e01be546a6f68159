-- ===== src/Logging/Retention/Groups.antt =====
-- internal/logging/retention.go: what is removed and what is kept.
use Prim.{tt}
use auto_mas_runtime.Base.{
  ℕ, ◌+◌, ◌-◌, ◌≤◌, ◌≡◌, refl, ◌⊎◌, inl, inr, Bool, true, false, List, [], ◌∷◌, Bytes, filter,
  length, ltb, All, All-append, arith, Bool-cases,
}
use auto_mas_runtime.Logging.Retention.{
  Candidate, RetentionPolicy, removed_before, insert_by, sort_by, Trimmed, is_active, is_aged,
  trim_one, trim, group, trim_group, commands_of, overflow_removals, select_retention_removals,
}

pub insert_by-All :
    (P : Candidate → Type 0) (less : Candidate → Candidate → Bool) (x : Candidate)
    (l : List Candidate)
    → P x
    → All P l
    → All P (insert_by less x l)
unfolding insert_by
insert_by-All P less x [] p q = (p, tt)
insert_by-All P less x (y ∷ ys) p q = elim (Bool-cases (less y x)) [
  | inl h ↦ rw h (q.0, insert_by-All P less x ys p q.1)
  | inr h ↦ rw h (p, q)
]

pub sort_by-All :
    (P : Candidate → Type 0) (less : Candidate → Candidate → Bool) (l : List Candidate)
    → All P l
    → All P (sort_by less l)
unfolding sort_by
sort_by-All P less [] q = tt
sort_by-All P less (x ∷ xs) q =
    insert_by-All P less x (sort_by less xs) q.0 (sort_by-All P less xs q.1)

pub filter-All :
    (P : Candidate → Type 0) (keep : Candidate → Bool) (l : List Candidate)
    → ((x : Candidate) → keep x ≡ true → P x)
    → All P (filter keep l)
filter-All P keep [] h = tt
filter-All P keep (x ∷ xs) h = elim (Bool-cases (keep x)) [
  | inl e ↦ rw e (h x e, filter-All P keep xs h)
  | inr e ↦ rw e (filter-All P keep xs h)
]

module _ (clean : Bytes → Bytes) (equal_fold : Bytes → Bytes → Bool) (active_path : Bytes)
    (today : ℕ) (policy : RetentionPolicy) where
  abbrev pub Active : Candidate → Type 0
  Active c = is_active clean equal_fold active_path today policy c ≡ true

  abbrev pub Inactive : Candidate → Type 0
  Inactive c = is_active clean equal_fold active_path today policy c ≡ false

  -- What the loop keeps and removes are the files of the group; it removes as many as the overflow, unless
  -- only active files are left, and no active one.
  abbrev pub Trims : ℕ → List Candidate → Trimmed → Type 0
  Trims n l t =
      (length t.kept + length t.removed ≡ length l)
      × (t.overflow + length t.removed ≡ n)
      × All Inactive t.removed
      × ((t.overflow ≡ 0) ⊎ All Active t.kept)

  trim_one-Trims :
      (n : ℕ) (c : Candidate) (l : List Candidate) (t : Trimmed)
      → Trims n l t
      → Trims n (c ∷ l) (trim_one clean equal_fold active_path today policy c t)
  unfolding trim_one
  trim_one-Trims n c l t (s, o, i, a) =
      elim (Bool-cases (is_active clean equal_fold active_path today policy c)) [
        | inl h ↦ rw h (ground (arith, s), o, i, more a h)
        | inr h ↦ elim (Bool-cases (ltb 0 t.overflow)) [
          | inl k ↦ rw (h, k) (ground (arith, s), ground (arith, o, k), (h, i), spent a k)
          | inr k ↦ rw (h, k) (ground (arith, s), o, i, inl (ground (arith, k)))
        ]
      ]
    where
      more :
          (t.overflow ≡ 0) ⊎ All Active t.kept
          → Active c
          → (t.overflow ≡ 0) ⊎ (Active c × All Active t.kept)
      more (inl e) h = inl e
      more (inr e) h = inr (h, e)

      spent :
          (t.overflow ≡ 0) ⊎ All Active t.kept
          → ltb 0 t.overflow ≡ true
          → (t.overflow - 1 ≡ 0) ⊎ All Active t.kept
      spent (inl e) k = absurd (ground (arith, e, k))
      spent (inr e) k = inr e

  pub trim-Trims :
      (n : ℕ) (l : List Candidate) → Trims n l (trim clean equal_fold active_path today policy n l)
  unfolding trim
  trim-Trims n [] = (refl, ground arith, tt, inr tt)
  trim-Trims n (c ∷ rest) =
      trim_one-Trims n c rest (trim clean equal_fold active_path today policy n rest)
        (trim-Trims n rest)

  -- Of a command, the files that are kept are within the limit or all active, those that are removed
  -- are not active, and together they are as many as the files of the command that are not too old.
  pub trim_group_lem :
      (command : Bytes) (candidates : List Candidate)
      → ((length (trim_group clean equal_fold active_path today policy command candidates).kept
            ≤ policy.max_files_per_command)
          ⊎ All Active
              (trim_group clean equal_fold active_path today policy command candidates).kept)
        × All Inactive
            (trim_group clean equal_fold active_path today policy command candidates).removed
        × (length (trim_group clean equal_fold active_path today policy command candidates).kept
              + length
                  (trim_group clean equal_fold active_path today policy command candidates).removed
            ≡ length (group clean equal_fold active_path today policy command candidates))
  unfolding trim_group
  trim_group_lem command candidates =
      let files = group clean equal_fold active_path today policy command candidates in
      let (s, o, i, a) = trim-Trims (length files - policy.max_files_per_command) files in
      (elim a [ inl e ↦ inl (ground (arith, s, o, e)) | inr e ↦ inr e ], i, s)

  overflow_removals-All :
      (commands : List Bytes) (candidates : List Candidate)
      → All Inactive
          (overflow_removals clean equal_fold active_path today policy commands candidates)
  unfolding overflow_removals
  overflow_removals-All [] candidates = tt
  overflow_removals-All (k ∷ ks) candidates =
      All-append Inactive _ _ (trim_group_lem k candidates).1 (overflow_removals-All ks candidates)

  -- No file that is removed is the active one.
  pub select_retention_removals-Inactive :
      (candidates : List Candidate)
      → All Inactive
          (select_retention_removals clean equal_fold active_path today policy candidates)
  unfolding select_retention_removals
  select_retention_removals-Inactive candidates = sort_by-All Inactive removed_before _ (
      All-append Inactive _ _
        (filter-All Inactive (is_aged clean equal_fold active_path today policy) candidates
          (λ x h. ground (arith, h)))
        (overflow_removals-All (commands_of clean equal_fold active_path today policy candidates)
          candidates))
