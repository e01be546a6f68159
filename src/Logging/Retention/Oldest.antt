-- ===== src/Logging/Retention/Oldest.antt =====
-- internal/logging/retention.go: of a command, the oldest files go first.
use Prim.{Unit, tt}
use auto_mas_runtime.Base.{
  ℕ, ◌≤◌, ◌<◌, ◌≡◌, ◌⊎◌, inl, inr, Bool, true, false, not, ◌&&◌, ◌||◌, List, [], ◌∷◌, Bytes, filter,
  ltb, All, All-imp, bytes_eq, arith, Bool-cases,
}
use auto_mas_runtime.Logging.Retention.{
  Candidate, RetentionPolicy, newer, insert_by, sort_by, Trimmed, is_active, is_aged, trim_one,
  trim, group, trim_group,
}
use auto_mas_runtime.Logging.Retention.Groups.{Active, Inactive, trim-Trims, insert_by-All}

-- Of an earlier day, or of the same day with no later sequence.
abbrev pub NotYounger : Candidate → Candidate → Type 0
NotYounger r k =
    (r.local_date < k.local_date) ⊎ (r.local_date ≡ k.local_date) × (r.sequence ≤ k.sequence)

NotYounger-trans : (a b c : Candidate) → NotYounger a b → NotYounger b c → NotYounger a c
NotYounger-trans a b c h k = ground (arith, h, k)

-- The later in the list, the older.
abbrev Descending : List Candidate → Type 0
Descending [] = Unit {0}
Descending (x ∷ xs) = All (λ y. NotYounger y x) xs × Descending xs

newer-NotYounger :
    (x y : Candidate) → (newer y x ≡ true → NotYounger x y) × (newer y x ≡ false → NotYounger y x)
unfolding newer
newer-NotYounger x y = (λ h. ground (arith, h), λ h. ground (arith, h))

insert_by-Descending :
    (x : Candidate) (l : List Candidate) → Descending l → Descending (insert_by newer x l)
unfolding insert_by
insert_by-Descending x [] d = (tt, tt)
insert_by-Descending x (y ∷ ys) d = elim (Bool-cases (newer y x)) [
  | inl h ↦ rw h (
    insert_by-All (λ z. NotYounger z y) newer x ys ((newer-NotYounger x y).0 h) d.0,
    insert_by-Descending x ys d.1,
  )
  | inr h ↦ rw h (
    (
      (newer-NotYounger x y).1 h,
      All-imp (λ z. NotYounger z y) (λ z. NotYounger z x) ys
          (λ z k. NotYounger-trans z y x k ((newer-NotYounger x y).1 h)) d.0,
    ),
    d,
  )
]

sort_by-Descending : (l : List Candidate) → Descending (sort_by newer l)
unfolding sort_by
sort_by-Descending [] = tt
sort_by-Descending (x ∷ xs) = insert_by-Descending x (sort_by newer xs) (sort_by-Descending xs)

All-both :
    (P Q R : Candidate → Type 0) (l : List Candidate)
    → ((x : Candidate) → P x → Q x → R x)
    → All P l
    → All Q l
    → All R l
All-both P Q R [] f p q = tt
All-both P Q R (x ∷ xs) f p q = (f x p.0 q.0, All-both P Q R xs f p.1 q.1)

module _ (clean : Bytes → Bytes) (equal_fold : Bytes → Bytes → Bool) (active_path : Bytes)
    (today : ℕ) (policy : RetentionPolicy) where
  trim-All :
      (P : Candidate → Type 0) (n : ℕ) (l : List Candidate)
      → All P l
      → All P (trim clean equal_fold active_path today policy n l).removed
  unfolding trim trim_one
  trim-All P n [] q = tt
  trim-All P n (c ∷ rest) q =
      let after = trim clean equal_fold active_path today policy n rest in
      elim (Bool-cases
        (is_active clean equal_fold active_path today policy c || not (ltb 0 after.overflow))) [
          | inl h ↦ rw h (trim-All P n rest q.1)
          | inr h ↦ rw h (q.0, trim-All P n rest q.1)
        ]

  -- No file that is removed is younger than an inactive one that is kept.
  abbrev Oldest : Trimmed → Type 0
  Oldest t =
      All
        (λ r.
          All (λ k. Inactive clean equal_fold active_path today policy k → NotYounger r k) t.kept)
        t.removed

  trim-Oldest :
      (n : ℕ) (l : List Candidate)
      → Descending l
      → Oldest (trim clean equal_fold active_path today policy n l)
  unfolding trim trim_one
  trim-Oldest n [] d = tt
  trim-Oldest n (c ∷ rest) d =
      let after = trim clean equal_fold active_path today policy n rest in
      elim (Bool-cases
        (is_active clean equal_fold active_path today policy c || not (ltb 0 after.overflow))) [
          | inl h ↦ rw h (
              All-both
                (λ r.
                  All (λ k. Inactive clean equal_fold active_path today policy k → NotYounger r k)
                    after.kept)
                (λ r. NotYounger r c)
                (λ r.
                  (Inactive clean equal_fold active_path today policy c → NotYounger r c)
                  × All (λ k. Inactive clean equal_fold active_path today policy k → NotYounger r k)
                      after.kept)
                after.removed (λ r p q. (λ i. q, p)) (trim-Oldest n rest d.1)
                (trim-All (λ r. NotYounger r c) n rest d.0))
          | inr h ↦ rw h (all_active n c rest h, trim-Oldest n rest d.1)
        ]
    where
      all_active :
          (n : ℕ) (c : Candidate) (rest : List Candidate)
          → (is_active clean equal_fold active_path today policy c
              || not (ltb 0 (trim clean equal_fold active_path today policy n rest).overflow))
            ≡ false
          → All
              (λ k. Inactive clean equal_fold active_path today policy k → NotYounger c k)
              (trim clean equal_fold active_path today policy n rest).kept
      all_active n c rest h = elim (trim-Trims clean equal_fold active_path today policy n rest).3 [
        | inl e ↦ absurd (ground (arith, h, e))
        | inr a ↦
            All-imp (Active clean equal_fold active_path today policy)
              (λ k. Inactive clean equal_fold active_path today policy k → NotYounger c k)
              (trim clean equal_fold active_path today policy n rest).kept
              (λ k p q. absurd (ground (arith, p, q))) a
      ]

  -- Of a command, a file that is removed for the limit is of an earlier day than each file that is kept
  -- and is not the active one, or of the same day with a sequence that is not higher.
  pub trim_group-Oldest :
      (command : Bytes) (candidates : List Candidate)
      → All
          (λ r.
            All
              (λ k. Inactive clean equal_fold active_path today policy k → NotYounger r k)
              (trim_group clean equal_fold active_path today policy command candidates).kept)
          (trim_group clean equal_fold active_path today policy command candidates).removed
  unfolding trim_group group
  trim_group-Oldest command candidates =
      trim-Oldest _ (group clean equal_fold active_path today policy command candidates) (
        sort_by-Descending (
          filter
            (λ c.
              bytes_eq c.command command
              && not (is_aged clean equal_fold active_path today policy c))
            candidates))
