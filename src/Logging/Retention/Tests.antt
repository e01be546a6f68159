-- ===== src/Logging/Retention/Tests.antt =====
-- Five log files of one command, of which the active one is the oldest.
use auto_mas_runtime.Base.{
  ℕ, ◌+◌, ◌≤◌, ◌≡◌, refl, ◌⊎◌, List, [], ◌∷◌, Bytes, codes, length, All, bytes_eq,
}
use auto_mas_runtime.Logging.Retention.{
  same_retention_path, Candidate, RetentionPolicy, bytes_less, newer, removed_before, insert_by,
  sort_by, trim_one, trim, group, trim_group, commands_of, overflow_removals,
  select_retention_removals,
}
use auto_mas_runtime.Logging.Retention.Groups.{
  Active, Inactive, trim_group_lem, select_retention_removals-Inactive,
}
use auto_mas_runtime.Logging.Retention.Oldest.{NotYounger, trim_group-Oldest}

abbrev log_file : Bytes → ℕ → ℕ → Candidate
log_file path date sequence = record {
  path = path;
  command = codes "doctor";
  local_date = date;
  path_key = path;
  sequence = sequence;
}

abbrev same_text : Bytes → Bytes
same_text path = path

abbrev files : List Candidate
files =
    log_file (codes "a") 60 0
    ∷ log_file (codes "b") 65 0
    ∷ log_file (codes "c") 90 0
    ∷ log_file (codes "d") 90 1
    ∷ log_file (codes "e") 91 0
    ∷ []

abbrev two_of_a_month : RetentionPolicy
two_of_a_month = record { max_age_days = 30; max_files_per_command = 2 }

removed_files :
    select_retention_removals same_text bytes_eq (codes "a") 100 two_of_a_month files
    ≡ log_file (codes "b") 65 0 ∷ log_file (codes "c") 90 0 ∷ log_file (codes "d") 90 1 ∷ []
unfolding same_retention_path select_retention_removals overflow_removals commands_of trim_group
    group trim trim_one sort_by insert_by newer removed_before bytes_less bytes_eq
removed_files = refl

select_retention_removals-Inactive_example :
    All
      (Inactive same_text bytes_eq (codes "a") 100 two_of_a_month)
      (select_retention_removals same_text bytes_eq (codes "a") 100 two_of_a_month files)
select_retention_removals-Inactive_example =
    select_retention_removals-Inactive same_text bytes_eq (codes "a") 100 two_of_a_month files

trim_group_lem_example :
    ((length
          (trim_group same_text bytes_eq (codes "a") 100 two_of_a_month (codes "doctor") files).kept
        ≤ 2)
      ⊎ All
          (Active same_text bytes_eq (codes "a") 100 two_of_a_month)
          (trim_group same_text bytes_eq
            (codes "a")
            100
            two_of_a_month
            (codes "doctor")
            files).kept)
    × All
        (Inactive same_text bytes_eq (codes "a") 100 two_of_a_month)
        (trim_group same_text bytes_eq
          (codes "a")
          100
          two_of_a_month
          (codes "doctor")
          files).removed
    × (length
            (trim_group same_text bytes_eq
              (codes "a")
              100
              two_of_a_month
              (codes "doctor")
              files).kept
          + length
              (trim_group same_text bytes_eq
                (codes "a")
                100
                two_of_a_month
                (codes "doctor")
                files).removed
        ≡ length (group same_text bytes_eq (codes "a") 100 two_of_a_month (codes "doctor") files))
trim_group_lem_example =
    trim_group_lem same_text bytes_eq (codes "a") 100 two_of_a_month (codes "doctor") files

trim_group-Oldest_example :
    All
      (λ r.
        All
          (λ k. Inactive same_text bytes_eq (codes "a") 100 two_of_a_month k → NotYounger r k)
          (trim_group same_text bytes_eq
            (codes "a")
            100
            two_of_a_month
            (codes "doctor")
            files).kept)
      (trim_group same_text bytes_eq (codes "a") 100 two_of_a_month (codes "doctor") files).removed
trim_group-Oldest_example =
    trim_group-Oldest same_text bytes_eq (codes "a") 100 two_of_a_month (codes "doctor") files
