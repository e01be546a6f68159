-- ===== src/Gitrepo/Tests.antt =====
-- A swap and a recovery in a world without faults.
use auto_mas_runtime.Base.{
  ◌≡◌, refl, sym, ap, inl, inr, Bool, true, false, [], ◌∷◌, ◌++◌, Option, none, some, Bytes, codes,
  bytes_eq,
}
use auto_mas_runtime.Base.Strings.{after_prefix, cut, has_suffix}
use auto_mas_runtime.Version.{product_branch}
use auto_mas_runtime.Mirror.Catalog.Tests.{github}
use auto_mas_runtime.Mirror.Report.{valid_git_commit}
use auto_mas_runtime.State.Stage.{
  stage_eq, is_known_stage, workspace_mutation_stage, workspace_clone, workspace_swap,
}
use auto_mas_runtime.State.Values.{
  in_alphabet, validate_operation_id, validate_product_version, validate_commit,
}
use auto_mas_runtime.State.Transaction.{
  TransactionState, validate_transaction, transaction_command_allowed, transaction_stage_allowed,
  transaction_target_required, check_commits, check_staged, check_target,
}
use auto_mas_runtime.State.Tests.{staged}
use auto_mas_runtime.Gitrepo.Revision.Identity.{identity_of_snapshot-valid}
use auto_mas_runtime.Gitrepo.Revision.{
  Snapshot, Revision, identity_of_snapshot, origin_url, source_for_url, identity_of_version,
  head_target_of, release_target, revision_valid, valid_revision_source_key, parse_target,
  valid_version, release_prefix,
}
use auto_mas_runtime.Gitrepo.Disk.{Directory, Disk, Intact}
use auto_mas_runtime.Gitrepo.World.Rules.{IsLawful, RenameLaw}
use auto_mas_runtime.Gitrepo.Failure.{Cause, plain_cause}
use auto_mas_runtime.Gitrepo.World.{
  map_rename_failure, Context, RenameRequest, World, ◌>>=◌, ◌>>◌, ret, is_cancellation,
}
use auto_mas_runtime.Gitrepo.Swap.{
  SwapRequest, SwapOutcome, swap_request_valid, remove_retired, commit_swap, activate_update,
  retire_repository, swap_inspected, swap_previous, swap_transaction, swap_started, swap,
}
use auto_mas_runtime.Gitrepo.Swap.Told.{SwapTells}
use auto_mas_runtime.Gitrepo.Recovery.Environment.{RecoveryRequest}
use auto_mas_runtime.Gitrepo.Recovery.Paths.{is_swap_target, has_multiple_target_revisions}
use auto_mas_runtime.Gitrepo.Recovery.Whole.{commit_mismatch, recover}
use auto_mas_runtime.Gitrepo.Crash.{
  Settled, swap_outcome_true, recover-Intact, swap-recover-Settled,
}
use auto_mas_runtime.Gitrepo.Rollback.{
  stopped_between, rolled_back, rollback_result, recover-rolled_back,
}
use auto_mas_runtime.Gitrepo.Calm.{calm, same_disk, calm-IsLawful}

abbrev old_repository : Directory
old_repository = record { id = 1; content = none }

abbrev new_repository : Directory
new_repository = record { id = 2; content = none }

abbrev prepared : Disk
prepared = record {
  dirs = record { repository = some old_repository; update = some new_repository; previous = none };
  stored = none;
}

abbrev swapping : SwapRequest
swapping = record {
  transaction = staged;
  revision = record {
    version = staged.target_version;
    branch = release_prefix ++ staged.target_version;
    commit = staged.target_commit;
    source_key = codes "github";
  };
  active_identity = some 1;
  update_identity = some 2;
  has_commit_environment = true;
}

abbrev no_version : Bytes → Option Bytes
no_version payload = none

abbrev swapped : SwapOutcome × Disk
swapped = swap calm true swapping prepared

swapped_wholly :
    (swapped.0 ≡ (
      record { mutation_applied = true; repository_activated = true; cleanup_completed = true },
      none,
    ))
    × (swapped.1.dirs ≡ record { repository = some new_repository; update = none; previous = none })
unfolding swap swap_started swap_transaction swap_previous swap_inspected retire_repository
    activate_update commit_swap remove_retired ◌>>=◌ ◌>>◌ ret swap_request_valid revision_valid
    parse_target product_branch valid_version valid_git_commit validate_transaction
    transaction_command_allowed transaction_stage_allowed transaction_target_required check_target
    check_commits check_staged is_known_stage stage_eq workspace_mutation_stage
    validate_operation_id in_alphabet validate_product_version validate_commit bytes_eq after_prefix
    cut has_suffix valid_revision_source_key
swapped_wholly = (refl, refl)

swap_outcome_true_example : SwapTells (some old_repository) new_repository swapped.0 swapped.1.dirs
swap_outcome_true_example =
    swap_outcome_true same_disk calm calm-IsLawful (some old_repository) new_repository true
      swapping prepared (refl, refl, refl)

-- A clone was interrupted.
abbrev cloning : TransactionState
cloning = record staged { command = codes "workspace sync"; stage = workspace_clone }

abbrev interrupted : Disk
interrupted = record prepared { stored = some cloning }

abbrev recovering : RecoveryRequest
recovering = record { discard_staged = false; log_path = codes "log" }

recover-Intact_example :
    Intact
      (some old_repository)
      new_repository
      (recover calm [] no_version true recovering interrupted).1.dirs
recover-Intact_example =
    recover-Intact same_disk calm calm-IsLawful [] no_version (some old_repository) new_repository
      true recovering interrupted (inl (refl, refl, inr (inl refl)))

-- A repository of a release.
abbrev checkout : Snapshot
checkout = record {
  non_bare = true;
  remotes =
      record { name = codes "origin"; fetch_urls = github.base_url ∷ []; mirror = false } ∷ [];
  head_symbolic = true;
  head_target = codes "refs/heads/release/v1.2";
  commit = staged.target_commit;
  shallow = staged.target_commit ∷ [];
  tags = [];
  version_regular = true;
  version_payload = codes "v1.2";
  alpha_binding = none;
}

abbrev checkout_revision : Revision
checkout_revision = record {
  version = codes "v1.2";
  branch = codes "release/v1.2";
  commit = staged.target_commit;
  source_key = github.key;
}

identity_of_snapshot-valid_example : revision_valid checkout_revision ≡ true
unfolding identity_of_snapshot origin_url source_for_url identity_of_version head_target_of
    release_target parse_target product_branch valid_version valid_git_commit bytes_eq after_prefix
    cut has_suffix valid_revision_source_key
identity_of_snapshot-valid_example =
    identity_of_snapshot-valid (github ∷ []) some checkout checkout_revision refl refl

-- A swap stopped between its two renames.
abbrev stopped : TransactionState
stopped = record staged { command = codes "workspace sync"; stage = workspace_swap }

abbrev old_checkout : Directory
old_checkout = record { id = 1; content = some checkout }

abbrev new_checkout : Directory
new_checkout = record { id = 2; content = some checkout }

recover-rolled_back_example :
    recover calm
      (github ∷ [])
      some
      true
      recovering
      (stopped_between stopped old_checkout new_checkout)
    ≡ ((rollback_result, []), rolled_back old_checkout)
unfolding identity_of_snapshot origin_url source_for_url identity_of_version head_target_of
    release_target parse_target product_branch valid_version valid_git_commit bytes_eq after_prefix
    cut has_suffix is_swap_target commit_mismatch has_multiple_target_revisions validate_transaction
    transaction_command_allowed transaction_stage_allowed transaction_target_required check_target
    check_commits check_staged is_known_stage stage_eq workspace_mutation_stage
    validate_operation_id in_alphabet validate_product_version validate_commit
recover-rolled_back_example =
    recover-rolled_back (github ∷ []) some true recovering stopped old_checkout new_checkout
      checkout_revision checkout_revision refl refl (checkout, refl, refl) (checkout, refl, refl)
      refl refl refl

-- A world in which nothing is renamed any more once a repository is retired.
abbrev halted : Option Directory → Context → RenameRequest → Disk → (Bool × Option Cause) × Disk
halted none c r w = calm.rename c r w
halted (some d) c r w = ((false, some plain_cause), w)

abbrev halting : World Disk
halting = record calm { rename = λ c r w. halted w.dirs.previous c r w }

halted-law :
    (x : Option Directory) (c : Context) (r : RenameRequest) (w : Disk)
    → RenameLaw w.dirs r (halted x c r w).0 (halted x c r w).1.dirs
halted-law none c r w = calm-IsLawful.rename_law c r w
halted-law (some d) c r w = inl (refl, refl)

halting-IsLawful : IsLawful same_disk halting
halting-IsLawful = record {
  report_reads = calm-IsLawful.report_reads;
  ctx_err_reads = calm-IsLawful.ctx_err_reads;
  inspect_reads = calm-IsLawful.inspect_reads;
  inspect_missing = calm-IsLawful.inspect_missing;
  pin_reads = calm-IsLawful.pin_reads;
  read_reads = calm-IsLawful.read_reads;
  read_content = calm-IsLawful.read_content;
  close_reads = calm-IsLawful.close_reads;
  rename_law = λ c r w. halted-law w.dirs.previous c r w;
  remove_law = calm-IsLawful.remove_law;
  remove_clean = calm-IsLawful.remove_clean;
  read_update_reads = calm-IsLawful.read_update_reads;
  read_update_stored = calm-IsLawful.read_update_stored;
  remove_transaction_leaves = calm-IsLawful.remove_transaction_leaves;
  remove_transaction_done = calm-IsLawful.remove_transaction_done;
  write_transaction_leaves = calm-IsLawful.write_transaction_leaves;
  write_transaction_done = calm-IsLawful.write_transaction_done;
  read_environment_reads = calm-IsLawful.read_environment_reads;
  new_broken_reads = calm-IsLawful.new_broken_reads;
  write_environment_reads = calm-IsLawful.write_environment_reads;
  commit_environment_reads = calm-IsLawful.commit_environment_reads;
}

abbrev both_checkouts : Disk
both_checkouts = record {
  dirs = record { repository = some old_checkout; update = some new_checkout; previous = none };
  stored = none;
}

abbrev syncing : SwapRequest
syncing = record swapping { transaction = record staged { command = codes "workspace sync" } }

-- The swap ends between its two renames.
swap_halted :
    (swap halting true syncing both_checkouts).1 ≡ stopped_between stopped old_checkout new_checkout
unfolding swap swap_started swap_transaction swap_previous swap_inspected retire_repository
    activate_update commit_swap remove_retired ◌>>=◌ ◌>>◌ ret swap_request_valid revision_valid
    parse_target product_branch valid_version valid_git_commit validate_transaction
    transaction_command_allowed transaction_stage_allowed transaction_target_required check_target
    check_commits check_staged is_known_stage stage_eq workspace_mutation_stage
    validate_operation_id in_alphabet validate_product_version validate_commit bytes_eq after_prefix
    cut has_suffix valid_revision_source_key is_cancellation map_rename_failure
swap_halted = refl

swap-recover-Settled_example :
    Settled
      (some old_checkout)
      new_checkout
      (recover calm
        (github ∷ [])
        some
        true
        recovering
        (stopped_between stopped old_checkout new_checkout)).1
unfolding bytes_eq
swap-recover-Settled_example =
    swap-recover-Settled same_disk halting halting-IsLawful same_disk calm calm-IsLawful
      (github ∷ []) some old_checkout new_checkout true syncing recovering stopped both_checkouts
      (stopped_between stopped old_checkout new_checkout) (refl, refl, refl) (sym swap_halted) refl
      refl (ap (λ x. x.0.0.recovered) recover-rolled_back_example)
