-- ===== src/Gitrepo/Rollback.antt =====
-- internal/gitrepo/recovery.go: the recovery of a swap that stopped between its two renames, in a world
-- without faults.
use auto_mas_runtime.Base.{
  ◌≡◌, refl, inr, Bool, true, false, ◌&&◌, List, [], ◌∷◌, Option, none, some, Bytes, is_empty,
  arith,
}
use auto_mas_runtime.State.Stage.{stage_eq, workspace_swap}
use auto_mas_runtime.State.Transaction.{TransactionState, update_kind, validate_transaction}
use auto_mas_runtime.Mirror.Source.{Source}
use auto_mas_runtime.Gitrepo.Revision.{Snapshot, Revision, identity_of_snapshot}
use auto_mas_runtime.Gitrepo.Disk.{
  Directory, Disk, Slot, get, repository_slot, update_slot, previous_slot,
}
use auto_mas_runtime.Gitrepo.World.{ret, ◌>>=◌, ◌>>◌}
use auto_mas_runtime.Gitrepo.Recovery.{
  RecoveryResult, missing_path, valid_path, PathPolicy, no_recovery, classify_path,
  classify_started, classify_inspected, classify_lease, classify_pinned, classify_read,
}
use auto_mas_runtime.Gitrepo.Recovery.Step.{rename_recovery, remove_recovery, finish_recovery}
use auto_mas_runtime.Gitrepo.Recovery.Environment.{RecoveryRequest}
use auto_mas_runtime.Gitrepo.Recovery.Shapes.{
  recover_swap, recover_missing, roll_back, discard_update,
}
use auto_mas_runtime.Gitrepo.Recovery.Paths.{is_swap_target, has_multiple_target_revisions}
use auto_mas_runtime.Gitrepo.Recovery.Whole.{
  repository_policy, update_policy, previous_policy, commit_mismatch, recover_classified,
  classify_previous, classify_update, classify_repository, recover_transaction, recover,
}
use auto_mas_runtime.Gitrepo.Calm.{calm}

abbrev pub stopped_between : TransactionState → Directory → Directory → Disk
stopped_between t old new = record {
  dirs = record { repository = none; update = some new; previous = some old };
  stored = some t;
}

abbrev pub rolled_back : Directory → Disk
rolled_back old = record {
  dirs = record { repository = some old; update = none; previous = none };
  stored = none;
}

-- The result of a rollback that succeeded.
abbrev pub rollback_result : RecoveryResult
rollback_result = record no_recovery {
  recovered = true;
  mutation_applied = true;
  transaction_removed = true;
}

module _ (git_sources : List Source) (parse_version : Bytes → Option Bytes) where
  -- A directory whose identity can be read.
  abbrev Names : Directory → Revision → Type 0
  Names d r =
      (s : Snapshot) × (d.content ≡ some s)
      × (identity_of_snapshot git_sources parse_version s ≡ some r)

  classify_missing :
      (slot : Slot) (policy : PathPolicy) (w : Disk)
      → get slot w.dirs ≡ none
      → classify_path calm git_sources parse_version slot policy w ≡ (inr missing_path, w)
  unfolding classify_path classify_started classify_inspected ◌>>=◌ ret
  classify_missing slot policy w h = ground (arith, h)

  classify_valid :
      (slot : Slot) (policy : PathPolicy) (w : Disk) (d : Directory) (r : Revision)
      → get slot w.dirs ≡ some d
      → Names d r
      → classify_path calm git_sources parse_version slot policy w ≡ (inr (valid_path r d.id), w)
  unfolding classify_path classify_started classify_inspected classify_lease classify_pinned
      classify_read ◌>>=◌ ret
  classify_valid slot policy w d r h (s, c, i) = ground (arith, h, c, i)

  roll_back-calm :
      (t : TransactionState) (old new : Directory) (r : Revision)
      → roll_back calm t old.id (valid_path r new.id) (stopped_between t old new)
        ≡ ((rollback_result, []), rolled_back old)
  unfolding roll_back rename_recovery discard_update remove_recovery finish_recovery ◌>>=◌ ◌>>◌ ret
  roll_back-calm t old new r = ground arith

  recover_swap-calm :
      (request : RecoveryRequest) (t : TransactionState) (old new : Directory) (q r : Revision)
      → is_swap_target t (valid_path r new.id) ≡ true
      → (is_empty t.target_commit
          && has_multiple_target_revisions t.target_version
              (missing_path ∷ valid_path r new.id ∷ valid_path q old.id ∷ []))
        ≡ false
      → recover_swap calm request t missing_path
          (valid_path r new.id)
          (valid_path q old.id)
          (stopped_between t old new)
        ≡ ((rollback_result, []), rolled_back old)
  unfolding recover_swap recover_missing
  recover_swap-calm request t old new q r ht hd = ground (arith, ht, hd, roll_back-calm t old new r)

  recover_classified-calm :
      (request : RecoveryRequest) (t : TransactionState) (old new : Directory) (q r : Revision)
      → t.stage ≡ workspace_swap
      → is_swap_target t (valid_path r new.id) ≡ true
      → commit_mismatch t missing_path (valid_path r new.id) (valid_path q old.id) ≡ false
      → (is_empty t.target_commit
          && has_multiple_target_revisions t.target_version
              (missing_path ∷ valid_path r new.id ∷ valid_path q old.id ∷ []))
        ≡ false
      → recover_classified calm git_sources parse_version request t missing_path
          (valid_path r new.id)
          (valid_path q old.id)
          (stopped_between t old new)
        ≡ ((rollback_result, []), rolled_back old)
  unfolding recover_classified stage_eq
  recover_classified-calm request t old new q r hs ht hm hd =
      ground (arith, ht, hm, hs, recover_swap-calm request t old new q r ht hd)

  classify_repository-calm :
      (request : RecoveryRequest) (t : TransactionState) (old new : Directory) (q r : Revision)
      → t.stage ≡ workspace_swap
      → Names old q
      → Names new r
      → is_swap_target t (valid_path r new.id) ≡ true
      → commit_mismatch t missing_path (valid_path r new.id) (valid_path q old.id) ≡ false
      → (is_empty t.target_commit
          && has_multiple_target_revisions t.target_version
              (missing_path ∷ valid_path r new.id ∷ valid_path q old.id ∷ []))
        ≡ false
      → classify_repository calm git_sources parse_version request t (stopped_between t old new)
        ≡ ((rollback_result, []), rolled_back old)
  unfolding classify_repository classify_update classify_previous ◌>>=◌
  classify_repository-calm request t old new q r hs hq hr ht hm hd = ground (
    arith,
    classify_missing repository_slot (repository_policy t) (stopped_between t old new) refl,
    classify_valid update_slot (update_policy t) (stopped_between t old new) new r refl hr,
    classify_valid previous_slot (previous_policy t) (stopped_between t old new) old q refl hq,
    recover_classified-calm request t old new q r hs ht hm hd,
  )

  -- A recovery of a swap that stopped between the two renames succeeds in a world without faults and puts
  -- the old repository back, when the transaction is valid and at the swap, both directories name a
  -- revision, the update is the target of the transaction, its commits agree with the two, and, without
  -- commits, no two of the paths name the target as different revisions.
  pub recover-rolled_back :
      (target_first : Bool) (request : RecoveryRequest) (t : TransactionState) (old new : Directory)
      (q r : Revision)
      → validate_transaction target_first update_kind t ≡ none
      → t.stage ≡ workspace_swap
      → Names old q
      → Names new r
      → is_swap_target t (valid_path r new.id) ≡ true
      → commit_mismatch t missing_path (valid_path r new.id) (valid_path q old.id) ≡ false
      → (is_empty t.target_commit
          && has_multiple_target_revisions t.target_version
              (missing_path ∷ valid_path r new.id ∷ valid_path q old.id ∷ []))
        ≡ false
      → recover calm git_sources parse_version target_first request (stopped_between t old new)
        ≡ ((rollback_result, []), rolled_back old)
  unfolding recover recover_transaction ◌>>=◌ ◌>>◌ ret stage_eq
  recover-rolled_back target_first request t old new q r hv hs hq hr ht hm hd =
      ground (arith, hv, hs, classify_repository-calm request t old new q r hs hq hr ht hm hd)
