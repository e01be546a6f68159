-- ===== src/Gitrepo/Recovery/Safe.antt =====
-- internal/gitrepo/recovery.go: a whole recovery, in any lawful world.
use auto_mas_runtime.Base.{
  ◌≡◌, refl, sym, ◌∙◌, ◌⊎◌, inl, inr, Bool, true, false, not, ◌&&◌, ◌||◌, List, Option, none, some,
  Bytes, codes, is_none, if◌then◌else◌, arith,
}
use auto_mas_runtime.State.Stage.{
  Stage, stage_eq, workspace_clone, workspace_verify, workspace_swap, workspace_cleanup,
}
use auto_mas_runtime.State.Transaction.{TransactionState, update_kind, validate_transaction}
use auto_mas_runtime.Mirror.Source.{Source}
use auto_mas_runtime.Gitrepo.Failure.{Cause}
use auto_mas_runtime.Gitrepo.Disk.{
  Directory, Disk, repository_slot, update_slot, previous_slot, Intact,
}
use auto_mas_runtime.Gitrepo.World.{caller_context, World}
use auto_mas_runtime.Gitrepo.World.Rules.{
  Triple, IsLawful, given-Triple, >>=-Triple, >>=-read, >>-read, if-Triple, sum-Triple,
  weaken-Triple,
}
use auto_mas_runtime.Gitrepo.World.Calls.{is_cancellation-Reads}
use auto_mas_runtime.Gitrepo.Recovery.{RecoveryPath, no_recovery, is_target}
use auto_mas_runtime.Gitrepo.Recovery.Environment.{RecoveryRequest}
use auto_mas_runtime.Gitrepo.Recovery.Shapes.{discard_update}
use auto_mas_runtime.Gitrepo.Recovery.Paths.{refuse, is_valid}
use auto_mas_runtime.Gitrepo.Recovery.Whole.{
  is_staged, waits, commit_mismatch, update_policy, repository_policy, previous_policy,
  classification_failed, recover_staged, recover_classified, classify_previous, classify_update,
  classify_repository, recover_transaction, recover_unread, recover,
}
use auto_mas_runtime.Gitrepo.Recovery.Seen.{Seen, SeenOk, classify_path_lem}
use auto_mas_runtime.Gitrepo.Recovery.Ends.{Ends, Known, stays, discard_update_lem}
use auto_mas_runtime.Gitrepo.Recovery.Stepwise.{classification_error-Reads}
use auto_mas_runtime.Gitrepo.Recovery.Cases.{recover_before_swap_lem}
use auto_mas_runtime.Gitrepo.Recovery.Choice.{recover_swap_lem}

-- The previous path is clear, unless the transaction is one of `workspace stage` in
-- the clone or the verify stage.
abbrev pub ClearOf : Option TransactionState → Option Directory → Type 0
ClearOf stored previous =
    (t : TransactionState) → stored ≡ some t → is_staged t ≡ false → previous ≡ none

module _ {σ : Type 0} {disk : σ → Disk} {world : World σ} (lawful : IsLawful disk world)
    (git_sources : List Source) (parse_version : Bytes → Option Bytes) (old : Option Directory)
    (new : Directory) (stored : Option TransactionState) where
  abbrev Kept : Disk → Type 0
  Kept d = Intact old new d.dirs

  classification_failed_lem :
      {P : Disk → Type 0} (stage : Stage) (reason : Bytes) (e : Cause)
      → ((d : Disk) → P d → Kept d)
      → Triple disk P
          (classification_failed world git_sources parse_version stage reason e)
          (Ends old new (ClearOf stored))
  unfolding classification_failed
  classification_failed_lem stage reason e h =
      >>=-read (classification_error-Reads lawful stage reason e)
        (λ f. stays lawful old new (ClearOf stored) _ refl h)

  recover_classified_lem :
      (request : RecoveryRequest) (t : TransactionState) (r u p : RecoveryPath)
      → Triple disk
          (λ d. Known old new r u p d.dirs)
          (recover_classified world git_sources parse_version request t r u p)
          (Ends old new (ClearOf stored))
  unfolding recover_classified
  recover_classified_lem request t r u p =
      if-Triple (commit_mismatch t r u p)
        (λ h. stays lawful old new (ClearOf stored) _ refl (λ d k. k.0))
        (λ h.
          if-Triple (stage_eq t.stage workspace_clone || stage_eq t.stage workspace_verify)
            (λ h. recover_before_swap_lem lawful old new (ClearOf stored) clear t r u p)
            (λ h.
              if-Triple (stage_eq t.stage workspace_swap || stage_eq t.stage workspace_cleanup)
                (λ h. recover_swap_lem lawful old new (ClearOf stored) clear request t r u p)
                (λ h. stays lawful old new (ClearOf stored) _ refl (λ d k. k.0))))
    where
      clear : ClearOf stored none
      clear t h k = refl

  classify_previous_lem :
      (request : RecoveryRequest) (t : TransactionState) (r u : RecoveryPath)
      → Triple disk
          (λ d. Kept d × Seen repository_slot r d.dirs × Seen update_slot u d.dirs)
          (classify_previous world git_sources parse_version request t r u)
          (Ends old new (ClearOf stored))
  unfolding classify_previous
  classify_previous_lem request t r u =
      >>=-Triple
        (classify_path_lem lawful git_sources parse_version
          (λ d. Intact old new d × Seen repository_slot r d × Seen update_slot u d) previous_slot
          (previous_policy t))
        (λ x. found x)
    where
      found :
          (x : Cause ⊎ RecoveryPath)
          → Triple disk
              (λ d.
                (Kept d × Seen repository_slot r d.dirs × Seen update_slot u d.dirs)
                × SeenOk previous_slot x d.dirs)
              (elim x [
                | inl e ↦
                    classification_failed world git_sources parse_version t.stage
                      (codes "previous_unknown")
                      e
                | inr p ↦ recover_classified world git_sources parse_version request t r u p
              ])
              (Ends old new (ClearOf stored))
      found (inl e) = classification_failed_lem t.stage (codes "previous_unknown") e (λ d k. k.0.0)
      found (inr p) =
          weaken-Triple (λ d k. (k.0.0, k.0.1, k.0.2, k.1)) (recover_classified_lem request t r u p)

  classify_update_lem :
      (request : RecoveryRequest) (t : TransactionState) (r : RecoveryPath)
      → Triple disk
          (λ d. Kept d × Seen repository_slot r d.dirs)
          (classify_update world git_sources parse_version request t r)
          (Ends old new (ClearOf stored))
  unfolding classify_update
  classify_update_lem request t r =
      >>=-Triple
        (classify_path_lem lawful git_sources parse_version
          (λ d. Intact old new d × Seen repository_slot r d) update_slot (update_policy t))
        (λ x. found x)
    where
      found :
          (x : Cause ⊎ RecoveryPath)
          → Triple disk
              (λ d. (Kept d × Seen repository_slot r d.dirs) × SeenOk update_slot x d.dirs)
              (elim x [
                | inl e ↦
                    classification_failed world git_sources parse_version t.stage
                      (codes "update_unknown")
                      e
                | inr u ↦ classify_previous world git_sources parse_version request t r u
              ])
              (Ends old new (ClearOf stored))
      found (inl e) = classification_failed_lem t.stage (codes "update_unknown") e (λ d k. k.0.0)
      found (inr u) =
          weaken-Triple (λ d k. (k.0.0, k.0.1, k.1)) (classify_previous_lem request t r u)

  classify_repository_lem :
      (request : RecoveryRequest) (t : TransactionState)
      → Triple disk Kept
          (classify_repository world git_sources parse_version request t)
          (Ends old new (ClearOf stored))
  unfolding classify_repository
  classify_repository_lem request t =
      >>=-Triple
        (classify_path_lem lawful git_sources parse_version (Intact old new) repository_slot
          (repository_policy t))
        (λ x. found x)
    where
      found :
          (x : Cause ⊎ RecoveryPath)
          → Triple disk
              (λ d. Kept d × SeenOk repository_slot x d.dirs)
              (elim x [
                | inl e ↦
                    classification_failed world git_sources parse_version t.stage
                      (codes "repository_unknown")
                      e
                | inr r ↦ classify_update world git_sources parse_version request t r
              ])
              (Ends old new (ClearOf stored))
      found (inl e) = classification_failed_lem t.stage (codes "repository_unknown") e (λ d k. k.0)
      found (inr r) = classify_update_lem request t r

  recover_staged_lem :
      (t : TransactionState)
      → stored ≡ some t
      → is_staged t ≡ true
      → Triple disk Kept
          (recover_staged world git_sources parse_version t)
          (Ends old new (ClearOf stored))
  unfolding recover_staged
  recover_staged_lem t ht hs =
      >>=-Triple
        (classify_path_lem lawful git_sources parse_version (Intact old new) update_slot
          (update_policy t))
        (λ x. found x)
    where
      waiting : (previous : Option Directory) → ClearOf stored previous
      waiting previous t' h k = absurd (ground (arith, hs, h, k, ht))

      found :
          (x : Cause ⊎ RecoveryPath)
          → Triple disk
              (λ d. Kept d × SeenOk update_slot x d.dirs)
              (elim x [
                | inl e ↦
                    classification_failed world git_sources parse_version t.stage
                      (codes "staged_update_unknown")
                      e
                | inr path ↦
                    if is_valid path && not (is_target t.target_version path)
                    then refuse t.stage (codes "staged_update_identity")
                    else discard_update world caller_context false t path no_recovery
              ])
              (Ends old new (ClearOf stored))
      found (inl e) =
          classification_failed_lem t.stage (codes "staged_update_unknown") e (λ d k. k.0)
      found (inr u) =
          if-Triple (is_valid u && not (is_target t.target_version u))
            (λ h. stays lawful old new (ClearOf stored) _ refl (λ d k. k.0))
            (λ h.
              weaken-Triple (λ d k. (k.0, k.1, waiting d.dirs.previous))
                (discard_update_lem lawful old new (ClearOf stored) caller_context false t u
                  no_recovery refl))

  recover_transaction_lem :
      (target_first : Bool) (request : RecoveryRequest) (t : TransactionState)
      → stored ≡ some t
      → Triple disk Kept
          (recover_transaction world git_sources parse_version target_first request t)
          (Ends old new (ClearOf stored))
  unfolding recover_transaction
  recover_transaction_lem target_first request t ht =
      if-Triple (not (is_none (validate_transaction target_first update_kind t)))
        (λ h. stays lawful old new (ClearOf stored) _ refl (λ d k. k))
        (λ h.
          if-Triple (waits request t) (λ h. stays lawful old new (ClearOf stored) _ refl (λ d k. k))
            (λ h.
              if-Triple (not (world.paths_ok t.operation_id))
                (λ h. stays lawful old new (ClearOf stored) _ refl (λ d k. k))
                (λ h.
                  if-Triple (is_staged t) (λ h. recover_staged_lem t ht h)
                    (λ h. classify_repository_lem request t))))

  recover_unread_lem :
      (e : Cause)
      → Triple disk Kept
          (recover_unread world git_sources parse_version e)
          (Ends old new (ClearOf stored))
  unfolding recover_unread
  recover_unread_lem e =
      if-Triple e.not_found (λ h. stays lawful old new (ClearOf stored) _ refl (λ d k. k))
        (λ h.
          >>=-read (is_cancellation-Reads lawful caller_context e)
            (λ b. stays lawful old new (ClearOf stored) _ refl (λ d k. k)))

  read_update_lem :
      Triple disk
        (λ d. Kept d × (d.stored ≡ stored))
        world.read_update
        (λ x d. ((t : TransactionState) → x ≡ inr t → stored ≡ some t) × Kept d)
  read_update_lem = record {
    run = λ w p. (
      λ t h. sym p.1 ∙ lawful.read_update_stored w t h,
      rw (lawful.read_update_reads.same w) p.0,
    );
  }

  pub recover_lem :
      (target_first : Bool) (request : RecoveryRequest)
      → Triple disk
          (λ d. Kept d × (d.stored ≡ stored))
          (recover world git_sources parse_version target_first request)
          (Ends old new (ClearOf stored))
  unfolding recover
  recover_lem target_first request = >>-read (lawful.report_reads workspace_cleanup) (
      >>=-Triple read_update_lem (λ x. given-Triple (λ hx.
        sum-Triple x (λ e h. recover_unread_lem e)
          (λ t h. recover_transaction_lem target_first request t (hx t h)))))
