-- ===== src/Gitrepo/Recovery/Choice.antt =====
-- internal/gitrepo/recovery.go: the choice by the shape of the three directories ends well.
use auto_mas_runtime.Base.{
  ◌≡◌, ◌≢◌, refl, Bool, true, false, not, ◌&&◌, ◌||◌, [], ◌∷◌, Option, none, some, is_empty, arith,
}
use auto_mas_runtime.State.Transaction.{TransactionState}
use auto_mas_runtime.Gitrepo.Revision.{Snapshot}
use auto_mas_runtime.Gitrepo.Disk.{Directory, Disk, update_slot, previous_slot}
use auto_mas_runtime.Gitrepo.World.{caller_context, World, ret}
use auto_mas_runtime.Gitrepo.World.Rules.{Triple, IsLawful, if-Triple, weaken-Triple}
use auto_mas_runtime.Gitrepo.Recovery.{
  RecoveryPath, missing_path, incomplete_path, valid_path, RecoveryOutcome, no_recovery,
}
use auto_mas_runtime.Gitrepo.Recovery.Environment.{RecoveryRequest}
use auto_mas_runtime.Gitrepo.Recovery.Shapes.{
  recover_missing, recover_active, recover_present, recover_swap,
}
use auto_mas_runtime.Gitrepo.Recovery.Paths.{
  is_missing, is_incomplete, is_valid, is_swap_target, has_multiple_target_revisions,
  completes_previous,
}
use auto_mas_runtime.Gitrepo.Recovery.Ends.{Ends, Known, missing, stays, discard_update_lem}
use auto_mas_runtime.Gitrepo.Recovery.Cases.{
  cleared, complete_active_target_lem, roll_back_lem, roll_forward_lem,
}

module _ {σ : Type 0} {disk : σ → Disk} {world : World σ} (lawful : IsLawful disk world) where
  module _ (old : Option Directory) (new : Directory) (E : Option Directory → Type 0)
      (clear : E none) where
    refused :
        (r u p : RecoveryPath) (x : RecoveryOutcome)
        → x.0.recovered ≡ false
        → Triple disk (λ d. Known old new r u p d.dirs) (ret x) (Ends old new E)
    refused r u p x h = stays lawful old new E x h (λ d k. k.0)

    recover_missing_lem :
        (request : RecoveryRequest) (t : TransactionState) (r u p : RecoveryPath)
        → Triple disk
            (λ d. Known old new r u p d.dirs)
            (recover_missing world request t u p)
            (Ends old new E)
    unfolding recover_missing
    recover_missing_lem request t r u (valid_path q id) =
        if-Triple (is_swap_target t u || is_missing u)
          (λ h. weaken-Triple (λ d k. (k.0, k.2)) (roll_back_lem lawful old new E clear t id u))
          (λ h. refused r u (valid_path q id) _ refl)
    recover_missing_lem request t r (valid_path q id) missing_path =
        if-Triple (is_swap_target t (valid_path q id))
          (λ h.
            weaken-Triple (λ d k. (k.0, (k.2.0, k.2.2, readable (k.2.0) (k.2.1) (k.2.3)), k.3))
              (roll_forward_lem lawful old new E clear request t q id))
          (λ h. refused r (valid_path q id) missing_path _ refl)
      where
        readable : (x : Directory) (s : Snapshot) → x.content ≡ some s → x.content ≢ none
        readable x s h k = absurd (ground (arith, h, k))
    recover_missing_lem request t r missing_path missing_path =
        refused r missing_path missing_path _ refl
    recover_missing_lem request t r (incomplete_path i) missing_path =
        refused r (incomplete_path i) missing_path _ refl
    recover_missing_lem request t r missing_path (incomplete_path i) =
        refused r missing_path (incomplete_path i) _ refl
    recover_missing_lem request t r (incomplete_path j) (incomplete_path i) =
        refused r (incomplete_path j) (incomplete_path i) _ refl
    recover_missing_lem request t r (valid_path q j) (incomplete_path i) =
        refused r (valid_path q j) (incomplete_path i) _ refl

    -- A repository that is the target, with no update beside it.
    active_lem :
        (request : RecoveryRequest) (t : TransactionState) (ok : Bool) (r u p : RecoveryPath)
        → is_swap_target t r ≡ true
        → Triple disk
            (λ d. Known old new r u p d.dirs)
            (recover_active world request t ok r u p)
            (Ends old new E)
    unfolding recover_active is_swap_target
    active_lem request t ok missing_path u p h = absurd (ground (arith, h))
    active_lem request t ok (incomplete_path i) u p h = absurd (ground (arith, h))
    active_lem request t ok (valid_path q i) u p h =
        if-Triple (not (is_missing u) || not (is_missing p) && not (is_valid p) && not ok)
          (λ h. refused (valid_path q i) u p _ refl)
          (λ h.
            weaken-Triple
              (λ d k. (
                k.1.0,
                (k.0, k.1.2, missing update_slot u d.dirs (no_other (is_missing u) _ h) k.2, k.3),
              ))
              (complete_active_target_lem lawful old new E clear request t q p))
      where
        no_other : (b c : Bool) → (not b || c) ≡ false → b ≡ true
        no_other true c h = refl
        no_other false c h = absurd (ground (arith, h))

    recover_present_lem :
        (request : RecoveryRequest) (t : TransactionState) (ok : Bool) (r u p : RecoveryPath)
        → Triple disk
            (λ d. Known old new r u p d.dirs)
            (recover_present world request t ok r u p)
            (Ends old new E)
    unfolding recover_present
    recover_present_lem request t ok r u p =
        if-Triple (is_swap_target t r) (λ h. active_lem request t ok r u p h)
          (λ h.
            if-Triple (is_swap_target t u && is_missing p)
              (λ h.
                weaken-Triple
                  (λ d k. (
                    k.0,
                    k.2,
                    cleared lawful old new E clear d.dirs
                        (missing previous_slot p d.dirs (second _ _ h) k.3),
                  ))
                  (discard_update_lem lawful old new E caller_context false t u no_recovery refl))
              (λ h. refused r u p _ refl))
      where
        second : (b c : Bool) → (b && c) ≡ true → c ≡ true
        second b c h = ground (arith, h)

    pub recover_swap_lem :
        (request : RecoveryRequest) (t : TransactionState) (r u p : RecoveryPath)
        → Triple disk
            (λ d. Known old new r u p d.dirs)
            (recover_swap world request t r u p)
            (Ends old new E)
    unfolding recover_swap
    recover_swap_lem request t r u p =
        if-Triple (is_incomplete u) (λ h. refused r u p _ refl)
          (λ h.
            if-Triple
              (is_empty t.target_commit
                && has_multiple_target_revisions t.target_version (r ∷ u ∷ p ∷ []))
              (λ h. refused r u p _ refl)
              (λ h.
                if-Triple (is_incomplete p && not (completes_previous t r u p))
                  (λ h. refused r u p _ refl)
                  (λ h.
                    if-Triple (is_missing r) (λ h. recover_missing_lem request t r u p)
                      (λ h. recover_present_lem request t (completes_previous t r u p) r u p))))
