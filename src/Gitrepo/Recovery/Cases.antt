-- ===== src/Gitrepo/Recovery/Cases.antt =====
-- internal/gitrepo/recovery.go: each shape of the three directories ends well.
use auto_mas_runtime.Base.{
  ℕ, ◌≡◌, ◌≢◌, refl, ap, Bool, true, false, not, ◌&&◌, ◌||◌, Option, none, some, is_none, is_empty,
  arith,
}
use auto_mas_runtime.State.Stage.{stage_eq, workspace_clone}
use auto_mas_runtime.State.Transaction.{TransactionState}
use auto_mas_runtime.Gitrepo.Revision.{Revision}
use auto_mas_runtime.Gitrepo.Failure.{RepoError}
use auto_mas_runtime.Gitrepo.Disk.{Directory, Dirs, Disk, update_slot, previous_slot, Intact}
use auto_mas_runtime.Gitrepo.World.{caller_context, committed_context, EnvironmentState, World}
use auto_mas_runtime.Gitrepo.World.Rules.{
  some-Triple, Triple, IsLawful, given-Triple, >>=-Triple, if-Triple, option-Triple, sum-Triple,
  weaken-Triple,
}
use auto_mas_runtime.Gitrepo.Recovery.{RecoveryPath, RecoveryResult, no_recovery, is_target}
use auto_mas_runtime.Gitrepo.Recovery.Environment.{RecoveryRequest}
use auto_mas_runtime.Gitrepo.Recovery.Shapes.{
  recover_before_swap, remove_previous, complete_active_target, roll_back, activation_failed,
  roll_forward,
}
use auto_mas_runtime.Gitrepo.Recovery.Paths.{
  is_missing, is_incomplete, is_valid, rollback, activation, differ,
}
use auto_mas_runtime.Gitrepo.Recovery.Seen.{Seen}
use auto_mas_runtime.Gitrepo.Recovery.Stepwise.{
  rename_recovery_lem, remove_recovery_lem, prepare_environment_lem, apply_environment_lem,
}
use auto_mas_runtime.Gitrepo.Recovery.Ends.{
  Ends, Known, missing, stays, finish_recovery_lem, discard_update_lem, retired, back, forward,
}

module _ {σ : Type 0} {disk : σ → Disk} {world : World σ} (lawful : IsLawful disk world) where
  module _ (old : Option Directory) (new : Directory) (E : Option Directory → Type 0)
      (clear : E none) where
    -- The previous path is missing, so `E` holds of it.
    pub cleared : (d : Dirs) → d.previous ≡ none → E d.previous
    cleared d h = rw h clear

    pub recover_before_swap_lem :
        (t : TransactionState) (r u p : RecoveryPath)
        → Triple disk
            (λ d. Known old new r u p d.dirs)
            (recover_before_swap world t r u p)
            (Ends old new E)
    unfolding recover_before_swap
    recover_before_swap_lem t r u p =
        if-Triple (is_missing r && is_target t.target_version u)
          (λ h. stays lawful old new E _ refl (λ d k. k.0))
          (λ h.
            if-Triple
              (is_empty t.target_commit
                && is_target t.target_version r
                && is_target t.target_version u
                && differ r u)
              (λ h. stays lawful old new E _ refl (λ d k. k.0))
              (λ h.
                if-Triple
                  (not (is_missing p)
                    || (is_valid u && not (is_target t.target_version u)
                        || is_incomplete u && not (stage_eq t.stage workspace_clone)))
                  (λ h. stays lawful old new E _ refl (λ d k. k.0))
                  (λ h.
                    weaken-Triple
                      (λ d k. (
                        k.0,
                        k.2,
                        cleared d.dirs
                            (missing previous_slot p d.dirs (no_previous (is_missing p) _ h) k.3),
                      ))
                      (discard_update_lem lawful old new E caller_context false t u no_recovery
                        refl))))
      where
        no_previous : (b c : Bool) → (not b || c) ≡ false → b ≡ true
        no_previous true c h = refl
        no_previous false c h = absurd (ground (arith, h))

    remove_previous_lem :
        (t : TransactionState) (p : RecoveryPath) (result : RecoveryResult) (x : Directory)
        → result.recovered ≡ false
        → Triple disk
            (λ d.
              Intact old new d.dirs
              × (d.dirs.repository ≡ some x)
              × (d.dirs.update ≡ none)
              × Seen previous_slot p d.dirs)
            (remove_previous world t p result)
            (Ends old new E)
    unfolding remove_previous
    remove_previous_lem t p result x hr =
        if-Triple (is_missing p)
          (λ h.
            weaken-Triple (λ d k. (k.0, k.2, cleared d.dirs (missing previous_slot p d.dirs h k.3)))
              (finish_recovery_lem lawful old new E committed_context true t result hr))
          (λ h.
            weaken-Triple (λ d k. (k.0, k.1, k.2))
              (>>=-Triple
                (remove_recovery_lem lawful
                  (λ a. Intact old new a × (a.repository ≡ some x) × (a.update ≡ none))
                  committed_context true _ result hr)
                (λ y. given-Triple (λ hy.
                  weaken-Triple (λ d k. retired lawful old new E p x y.1 d.dirs k)
                    (option-Triple y.1 (λ e k. stays lawful old new E _ hy (λ d k. k.0))
                      (λ k.
                        weaken-Triple (λ d q. (q.0, q.1, cleared d.dirs (q.2 k)))
                          (finish_recovery_lem lawful old new E committed_context true t y.0
                            hy)))))))

    pub complete_active_target_lem :
        (request : RecoveryRequest) (t : TransactionState) (r : Revision) (p : RecoveryPath)
        → Triple disk
            (λ d.
              (x : Directory) × (Intact old new d.dirs
                × (d.dirs.repository ≡ some x)
                × (d.dirs.update ≡ none)
                × Seen previous_slot p d.dirs))
            (complete_active_target world request t r p)
            (Ends old new E)
    unfolding complete_active_target
    complete_active_target_lem request t r p =
        >>=-Triple (prepare_environment_lem lawful _ committed_context request r true) (λ x.
          sum-Triple x (λ e h. stays lawful old new E _ refl (λ d k. k.1.0))
            (λ v h.
              >>=-Triple (apply_environment_lem lawful _ committed_context true v _ refl) (λ y.
                given-Triple (λ hy.
                  option-Triple y.1 (λ e k. stays lawful old new E _ hy (λ d k. k.1.0))
                    (λ k. some-Triple (λ x. remove_previous_lem t p y.0 x hy))))))

    pub roll_back_lem :
        (t : TransactionState) (id : ℕ) (u : RecoveryPath)
        → Triple disk
            (λ d. Intact old new d.dirs × Seen update_slot u d.dirs)
            (roll_back world t id u)
            (Ends old new E)
    unfolding roll_back
    roll_back_lem t id u =
        >>=-Triple
          (rename_recovery_lem lawful (λ a. Intact old new a × Seen update_slot u a) (rollback id)
            no_recovery refl)
          (λ y. given-Triple (λ hy.
            weaken-Triple (λ d k. back lawful old new E id u y.1 d.dirs k)
              (option-Triple y.1 (λ e k. stays lawful old new E _ hy (λ d k. k.0))
                (λ k.
                  weaken-Triple
                    (λ d q. (q.0, (q.1 (ap is_none k)).0, cleared d.dirs (q.1 (ap is_none k)).1))
                    (discard_update_lem lawful old new E committed_context true t u y.0 hy)))))

    activation_failed_lem :
        (v : Option EnvironmentState) (result : RecoveryResult) (e : RepoError)
        → result.recovered ≡ false
        → Triple disk
            (λ d. Intact old new d.dirs)
            (activation_failed world v result e)
            (Ends old new E)
    unfolding activation_failed
    activation_failed_lem v result e hr =
        if-Triple (not result.mutation_applied) (λ h. stays lawful old new E _ hr (λ d k. k))
          (λ h.
            >>=-Triple (apply_environment_lem lawful _ committed_context true v result hr)
              (λ y. given-Triple (λ hy. stays lawful old new E _ hy (λ d k. k))))

    -- The update can be read.
    abbrev Readable : Dirs → Type 0
    Readable d = (x : Directory) × (d.update ≡ some x) × (x.content ≢ none)

    pub roll_forward_lem :
        (request : RecoveryRequest) (t : TransactionState) (r : Revision) (id : ℕ)
        → Triple disk
            (λ d. Intact old new d.dirs × Readable d.dirs × (d.dirs.previous ≡ none))
            (roll_forward world request t r id)
            (Ends old new E)
    unfolding roll_forward
    roll_forward_lem request t r id =
        >>=-Triple (prepare_environment_lem lawful _ caller_context request r false) (λ x.
          sum-Triple x (λ e h. stays lawful old new E _ refl (λ d k. k.0))
            (λ v h.
              >>=-Triple
                (rename_recovery_lem lawful
                  (λ a. Intact old new a × Readable a × (a.previous ≡ none)) (activation id) _ refl)
                (λ y. given-Triple (λ hy.
                  weaken-Triple (λ d k. forward lawful old new E id y.1 d.dirs k)
                    (option-Triple y.1
                      (λ e k. weaken-Triple (λ d k. k.0) (activation_failed_lem v y.0 e hy))
                      (λ k.
                        >>=-Triple (apply_environment_lem lawful _ committed_context true v y.0 hy)
                          (λ z. given-Triple (λ hz.
                            option-Triple z.1 (λ e j. stays lawful old new E _ hz (λ d k. k.0))
                              (λ j.
                                weaken-Triple
                                  (λ d q. (
                                    q.0,
                                    (q.1 (ap is_none k)).0,
                                    cleared d.dirs (q.1 (ap is_none k)).1,
                                  ))
                                  (finish_recovery_lem lawful old new E committed_context true t z.0
                                    hz))))))))))
