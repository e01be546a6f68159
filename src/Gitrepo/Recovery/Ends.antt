-- ===== src/Gitrepo/Recovery/Ends.antt =====
-- internal/gitrepo/recovery.go: how a recovery ends, and what its last steps leave.
use Prim.{tt}
use auto_mas_runtime.Base.{
  ℕ, ◌≡◌, ◌≢◌, ◌∙◌, inl, inr, Bool, true, false, Option, none, some, is_none, arith,
}
use auto_mas_runtime.State.Transaction.{TransactionState}
use auto_mas_runtime.Gitrepo.Failure.{RepoError}
use auto_mas_runtime.Gitrepo.Disk.{
  Directory, Dirs, Disk, Slot, get, repository_slot, update_slot, previous_slot, Intact,
}
use auto_mas_runtime.Gitrepo.World.{Context, World, ret}
use auto_mas_runtime.Gitrepo.World.Rules.{
  Triple, IsLawful, given-Triple, ret-Triple, >>=-Triple, >>=-read, >>-read, if-Triple,
  option-Triple, weaken-Triple,
}
use auto_mas_runtime.Gitrepo.World.Calls.{map_write_failure-Reads}
use auto_mas_runtime.Gitrepo.Recovery.{
  RecoveryPath, missing_path, incomplete_path, valid_path, RecoveryResult, RecoveryOutcome,
}
use auto_mas_runtime.Gitrepo.Recovery.Step.{finish_recovery}
use auto_mas_runtime.Gitrepo.Recovery.Shapes.{discard_update}
use auto_mas_runtime.Gitrepo.Recovery.Paths.{
  is_missing, directory_identity, update_removal, retired_removal, rollback, activation,
}
use auto_mas_runtime.Gitrepo.Recovery.Seen.{Seen}
use auto_mas_runtime.Gitrepo.Recovery.Moves.{
  drop_update, drop_update-previous, drop_previous, drop_previous-update, put_back,
  put_back-previous, put_new, put_new-update,
}
use auto_mas_runtime.Gitrepo.Recovery.Stepwise.{RenameEnd, RemoveEnd, remove_recovery_lem}

-- How a recovery ends: the disk is `Intact`, and when it reports success the transaction and the update are
-- gone and `E` holds of the previous repository.
abbrev pub Ends :
    Option Directory → Directory → (Option Directory → Type 0) → RecoveryOutcome → Disk → Type 0
Ends old new E x d =
    Intact old new d.dirs
    × (x.0.recovered ≡ true → (d.stored ≡ none) × (d.dirs.update ≡ none) × E d.dirs.previous)

pub missing :
    (slot : Slot) (u : RecoveryPath) (d : Dirs)
    → is_missing u ≡ true
    → Seen slot u d
    → get slot d ≡ none
missing slot missing_path d h p = p
missing slot (incomplete_path i) d h p = absurd (ground (arith, h))
missing slot (valid_path r i) d h p = absurd (ground (arith, h))

-- What is known once the three paths are classified.
abbrev pub Known :
    Option Directory → Directory → RecoveryPath → RecoveryPath → RecoveryPath → Dirs → Type 0
Known old new r u p d =
    Intact old new d × Seen repository_slot r d × Seen update_slot u d × Seen previous_slot p d

module _ {σ : Type 0} {disk : σ → Disk} {world : World σ} (lawful : IsLawful disk world) where
  module _ (old : Option Directory) (new : Directory) (E : Option Directory → Type 0) where
    abbrev pub Cleared : Dirs → Type 0
    Cleared d = Intact old new d × (d.update ≡ none) × E d.previous

    -- A recovery that stops without success.
    pub stays :
        {P : Disk → Type 0} (x : RecoveryOutcome)
        → x.0.recovered ≡ false
        → ((d : Disk) → P d → Intact old new d.dirs)
        → Triple disk P (ret x) (Ends old new E)
    stays x h k = ret-Triple x (λ d p. (k d p, λ r. absurd (ground (arith, h, r))))

    removed :
        (c : Context) (t : TransactionState)
        → Triple disk
            (λ d. Cleared d.dirs)
            (world.remove_transaction c t)
            (λ x d. Cleared d.dirs × (x ≡ none → d.stored ≡ none))
    removed c t = record {
      run = λ w p. (
        rw ((lawful.remove_transaction_leaves c t).same_dirs w) p,
        λ h. lawful.remove_transaction_done c t w h,
      );
    }

    pub finish_recovery_lem :
        (c : Context) (b : Bool) (t : TransactionState) (result : RecoveryResult)
        → result.recovered ≡ false
        → Triple disk (λ d. Cleared d.dirs) (finish_recovery world c b t result) (Ends old new E)
    unfolding finish_recovery
    finish_recovery_lem c b t result hr = >>-read (lawful.report_reads _) (
        >>=-Triple (removed c t) (λ x.
          option-Triple x
            (λ e h.
              if-Triple b (λ hb. stays _ hr (λ d p. p.0.0))
                (λ hb.
                  >>=-read (map_write_failure-Reads lawful c _ e) (λ f. stays _ hr (λ d p. p.0.0))))
            (λ h. ret-Triple _ (λ d p. (p.0.0, λ k. (p.1 h, p.0.1, p.0.2))))))

    -- After the removal of an update.
    dropped :
        (u : RecoveryPath) (e : Option RepoError) (d : Dirs)
        → RemoveEnd
            (update_removal (directory_identity u))
            (λ a. Intact old new a × Seen update_slot u a × E a.previous)
            e
            d
        → Intact old new d × (e ≡ none → d.update ≡ none) × E d.previous
    dropped u e d (a, p, s, h) =
        (drop_update old new a d p.0 s, h, rw (drop_update-previous a d s) p.2)

    pub discard_update_lem :
        (c : Context) (b : Bool) (t : TransactionState) (u : RecoveryPath) (result : RecoveryResult)
        → result.recovered ≡ false
        → Triple disk
            (λ d. Intact old new d.dirs × Seen update_slot u d.dirs × E d.dirs.previous)
            (discard_update world c b t u result)
            (Ends old new E)
    unfolding discard_update
    discard_update_lem c b t u result hr =
        if-Triple (is_missing u)
          (λ h.
            weaken-Triple (λ d p. (p.0, missing update_slot u d.dirs h p.1, p.2))
              (finish_recovery_lem c b t result hr))
          (λ h.
            >>=-Triple
              (remove_recovery_lem lawful
                (λ a. Intact old new a × Seen update_slot u a × E a.previous) c b _ result hr)
              (λ x. given-Triple (λ hx.
                weaken-Triple (λ d p. dropped u x.1 d.dirs p)
                  (option-Triple x.1 (λ e k. stays _ hx (λ d p. p.0))
                    (λ k.
                      weaken-Triple (λ d p. (p.0, p.1 k, p.2))
                        (finish_recovery_lem c b t x.0 hx))))))

    -- After the removal of the previous repository.
    pub retired :
        (p : RecoveryPath) (x : Directory) (e : Option RepoError) (d : Dirs)
        → RemoveEnd
            (retired_removal (directory_identity p))
            (λ a. Intact old new a × (a.repository ≡ some x) × (a.update ≡ none))
            e
            d
        → Intact old new d × (d.update ≡ none) × (e ≡ none → d.previous ≡ none)
    retired p x e d (a, q, s, h) =
        (drop_previous old new a d x q.0 q.1 s, drop_previous-update a d s ∙ q.2, h)

    -- After the old repository is put back.
    pub back :
        (id : ℕ) (u : RecoveryPath) (e : Option RepoError) (d : Dirs)
        → RenameEnd (rollback id) (λ a. Intact old new a × Seen update_slot u a) e d
        → Intact old new d × (is_none e ≡ true → Seen update_slot u d × (d.previous ≡ none))
    back id u e d (a, q, s) = elim s [
      | inl (h, k) ↦ (rw h q.0, λ j. absurd (ground (arith, k, j)))
      | inr m ↦ (
        put_back old new a d id q.0 m,
        λ j. (same_update u a d (put_back-previous a d id m).1 q.1, (put_back-previous a d id m).0),
      )
    ]
      where
        same_update :
            (u : RecoveryPath) (a d : Dirs)
            → d.update ≡ a.update
            → Seen update_slot u a
            → Seen update_slot u d
        same_update missing_path a d h s = h ∙ s
        same_update (incomplete_path i) a d h s = tt
        same_update (valid_path r i) a d h s = (s.0, s.1, h ∙ s.2, s.3)

    -- After an update that can be read took the empty place.
    pub forward :
        (id : ℕ) (e : Option RepoError) (d : Dirs)
        → RenameEnd
            (activation id)
            (λ a.
              Intact old new a
              × ((x : Directory) × (a.update ≡ some x) × (x.content ≢ none))
              × (a.previous ≡ none))
            e
            d
        → Intact old new d × (is_none e ≡ true → (d.update ≡ none) × (d.previous ≡ none))
    forward id e d (a, (i, (x, u, c), v), s) = elim s [
      | inl (h, k) ↦ (rw h i, λ j. absurd (ground (arith, k, j)))
      | inr m ↦ (
        put_new old new a d id x i u c m,
        λ j. ((put_new-update a d id m).0, (put_new-update a d id m).1 ∙ v),
      )
    ]
