-- ===== src/Gitrepo/Recovery/Seen.antt =====
-- internal/gitrepo/recovery.go: a path that is classified stands on the disk as the class says, and to
-- classify changes nothing.
use Prim.{Unit, tt}
use auto_mas_runtime.Base.{
  ℕ, ◌≡◌, refl, ◌⊎◌, inl, inr, Bool, true, false, not, ◌&&◌, List, Option, none, some, Bytes, ◌==◌,
  arith,
}
use auto_mas_runtime.Mirror.Source.{Source}
use auto_mas_runtime.Gitrepo.Revision.{Snapshot, identity_of_snapshot}
use auto_mas_runtime.Gitrepo.Failure.{Cause}
use auto_mas_runtime.Gitrepo.Disk.{Directory, Dirs, Disk, Slot, get}
use auto_mas_runtime.Gitrepo.World.{caller_context, DirectoryInspection, World}
use auto_mas_runtime.Gitrepo.World.Rules.{
  Triple, IsLawful, ret-Triple, choose-Triple, >>=-Triple, >>=-read, if-Triple, option-Triple,
  sum-Triple, weaken-Triple,
}
use auto_mas_runtime.Gitrepo.World.Calls.{inspect-Triple, is_cancellation-Reads}
use auto_mas_runtime.Gitrepo.Recovery.{
  RecoveryPath, missing_path, incomplete_path, valid_path, PathPolicy, classify_read,
  classify_pinned, classify_lease, classify_inspected, classify_started, classify_path,
}

-- What a class says of a path.
abbrev pub Seen : Slot → RecoveryPath → Dirs → Type 0
Seen slot missing_path d = get slot d ≡ none
Seen slot (incomplete_path id) d = Unit {0}
Seen slot (valid_path r id) d =
    (x : Directory) × (s : Snapshot) × (get slot d ≡ some x) × (x.content ≡ some s)

abbrev pub SeenOk : Slot → Cause ⊎ RecoveryPath → Dirs → Type 0
SeenOk slot (inl e) d = Unit {0}
SeenOk slot (inr path) d = Seen slot path d

module _ {σ : Type 0} {disk : σ → Disk} {world : World σ} (lawful : IsLawful disk world)
    (git_sources : List Source) (parse_version : Bytes → Option Bytes) (P : Dirs → Type 0) where
  -- The directory that was read, with what was read of it.
  abbrev Content : Slot → Cause ⊎ Snapshot → Dirs → Type 0
  Content slot (inl e) d = Unit {0}
  Content slot (inr s) d = (x : Directory) × (get slot d ≡ some x) × (x.content ≡ some s)

  read-Content :
      (slot : Slot)
      → Triple disk (λ d. P d.dirs) (world.read slot) (λ x d. P d.dirs × Content slot x d.dirs)
  read-Content slot = record {
    run = λ w p. rw ((lawful.read_reads slot).same w) (p, go w (world.read slot w).0 refl);
  }
    where
      go : (w : σ) (x : Cause ⊎ Snapshot) → (world.read slot w).0 ≡ x → Content slot x (disk w).dirs
      go w (inl e) h = tt
      go w (inr s) h = lawful.read_content slot w s h

  classify_read_lem :
      (policy : PathPolicy) (slot : Slot) (id : ℕ) (x : Cause ⊎ Snapshot)
      → Triple disk
          (λ d. P d.dirs × Content slot x d.dirs)
          (classify_read world git_sources parse_version policy id x)
          (λ x d. P d.dirs × SeenOk slot x d.dirs)
  unfolding classify_read
  classify_read_lem policy slot id (inl e) =
      if-Triple (not policy.allow_unreadable) (λ h. ret-Triple _ (λ d p. (p.0, tt)))
        (λ h. >>=-read (is_cancellation-Reads lawful _ e) (λ b.
          choose-Triple (not b && not e.permission) _ _ (λ d p. (p.0, tt)) (λ d p. (p.0, tt))))
  classify_read_lem policy slot id (inr s) =
      option-Triple (identity_of_snapshot git_sources parse_version s)
        (λ r h. ret-Triple _ (λ d p. (p.0, (p.1.0, s, p.1.1, p.1.2))))
        (λ h. choose-Triple policy.allow_invalid_identity _ _ (λ d p. (p.0, tt)) (λ d p. (p.0, tt)))

  classify_pinned_lem :
      (policy : PathPolicy) (slot : Slot) (id : ℕ)
      → Triple disk
          (λ d. P d.dirs)
          (classify_pinned world git_sources parse_version policy slot id)
          (λ x d. P d.dirs × SeenOk slot x d.dirs)
  unfolding classify_pinned
  classify_pinned_lem policy slot id = >>=-Triple (read-Content slot) (λ x.
      >>=-read (lawful.close_reads slot) (λ c.
        option-Triple c (λ e h. ret-Triple _ (λ d p. (p.0, tt)))
          (λ h. classify_read_lem policy slot id x)))

  classify_lease_lem :
      (policy : PathPolicy) (slot : Slot) (id : ℕ)
      → Triple disk
          (λ d. P d.dirs)
          (classify_lease world git_sources parse_version policy slot id)
          (λ x d. P d.dirs × SeenOk slot x d.dirs)
  unfolding classify_lease
  classify_lease_lem policy slot id = >>=-read (lawful.pin_reads slot) (λ x.
      sum-Triple x (λ e h. ret-Triple _ (λ d p. (p, tt)))
        (λ lease h.
          option-Triple lease
            (λ identity h.
              option-Triple identity
                (λ pinned h.
                  if-Triple (id == pinned) (λ h. classify_pinned_lem policy slot pinned)
                    (λ h. >>=-read (lawful.close_reads slot) (λ c. ret-Triple _ (λ d p. (p, tt)))))
                (λ h. >>=-read (lawful.close_reads slot) (λ c. ret-Triple _ (λ d p. (p, tt)))))
            (λ h. ret-Triple _ (λ d p. (p, tt)))))

  classify_inspected_lem :
      (policy : PathPolicy) (slot : Slot) (x : Cause ⊎ DirectoryInspection)
      → Triple disk
          (λ d.
            P d.dirs
            × ((i : DirectoryInspection) → x ≡ inr i → i.exists ≡ false → get slot d.dirs ≡ none))
          (classify_inspected world git_sources parse_version policy slot x)
          (λ x d. P d.dirs × SeenOk slot x d.dirs)
  unfolding classify_inspected
  classify_inspected_lem policy slot (inl e) = ret-Triple _ (λ d p. (p.0, tt))
  classify_inspected_lem policy slot (inr i) =
      if-Triple (not i.exists) (λ h. ret-Triple _ (λ d p. (p.0, p.1 i refl (ground (arith, h)))))
        (λ h.
          option-Triple i.identity
            (λ id h. weaken-Triple (λ d p. p.0) (classify_lease_lem policy slot id))
            (λ h. ret-Triple _ (λ d p. (p.0, tt))))

  classify_started_lem :
      (stopped : Bool) (slot : Slot) (policy : PathPolicy)
      → Triple disk
          (λ d. P d.dirs)
          (classify_started world git_sources parse_version stopped slot policy)
          (λ x d. P d.dirs × SeenOk slot x d.dirs)
  unfolding classify_started
  classify_started_lem true slot policy = ret-Triple _ (λ d p. (p, tt))
  classify_started_lem false slot policy =
      >>=-Triple (inspect-Triple lawful P caller_context slot)
        (λ x. classify_inspected_lem policy slot x)

  pub classify_path_lem :
      (slot : Slot) (policy : PathPolicy)
      → Triple disk
          (λ d. P d.dirs)
          (classify_path world git_sources parse_version slot policy)
          (λ x d. P d.dirs × SeenOk slot x d.dirs)
  unfolding classify_path
  classify_path_lem slot policy =
      >>=-read (lawful.ctx_err_reads caller_context) (λ b. classify_started_lem b slot policy)
