-- ===== src/Gitrepo/World/Calls.antt =====
-- internal/gitrepo: what the calls of a lawful world keep, and the error maps.
use auto_mas_runtime.Base.{◌≡◌, refl, inr, Bool, true, false, none, arith}
use auto_mas_runtime.State.Stage.{Stage}
use auto_mas_runtime.Gitrepo.Failure.{Cause}
use auto_mas_runtime.Gitrepo.Disk.{Slot, get, Dirs, Disk, Shrunk}
use auto_mas_runtime.Gitrepo.World.{
  Context, DirectoryInspection, RenameRequest, DeleteRequest, World, clean, ret, ◌>>=◌,
  is_cancellation, map_rename_failure, map_write_failure,
}
use auto_mas_runtime.Gitrepo.World.Rules.{Triple, Reads, RenameLaw, IsLawful}

module _ {σ : Type 0} {disk : σ → Disk} {world : World σ} (lawful : IsLawful disk world) where
  pub is_cancellation-Reads : (c : Context) (e : Cause) → Reads disk (is_cancellation world c e)
  unfolding is_cancellation ◌>>=◌ ret
  is_cancellation-Reads c e = record { same = λ w. (lawful.ctx_err_reads c).same w }

  pub map_rename_failure-Reads :
      (c : Context) (e : Cause) (a b : Bool) → Reads disk (map_rename_failure world c e a b)
  unfolding map_rename_failure ◌>>=◌ ret
  map_rename_failure-Reads c e a true = record { same = λ w. refl }
  map_rename_failure-Reads c e true false = record { same = λ w. refl }
  map_rename_failure-Reads c e false false = record {
    same = λ w. (is_cancellation-Reads c e).same w;
  }

  pub map_write_failure-Reads :
      (c : Context) (s : Stage) (e : Cause) → Reads disk (map_write_failure world c s e)
  unfolding map_write_failure ◌>>=◌ ret
  map_write_failure-Reads c s e = record {
    same = λ w. ground ((is_cancellation-Reads c e).same w, arith);
  }

  pub rename-Triple :
      (P : Dirs → Type 0) (c : Context) (r : RenameRequest)
      → Triple disk
          (λ d. P d.dirs)
          (world.rename c r)
          (λ x d. (a : Dirs) × P a × RenameLaw a r x d.dirs)
  rename-Triple P c r = record { run = λ w p. ((disk w).dirs, p, lawful.rename_law c r w) }

  pub remove-Triple :
      (P : Dirs → Type 0) (c : Context) (r : DeleteRequest)
      → Triple disk
          (λ d. P d.dirs)
          (world.remove c r)
          (λ x d.
            (a : Dirs) × P a
            × Shrunk r.target a d.dirs
            × (clean x ≡ true → get r.target d.dirs ≡ none))
  remove-Triple P c r = record {
    run = λ w p. ((disk w).dirs, p, lawful.remove_law c r w, lawful.remove_clean c r w);
  }

  pub inspect-Triple :
      (P : Dirs → Type 0) (c : Context) (s : Slot)
      → Triple disk
          (λ d. P d.dirs)
          (world.inspect c s)
          (λ x d.
            P d.dirs
            × ((i : DirectoryInspection) → x ≡ inr i → i.exists ≡ false → get s d.dirs ≡ none))
  inspect-Triple P c s = record {
    run = λ w p.
        rw ((lawful.inspect_reads c s).same w) (p, λ i e h. lawful.inspect_missing c s w i e h);
  }

  map_rename_failure_lem :
      (c : Context) (e : Cause) (a b : Bool) (w : σ)
      → (map_rename_failure world c e a b w).0.committed ≡ b
  unfolding map_rename_failure ◌>>=◌ ret
  map_rename_failure_lem c e a true w = refl
  map_rename_failure_lem c e true false w = ground arith
  map_rename_failure_lem c e false false w = ground arith

  map_write_failure_lem :
      (c : Context) (s : Stage) (e : Cause) (w : σ)
      → (map_write_failure world c s e w).0.committed ≡ false
  unfolding map_write_failure ◌>>=◌ ret
  map_write_failure_lem c s e w = ground arith

  -- The error of a rename that failed is committed when the caller says so.
  pub map_rename_failure-committed :
      (P : Disk → Type 0) (c : Context) (e : Cause) (a b : Bool)
      → Triple disk P (map_rename_failure world c e a b) (λ x d. P d × (x.committed ≡ b))
  map_rename_failure-committed P c e a b = record {
    run =
        λ w p. (rw ((map_rename_failure-Reads c e a b).same w) p, map_rename_failure_lem c e a b w);
  }

  -- The error of a write before the commit is not committed.
  pub map_write_failure-uncommitted :
      (P : Disk → Type 0) (c : Context) (s : Stage) (e : Cause)
      → Triple disk P (map_write_failure world c s e) (λ x d. P d × (x.committed ≡ false))
  map_write_failure-uncommitted P c s e = record {
    run = λ w p. (rw ((map_write_failure-Reads c s e).same w) p, map_write_failure_lem c s e w);
  }
