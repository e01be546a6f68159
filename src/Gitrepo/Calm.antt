-- ===== src/Gitrepo/Calm.antt =====
-- internal/gitrepo: a world without faults, whose state is the disk itself.
use auto_mas_runtime.Base.{
  ◌≡◌, refl, ◌⊎◌, inl, inr, Bool, true, false, Option, none, some, ◌==◌, arith,
}
use auto_mas_runtime.State.Transaction.{TransactionState}
use auto_mas_runtime.Gitrepo.Revision.{Snapshot}
use auto_mas_runtime.Gitrepo.Failure.{Cause, plain_cause}
use auto_mas_runtime.Gitrepo.Disk.{
  Directory, Dirs, Disk, Slot, repository_slot, update_slot, previous_slot, get, put,
}
use auto_mas_runtime.Gitrepo.World.{DirectoryInspection, RenameRequest, World}
use auto_mas_runtime.Gitrepo.World.Rules.{RenameLaw, IsLawful}

abbrev inspected : Option Directory → DirectoryInspection
inspected none = record { exists = false; identity = none }
inspected (some d) = record { exists = true; identity = some d.id }

abbrev read_content : Option Directory → Cause ⊎ Snapshot
read_content none = inl plain_cause
read_content (some d) = elim d.content [ some s ↦ inr s | none ↦ inl plain_cause ]

abbrev fitted : Bool → RenameRequest → Directory → Disk → (Bool × Option Cause) × Disk
fitted true r d w =
    ((true, none), record w { dirs = put r.destination (some d) (put r.source none w.dirs) })
fitted false r d w = ((false, some (record plain_cause { identity_changed = true })), w)

abbrev moves :
    RenameRequest → Option Directory → Option Directory → Disk → (Bool × Option Cause) × Disk
moves r (some d) none w = fitted (d.id == r.expected) r d w
moves r none x w = ((false, some plain_cause), w)
moves r (some d) (some e) w = ((false, some (record plain_cause { destination_exists = true })), w)

abbrev read_stored : Option TransactionState → Cause ⊎ TransactionState
read_stored none = inl (record plain_cause { not_found = true })
read_stored (some t) = inr t

abbrev pub calm : World Disk
calm = record {
  paths_ok = λ id. true;
  report = λ s w. (true, w);
  ctx_err = λ c w. (false, w);
  inspect = λ c s w. (inr (inspected (get s w.dirs)), w);
  pin = λ s w. (inr (elim (get s w.dirs) [ none ↦ none | some d ↦ some (some d.id) ]), w);
  read = λ s w. (read_content (get s w.dirs), w);
  close = λ s w. (none, w);
  rename = λ c r w. moves r (get r.source w.dirs) (get r.destination w.dirs) w;
  remove = λ c r w. (
    (record { removed = true; partial = false; audit_completed = true }, none),
    record w { dirs = put r.target none w.dirs },
  );
  read_update = λ w. (read_stored w.stored, w);
  remove_transaction = λ c t w. (none, record w { stored = none });
  write_transaction = λ c t w. (none, record w { stored = some t });
  read_environment = λ c w. (inl (record plain_cause { not_found = true }), w);
  new_broken =
      λ l b w. (inr (record { last_successful = l; status_broken = true; broken = some b }), w);
  write_environment = λ c e w. (none, w);
  commit_environment = λ r w. (none, w);
}

abbrev pub same_disk : Disk → Disk
same_disk d = d

inspected_missing : (x : Option Directory) → (inspected x).exists ≡ false → x ≡ none
inspected_missing none h = refl
inspected_missing (some d) h = absurd (ground (arith, h))

read_content_lem :
    (x : Option Directory) (s : Snapshot)
    → read_content x ≡ inr s
    → (d : Directory) × (x ≡ some d) × (d.content ≡ some s)
read_content_lem none s h = absurd (ground (arith, h))
read_content_lem (some d) s h = (d, refl, ground (arith, h))

fitted_lem :
    (r : RenameRequest) (w : Disk) (d : Directory)
    → get r.source w.dirs ≡ some d
    → get r.destination w.dirs ≡ none
    → (b : Bool) → (d.id == r.expected) ≡ b
    → RenameLaw w.dirs r (fitted b r d w).0 (fitted b r d w).1.dirs
fitted_lem r w d h k true e = inr (refl, (d, h, k, ground (arith, e), refl))
fitted_lem r w d h k false e = inl (refl, refl)

moves_lem :
    (r : RenameRequest) (w : Disk) (x y : Option Directory)
    → get r.source w.dirs ≡ x
    → get r.destination w.dirs ≡ y
    → RenameLaw w.dirs r (moves r x y w).0 (moves r x y w).1.dirs
moves_lem r w none y h k = inl (refl, refl)
moves_lem r w (some d) (some e) h k = inl (refl, refl)
moves_lem r w (some d) none h k = fitted_lem r w d h k (d.id == r.expected) refl

pub calm-IsLawful : IsLawful same_disk calm
calm-IsLawful = record {
  report_reads = λ s. record { same = λ w. refl };
  ctx_err_reads = λ c. record { same = λ w. refl };
  inspect_reads = λ c s. record { same = λ w. refl };
  inspect_missing = λ c s w i e h. inspected_missing (get s w.dirs) (ground (arith, e, h));
  pin_reads = λ s. record { same = λ w. refl };
  read_reads = λ s. record { same = λ w. refl };
  read_content = λ s w x h. read_content_lem (get s w.dirs) x h;
  close_reads = λ s. record { same = λ w. refl };
  rename_law = λ c r w. moves_lem r w (get r.source w.dirs) (get r.destination w.dirs) refl refl;
  remove_law = λ c r w. inr (inl refl);
  remove_clean = λ c r w h. cleared r.target w.dirs;
  read_update_reads = record { same = λ w. refl };
  read_update_stored = λ w t h. read_stored_lem w.stored t h;
  remove_transaction_leaves = λ c t. record { same_dirs = λ w. refl };
  remove_transaction_done = λ c t w h. refl;
  write_transaction_leaves = λ c t. record { same_dirs = λ w. refl };
  write_transaction_done = λ c t w h. refl;
  read_environment_reads = λ c. record { same = λ w. refl };
  new_broken_reads = λ l b. record { same = λ w. refl };
  write_environment_reads = λ c e. record { same = λ w. refl };
  commit_environment_reads = λ r. record { same = λ w. refl };
}
  where
    cleared : (s : Slot) (d : Dirs) → get s (put s none d) ≡ none
    cleared repository_slot d = refl
    cleared update_slot d = refl
    cleared previous_slot d = refl

    read_stored_lem :
        (x : Option TransactionState) (t : TransactionState) → read_stored x ≡ inr t → x ≡ some t
    read_stored_lem none t h = absurd (ground (arith, h))
    read_stored_lem (some u) t h = ground (arith, h)
