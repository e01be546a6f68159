-- ===== src/Gitrepo/Disk.antt =====
-- internal/gitrepo: the three directories that a replacement of the repository moves, and the
-- transaction file beside them.
use auto_mas_runtime.Base.{ℕ, ◌≡◌, ◌⊎◌, Option, none, some}
use auto_mas_runtime.State.Transaction.{TransactionState}
use auto_mas_runtime.Gitrepo.Revision.{Snapshot}

-- A directory with its identity. The content is what a reader finds; `none` is one that cannot be read.
pub record Directory : Type 0 where
  pub id : ℕ
  pub content : Option Snapshot

pub record Dirs : Type 0 where
  pub repository : Option Directory
  pub update : Option Directory
  pub previous : Option Directory

pub record Disk : Type 0 where
  pub dirs : Dirs
  pub stored : Option TransactionState

-- The three paths of a transaction.
pub data Slot : Type 0 where
  repository_slot update_slot previous_slot : Slot

abbrev pub get : Slot → Dirs → Option Directory
get repository_slot d = d.repository
get update_slot d = d.update
get previous_slot d = d.previous

abbrev pub put : Slot → Option Directory → Dirs → Dirs
put repository_slot x d = record d { repository = x }
put update_slot x d = record d { update = x }
put previous_slot x d = record d { previous = x }

-- What is left of a directory whose removal stopped half way.
abbrev pub wreck : Directory → Directory
wreck d = record d { content = none }

-- A rename moves the whole of a directory to a path where nothing stands.
abbrev pub Moved : Slot → Slot → ℕ → Dirs → Dirs → Type 0
Moved source destination id a b =
    (d : Directory) × (get source a ≡ some d)
    × (get destination a ≡ none)
    × (d.id ≡ id)
    × (b ≡ put destination (some d) (put source none a))

-- A removal leaves a directory, wrecks it, or makes it go.
abbrev pub Shrunk : Slot → Dirs → Dirs → Type 0
Shrunk slot a b =
    (b ≡ a)
    ⊎ ((b ≡ put slot none a)
        ⊎ ((d : Directory) × (get slot a ≡ some d) × (b ≡ put slot (some (wreck d)) a)))

-- What an update directory may be: missing, the new repository, or what is left of it.
abbrev pub Part : Directory → Option Directory → Type 0
Part new u = (u ≡ none) ⊎ ((u ≡ some new) ⊎ (u ≡ some (wreck new)))

-- The old repository stands, or the new one does, or the old one waits to be put back.
abbrev pub Intact : Option Directory → Directory → Dirs → Type 0
Intact old new d =
    (d.repository ≡ old) × (d.previous ≡ none) × Part new d.update
    ⊎ ((d.repository ≡ some new) × (d.update ≡ none)
        ⊎ ((o : Directory) × (old ≡ some o)
            × (d.repository ≡ none)
            × (d.previous ≡ old)
            × Part new d.update))
