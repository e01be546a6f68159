-- ===== src/Gitrepo/World/Rules.antt =====
-- internal/gitrepo: what the code relies on of the file system and the store, and rules that follow a
-- program step by step. A process that is killed is a world whose operations, from some point on, change
-- nothing: the laws allow it.
use auto_mas_runtime.Base.{
  ◌≡◌, refl, ◌⊎◌, inl, inr, Bool, true, false, Option, none, some, Bytes, if◌then◌else◌,
}
use auto_mas_runtime.State.Stage.{Stage}
use auto_mas_runtime.State.Transaction.{TransactionState}
use auto_mas_runtime.Gitrepo.Revision.{Snapshot, Revision}
use auto_mas_runtime.Gitrepo.Failure.{Cause}
use auto_mas_runtime.Gitrepo.Disk.{Slot, get, Directory, Dirs, Disk, Moved, Shrunk}
use auto_mas_runtime.Gitrepo.World.{
  Context, DirectoryInspection, RenameRequest, DeleteRequest, EnvironmentState, BrokenEnvironment,
  World, Prog, clean, ret, ◌>>=◌, ◌>>◌,
}

-- A program that starts on a disk with `P` ends with `Q`.
pub record Triple {σ A : Type 0} (disk : σ → Disk) (P : Disk → Type 0) (m : Prog σ A)
    (Q : A → Disk → Type 0) : Type 0 where
  pub run : (w : σ) → P (disk w) → Q (m w).0 (disk (m w).1)

-- The program changes nothing on the disk.
pub record Reads {σ A : Type 0} (disk : σ → Disk) (m : Prog σ A) : Type 0 where
  pub same : (w : σ) → disk (m w).1 ≡ disk w

-- The program leaves the directories as they are.
pub record Leaves {σ A : Type 0} (disk : σ → Disk) (m : Prog σ A) : Type 0 where
  pub same_dirs : (w : σ) → (disk (m w).1).dirs ≡ (disk w).dirs

abbrev pub RenameLaw : Dirs → RenameRequest → Bool × Option Cause → Dirs → Type 0
RenameLaw a request r b =
    (r.0 ≡ false) × (b ≡ a)
    ⊎ (r.0 ≡ true) × Moved request.source request.destination request.expected a b

pub record IsLawful {σ : Type 0} (disk : σ → Disk) (world : World σ) : Type 0 where
  pub report_reads : (s : Stage) → Reads disk (world.report s)
  pub ctx_err_reads : (c : Context) → Reads disk (world.ctx_err c)
  pub inspect_reads : (c : Context) (s : Slot) → Reads disk (world.inspect c s)
  pub inspect_missing :
      (c : Context) (s : Slot) (w : σ) (i : DirectoryInspection)
      → (world.inspect c s w).0 ≡ inr i
      → i.exists ≡ false
      → get s (disk w).dirs ≡ none
  pub pin_reads : (s : Slot) → Reads disk (world.pin s)
  pub read_reads : (s : Slot) → Reads disk (world.read s)
  pub read_content :
      (s : Slot) (w : σ) (x : Snapshot)
      → (world.read s w).0 ≡ inr x
      → (d : Directory) × (get s (disk w).dirs ≡ some d) × (d.content ≡ some x)
  pub close_reads : (s : Slot) → Reads disk (world.close s)
  pub rename_law :
      (c : Context) (r : RenameRequest) (w : σ)
      → RenameLaw (disk w).dirs r (world.rename c r w).0 (disk (world.rename c r w).1).dirs
  pub remove_law :
      (c : Context) (r : DeleteRequest) (w : σ)
      → Shrunk r.target (disk w).dirs (disk (world.remove c r w).1).dirs
  pub remove_clean :
      (c : Context) (r : DeleteRequest) (w : σ)
      → clean (world.remove c r w).0 ≡ true
      → get r.target (disk (world.remove c r w).1).dirs ≡ none
  pub read_update_reads : Reads disk world.read_update
  pub read_update_stored :
      (w : σ) (t : TransactionState) → (world.read_update w).0 ≡ inr t → (disk w).stored ≡ some t
  pub remove_transaction_leaves :
      (c : Context) (t : TransactionState) → Leaves disk (world.remove_transaction c t)
  pub remove_transaction_done :
      (c : Context) (t : TransactionState) (w : σ)
      → (world.remove_transaction c t w).0 ≡ none
      → (disk (world.remove_transaction c t w).1).stored ≡ none
  pub write_transaction_leaves :
      (c : Context) (t : TransactionState) → Leaves disk (world.write_transaction c t)
  pub write_transaction_done :
      (c : Context) (t : TransactionState) (w : σ)
      → (world.write_transaction c t w).0 ≡ none
      → (disk (world.write_transaction c t w).1).stored ≡ some t
  pub read_environment_reads : (c : Context) → Reads disk (world.read_environment c)
  pub new_broken_reads : (l : Bytes) (b : BrokenEnvironment) → Reads disk (world.new_broken l b)
  pub write_environment_reads :
      (c : Context) (e : EnvironmentState) → Reads disk (world.write_environment c e)
  pub commit_environment_reads : (r : Revision) → Reads disk (world.commit_environment r)

ret_lem : {σ A : Type 0} (a : A) (w : σ) → ret a w ≡ (a, w)
unfolding ret
ret_lem a w = refl

>>=-lem :
    {σ A B : Type 0} (m : Prog σ A) (k : A → Prog σ B) (w : σ) → (m >>= k) w ≡ k (m w).0 (m w).1
unfolding ◌>>=◌
>>=-lem m k w = refl

>>-lem : {σ A B : Type 0} (m : Prog σ A) (n : Prog σ B) (w : σ) → (m >> n) w ≡ n (m w).1
unfolding ◌>>◌
>>-lem m n w = refl

module _ {σ : Type 0} {disk : σ → Disk} where
  pub ret-Triple :
      {A : Type 0} {P : Disk → Type 0} {Q : A → Disk → Type 0} (a : A)
      → ((d : Disk) → P d → Q a d)
      → Triple disk P (ret a) Q
  ret-Triple {Q = Q} a h = record { run = λ w p. rw (ret_lem a w) (h (disk w) p) }

  pub >>=-Triple :
      {A B : Type 0} {P : Disk → Type 0} {Q : A → Disk → Type 0} {R : B → Disk → Type 0}
      {m : Prog σ A} {k : A → Prog σ B}
      → Triple disk P m Q
      → ((a : A) → Triple disk (Q a) (k a) R)
      → Triple disk P (m >>= k) R
  >>=-Triple {R = R} {m = m} {k = k} hm hk = record {
    run = λ w p. rw (>>=-lem m k w) ((hk (m w).0).run (m w).1 (hm.run w p));
  }

  pub >>-Triple :
      {A B : Type 0} {P : Disk → Type 0} {Q : A → Disk → Type 0} {R : B → Disk → Type 0}
      {m : Prog σ A} {n : Prog σ B}
      → Triple disk P m Q
      → ((a : A) → Triple disk (Q a) n R)
      → Triple disk P (m >> n) R
  >>-Triple {R = R} {m = m} {n = n} hm hk = record {
    run = λ w p. rw (>>-lem m n w) ((hk (m w).0).run (m w).1 (hm.run w p));
  }

  -- A program that only reads keeps what is known, and its result may be anything.
  pub read-Triple :
      {A : Type 0} {P : Disk → Type 0} {m : Prog σ A} → Reads disk m → Triple disk P m (λ a. P)
  read-Triple {P = P} h = record { run = λ w p. rw (h.same w) p }

  -- As `read-Triple`, of what is known of the directories alone.
  pub leave-Triple :
      {A : Type 0} (P : Dirs → Type 0) {m : Prog σ A}
      → Leaves disk m
      → Triple disk (λ d. P d.dirs) m (λ a d. P d.dirs)
  leave-Triple P h = record { run = λ w p. rw (h.same_dirs w) p }

  pub weaken-Triple :
      {A : Type 0} {P P' : Disk → Type 0} {Q : A → Disk → Type 0} {m : Prog σ A}
      → ((d : Disk) → P' d → P d)
      → Triple disk P m Q
      → Triple disk P' m Q
  weaken-Triple h t = record { run = λ w p. t.run w (h (disk w) p) }

  pub >>=-read :
      {A B : Type 0} {P : Disk → Type 0} {R : B → Disk → Type 0} {m : Prog σ A} {k : A → Prog σ B}
      → Reads disk m
      → ((a : A) → Triple disk P (k a) R)
      → Triple disk P (m >>= k) R
  >>=-read h hk = >>=-Triple (read-Triple h) hk

  pub >>-read :
      {A B : Type 0} {P : Disk → Type 0} {R : B → Disk → Type 0} {m : Prog σ A} {n : Prog σ B}
      → Reads disk m
      → Triple disk P n R
      → Triple disk P (m >> n) R
  >>-read h hk = >>-Triple (read-Triple h) (λ a. hk)

  pub if-Triple :
      {A : Type 0} {P : Disk → Type 0} {Q : A → Disk → Type 0} {m n : Prog σ A} (b : Bool)
      → (b ≡ true → Triple disk P m Q)
      → (b ≡ false → Triple disk P n Q)
      → Triple disk P (if b then m else n) Q
  if-Triple true h k = h refl
  if-Triple false h k = k refl

  -- A fact that does not speak of the disk is a hypothesis of what follows.
  pub given-Triple :
      {A H : Type 0} {P : Disk → Type 0} {Q : A → Disk → Type 0} {m : Prog σ A}
      → (H → Triple disk P m Q)
      → Triple disk (λ d. H × P d) m Q
  given-Triple h = record { run = λ w p. (h p.0).run w p.1 }

  -- So is a thing that exists, whichever it is.
  pub some-Triple :
      {A X : Type 0} {P : X → Disk → Type 0} {Q : A → Disk → Type 0} {m : Prog σ A}
      → ((x : X) → Triple disk (P x) m Q)
      → Triple disk (λ d. (x : X) × P x d) m Q
  some-Triple h = record { run = λ w p. (h p.0).run w p.1 }

  pub choose-Triple :
      {A : Type 0} {P : Disk → Type 0} {Q : A → Disk → Type 0} (c : Bool) (a b : A)
      → ((d : Disk) → P d → Q a d)
      → ((d : Disk) → P d → Q b d)
      → Triple disk P (ret (if c then a else b)) Q
  choose-Triple true a b h k = ret-Triple a h
  choose-Triple false a b h k = ret-Triple b k

  pub option-Triple :
      {A B : Type 0} {P : Disk → Type 0} {R : B → Disk → Type 0} {m : A → Prog σ B} {n : Prog σ B}
      (x : Option A)
      → ((a : A) → x ≡ some a → Triple disk P (m a) R)
      → (x ≡ none → Triple disk P n R)
      → Triple disk P (elim x [ some a ↦ m a | none ↦ n ]) R
  option-Triple (some a) h k = h a refl
  option-Triple none h k = k refl

  pub sum-Triple :
      {E A B : Type 0} {P : Disk → Type 0} {R : B → Disk → Type 0} {m : E → Prog σ B}
      {n : A → Prog σ B} (x : E ⊎ A)
      → ((e : E) → x ≡ inl e → Triple disk P (m e) R)
      → ((a : A) → x ≡ inr a → Triple disk P (n a) R)
      → Triple disk P (elim x [ inl e ↦ m e | inr a ↦ n a ]) R
  sum-Triple (inl e) h k = h e refl
  sum-Triple (inr a) h k = k a refl
