-- ===== src/Gitrepo/Crash.antt =====
-- internal/gitrepo/swap.go and recovery.go: a swap that stops at any step, and the recovery after it.
use auto_mas_runtime.Base.{
  ◌≡◌, refl, ap, ◌⊎◌, inl, inr, Bool, true, false, List, Option, none, some, Bytes, arith,
}
use auto_mas_runtime.State.Transaction.{TransactionState}
use auto_mas_runtime.Mirror.Source.{Source}
use auto_mas_runtime.Gitrepo.Disk.{Directory, Dirs, Disk, Intact}
use auto_mas_runtime.Gitrepo.World.{World}
use auto_mas_runtime.Gitrepo.World.Rules.{IsLawful}
use auto_mas_runtime.Gitrepo.Swap.{SwapRequest, SwapOutcome, swap}
use auto_mas_runtime.Gitrepo.Swap.Safe.{swap_lem}
use auto_mas_runtime.Gitrepo.Swap.Told.{Ready, SwapTells}
use auto_mas_runtime.Gitrepo.Recovery.Environment.{RecoveryRequest}
use auto_mas_runtime.Gitrepo.Recovery.Whole.{is_staged, recover}
use auto_mas_runtime.Gitrepo.Recovery.Safe.{recover_lem}

-- One repository stands alone.
abbrev pub Settled : Option Directory → Directory → Disk → Type 0
Settled old new d =
    (d.stored ≡ none)
    × (d.dirs.update ≡ none)
    × (d.dirs.previous ≡ none)
    × ((d.dirs.repository ≡ old) ⊎ (d.dirs.repository ≡ some new))

SwapTells-Intact :
    {old : Option Directory} {new : Directory} (r : SwapOutcome) (d : Dirs)
    → SwapTells old new r d
    → Intact old new d
SwapTells-Intact r d p = elim p.1 [
  | inl q ↦ inr (inl q.1)
  | inr (h, inl q) ↦ inl (q.0, q.1, inr (inl q.2))
  | inr (h, inr (o, q, r, s, u)) ↦ inr (inr (o, q, r, s, inr (inl u)))
]

Intact-settled :
    {old : Option Directory} {new : Directory} (d : Dirs)
    → Intact old new d
    → d.previous ≡ none
    → (d.repository ≡ old) ⊎ (d.repository ≡ some new)
Intact-settled d p h = elim p [
  | inl q ↦ inl q.0
  | inr (inl q) ↦ inr q.0
  | inr (inr (o, q, r, s, u)) ↦ absurd (ground (arith, q, s, h))
]

-- In any lawful world a swap from a prepared disk ends with an outcome that tells the truth: the
-- repository is marked activated exactly when the new one stands in its place, a completed cleanup
-- leaves no previous one, there is an error exactly when the cleanup is not completed, the error is
-- committed exactly when the new repository is active, and otherwise the old one is in its place or
-- retired with the new one waiting.
pub swap_outcome_true :
    {σ : Type 0} (disk : σ → Disk) (world : World σ) (lawful : IsLawful disk world)
    (old : Option Directory) (new : Directory) (target_first : Bool) (request : SwapRequest) (w : σ)
    → Ready old new (disk w).dirs
    → SwapTells old new
        (swap world target_first request w).0
        (disk (swap world target_first request w).1).dirs
swap_outcome_true disk world lawful old new target_first request w h =
    (swap_lem lawful old new target_first request).run w h

-- In any lawful world, from a disk on which the old repository
-- stands, or the new one, or the old one waits to be put back, a recovery ends on such a disk.
pub recover-Intact :
    {σ : Type 0} (disk : σ → Disk) (world : World σ) (lawful : IsLawful disk world)
    (git_sources : List Source) (parse_version : Bytes → Option Bytes) (old : Option Directory)
    (new : Directory) (target_first : Bool) (request : RecoveryRequest) (w : σ)
    → Intact old new (disk w).dirs
    → Intact old new (disk (recover world git_sources parse_version target_first request w).1).dirs
recover-Intact disk world lawful sources parse old new target_first request w h =
    ((recover_lem lawful sources parse old new (disk w).stored target_first request).run w
      (h, refl)).0

pub recover-Settled :
    {σ : Type 0} (disk : σ → Disk) (world : World σ) (lawful : IsLawful disk world)
    (git_sources : List Source) (parse_version : Bytes → Option Bytes) (old : Option Directory)
    (new : Directory) (target_first : Bool) (request : RecoveryRequest) (t : TransactionState)
    (w : σ)
    → Intact old new (disk w).dirs
    → (disk w).stored ≡ some t
    → is_staged t ≡ false
    → (recover world git_sources parse_version target_first request w).0.0.recovered ≡ true
    → Settled old new (disk (recover world git_sources parse_version target_first request w).1)
recover-Settled disk world lawful sources parse old new target_first request t w h ht hs hr =
    let ends =
      (recover_lem lawful sources parse old new (disk w).stored target_first request).run w
        (h, refl) in
    let clear = ends.1 hr in
    (clear.0, clear.1, clear.2 t ht hs, Intact-settled _ ends.0 (clear.2 t ht hs))

-- A repository is replaced, in any lawful world, and the swap stops anywhere; then a recovery runs on the
-- disk that it left, in any other lawful world, and reports success for a transaction that is not one of
-- `workspace stage` in the clone or verify stage. Then the old repository or the new one stands whole in
-- its place, and nothing else is left: no transaction, no update and no previous repository.
pub swap-recover-Settled :
    {σ τ : Type 0} (disk : σ → Disk) (world : World σ) (lawful : IsLawful disk world)
    (disk' : τ → Disk) (world' : World τ) (lawful' : IsLawful disk' world')
    (git_sources : List Source) (parse_version : Bytes → Option Bytes) (old new : Directory)
    (target_first : Bool) (swapping : SwapRequest) (recovering : RecoveryRequest)
    (t : TransactionState) (w : σ) (v : τ)
    → Ready (some old) new (disk w).dirs
    → disk' v ≡ disk (swap world target_first swapping w).1
    → (disk' v).stored ≡ some t
    → is_staged t ≡ false
    → (recover world' git_sources parse_version target_first recovering v).0.0.recovered ≡ true
    → Settled
        (some old)
        new
        (disk' (recover world' git_sources parse_version target_first recovering v).1)
swap-recover-Settled disk world lawful disk' world' lawful' sources parse old new first swapping
      recovering t w v h e ht hs hr =
    recover-Settled disk' world' lawful' sources parse (some old) new first recovering t v
      (rw (ap (λ d. d.dirs) e) (
        SwapTells-Intact (swap world first swapping w).0 (disk (swap world first swapping w).1).dirs
          (swap_outcome_true disk world lawful (some old) new first swapping w h)))
      ht hs hr
