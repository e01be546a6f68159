-- ===== src/Gitrepo/Recovery/Moves.antt =====
-- internal/gitrepo/recovery.go: what the moves of a recovery do to the two repositories.
use auto_mas_runtime.Base.{ℕ, ◌≡◌, inl, inr, Option, none, some, arith, ◌≢◌}
use auto_mas_runtime.Gitrepo.Disk.{
  Directory, Dirs, repository_slot, update_slot, previous_slot, wreck, Moved, Shrunk, Part, Intact,
}

Part-wreck :
    (new : Directory) (u : Option Directory) (x : Directory)
    → Part new u
    → u ≡ some x
    → Part new (some (wreck x))
Part-wreck new u x p h = elim p [
  | inl e ↦ absurd (ground (arith, e, h))
  | inr (inl e) ↦ ground (arith, e, h)
  | inr (inr e) ↦ ground (arith, e, h)
]

pub drop_update-previous : (a d : Dirs) → Shrunk update_slot a d → d.previous ≡ a.previous
drop_update-previous a d s = ground (arith, s)

pub drop_previous-update : (a d : Dirs) → Shrunk previous_slot a d → d.update ≡ a.update
drop_previous-update a d s = ground (arith, s)

pub put_back-previous :
    (a d : Dirs) (id : ℕ)
    → Moved previous_slot repository_slot id a d
    → (d.previous ≡ none) × (d.update ≡ a.update)
put_back-previous a d id (x, g, k, i, e) = ground (arith, g, k, e)

pub put_new-update :
    (a d : Dirs) (id : ℕ)
    → Moved update_slot repository_slot id a d
    → (d.update ≡ none) × (d.previous ≡ a.previous)
put_new-update a d id (x, g, k, i, e) = ground (arith, g, k, e)

module _ (old : Option Directory) (new : Directory) where
  -- The disk stays `Intact` when an update is dropped or wrecked.
  pub drop_update : (a d : Dirs) → Intact old new a → Shrunk update_slot a d → Intact old new d
  drop_update a d p s = elim s [
    | inl e ↦ rw e p
    | inr (inl e) ↦ ground (arith, e, p)
    | inr (inr (x, g, e)) ↦ elim p [
      | inl (h, i, u) ↦ rw e (inl (h, i, Part-wreck new a.update x u g))
      | inr (inl (h, u)) ↦ absurd (ground (arith, u, g))
      | inr (inr (o, h, i, j, u)) ↦ rw e (inr (inr (o, h, i, j, Part-wreck new a.update x u g)))
    ]
  ]

  -- The disk stays `Intact` when the previous repository is dropped while a repository stands.
  pub drop_previous :
      (a d : Dirs) (x : Directory)
      → Intact old new a
      → a.repository ≡ some x
      → Shrunk previous_slot a d
      → Intact old new d
  drop_previous a d x p r s = elim s [
    | inl e ↦ rw e p
    | inr (inl e) ↦ ground (arith, e, p, r)
    | inr (inr (y, g, e)) ↦ ground (arith, e, p, r, g)
  ]

  -- The old repository goes back.
  pub put_back :
      (a d : Dirs) (id : ℕ)
      → Intact old new a
      → Moved previous_slot repository_slot id a d
      → Intact old new d
  put_back a d id p (x, g, k, i, e) = ground (arith, g, k, e, p)

  -- An update that can be read takes the empty place of the repository.
  pub put_new :
      (a d : Dirs) (id : ℕ) (x : Directory)
      → Intact old new a
      → a.update ≡ some x
      → x.content ≢ none
      → Moved update_slot repository_slot id a d
      → Intact old new d
  put_new a d id x p u c (y, g, k, i, e) = elim p [
    | inl (h, j, q) ↦ fits q
    | inr (inl (h, q)) ↦ absurd (ground (arith, h, k))
    | inr (inr (o, h, j, l, q)) ↦ fits q
  ]
    where
      fits : Part new a.update → Intact old new d
      fits q = elim q [
        | inl f ↦ absurd (ground (arith, f, u))
        | inr (inl f) ↦ ground (arith, f, g, e)
        | inr (inr f) ↦ absurd (c (ground (arith, f, u)))
      ]
