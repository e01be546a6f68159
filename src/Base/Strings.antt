-- ===== src/Base/Strings.antt =====
-- The functions of Go's `strings` that the modelled code calls, on bytes.
use Prim.Native.Nat.{ℕ}
use mathlib.Core.Path.{◌≡◌, refl}
use mathlib.Core.Bool.{Bool, true, false, ◌||◌}
use mathlib.Core.List.{List, [], ◌∷◌}
use mathlib.Core.Option.{Option, none, some}
use native.Mathlib.Omega.{arith}
use auto_mas_runtime.Base.Tests.{◌==◌, if◌then◌else◌}
use auto_mas_runtime.Base.Text.{Bytes, bytes_eq, lower_byte, to_lower}

-- `strings.CutPrefix`: the rest behind a prefix.
unfoldable pub after_prefix : Bytes → Bytes → Option Bytes
after_prefix [] s = some s
after_prefix (p ∷ prefix) [] = none
after_prefix (p ∷ prefix) (c ∷ s) =
    let rest = after_prefix prefix s in if c == p then rest else none

-- `strings.HasPrefix(s, prefix)`, the prefix first.
abbrev pub has_prefix : Bytes → Bytes → Bool
has_prefix prefix s = elim (after_prefix prefix s) [ none ↦ false | some rest ↦ true ]

-- `strings.TrimPrefix(s, prefix)`.
abbrev pub trim_prefix : Bytes → Bytes → Bytes
trim_prefix prefix s = elim (after_prefix prefix s) [ none ↦ s | some rest ↦ rest ]

-- `strings.HasSuffix(s, suffix)`.
unfoldable pub has_suffix : Bytes → Bytes → Bool
has_suffix suffix [] = bytes_eq [] suffix
has_suffix suffix (c ∷ s) = bytes_eq (c ∷ s) suffix || has_suffix suffix s

-- `strings.Cut(s, separator)`; `none` when the separator is not found.
unfoldable pub cut : Bytes → Bytes → Option (Bytes × Bytes)
cut separator [] = elim (after_prefix separator []) [ none ↦ none | some rest ↦ some ([], rest) ]
cut separator (c ∷ s) = elim (after_prefix separator (c ∷ s)) [
  | some rest ↦ some ([], rest)
  | none ↦ elim (cut separator s) [ none ↦ none | some (before, after) ↦ some (c ∷ before, after) ]
]

-- `strings.Contains(s, separator)`.
abbrev pub contains : Bytes → Bytes → Bool
contains separator s = elim (cut separator s) [ none ↦ false | some parts ↦ true ]

-- `strings.Split(s, separator)` for a separator of one byte.
unfoldable pub split : ℕ → Bytes → List Bytes
split separator [] = [] ∷ []
split separator (c ∷ s) =
    let rest = split separator s in if c == separator then [] ∷ rest else push_front c rest
  where
    push_front : ℕ → List Bytes → List Bytes
    push_front c [] = (c ∷ []) ∷ []
    push_front c (part ∷ parts) = (c ∷ part) ∷ parts

lower_byte_twice : (c : ℕ) → lower_byte (lower_byte c) ≡ lower_byte c
lower_byte_twice c = ground arith

pub to_lower_idempotent : (s : Bytes) → to_lower (to_lower s) ≡ to_lower s
unfolding to_lower
to_lower_idempotent [] = refl
to_lower_idempotent (c ∷ s) = cc (lower_byte_twice c, to_lower_idempotent s)
