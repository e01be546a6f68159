-- ===== src/Protocol/Emitter/Keys.antt =====
-- `resultDetails` as a map: what each key of the result's details is bound to.
use auto_mas_runtime.Base.{
  ◌≡◌, ◌≢◌, refl, ◌∙◌, Bool, true, false, [], ◌∷◌, ◌++◌, ◌||◌, Option, none, some, Bytes, codes,
  bytes_eq, bytes_eq_iff, arith, ltb, ◌==◌, if◌then◌else◌, or_else, Bool-cases, inl, inr,
}
use auto_mas_runtime.Protocol.Event.{
  Detail, summaries, count, flag, Details, map-clone_warning_summary,
}
use auto_mas_runtime.Protocol.Emitter.{
  ProcessOutput, max_result_warning_summaries, delete, assign, result_details,
}

-- `m[key]`.
unfoldable pub lookup : Bytes → Details → Option Detail
lookup key [] = none
lookup key ((k, v) ∷ m) = if bytes_eq k key then some v else lookup key m

lookup-delete :
    (k j : Bytes) (m : Details)
    → lookup j (delete k m) ≡ (if bytes_eq k j then none else lookup j m)
unfolding lookup delete
lookup-delete k j [] = ground arith
lookup-delete k j ((i, v) ∷ m) =
    ground (arith, lookup-delete k j m, bytes_eq_iff i k, bytes_eq_iff i j, bytes_eq_iff k j)

lookup-append_one :
    (k j : Bytes) (v : Detail) (m : Details)
    → lookup j m ≡ none
    → lookup j (m ++ (k, v) ∷ []) ≡ (if bytes_eq k j then some v else none)
unfolding lookup
lookup-append_one k j v [] h = refl
lookup-append_one k j v ((i, w) ∷ m) h = ground (arith, lookup-append_one k j v m)

lookup-append_ne :
    (k j : Bytes) (v : Detail) (m : Details)
    → bytes_eq k j ≡ false
    → lookup j (m ++ (k, v) ∷ []) ≡ lookup j m
unfolding lookup
lookup-append_ne k j v [] h = ground arith
lookup-append_ne k j v ((i, w) ∷ m) h = ground (arith, lookup-append_ne k j v m)

lookup-assign :
    (k j : Bytes) (v : Detail) (m : Details)
    → lookup j (assign k v m) ≡ (if bytes_eq k j then some v else lookup j m)
lookup-assign k j v m = elim (Bool-cases (bytes_eq k j)) [
  | inl h ↦ rw h (lookup-append_one k j v (delete k m) (lookup-delete k j m ∙ rw h) ∙ rw h)
  | inr h ↦ rw h (lookup-append_ne k j v (delete k m) h ∙ (lookup-delete k j m ∙ rw h))
]

-- The keys that the emitter owns.
abbrev pub reserved_key : Bytes → Bool
reserved_key key =
    bytes_eq (codes "warnings") key
    || bytes_eq (codes "warningCount") key
    || bytes_eq (codes "warningsTruncated") key

abbrev pub caller_details : Option Details → Details
caller_details = or_else [] (λ d. d)

ruleset map_laws = (lookup-assign, lookup-delete)

module _ {R : Type 0} (o : ProcessOutput R) (details : Option Details) where
  -- A key of the caller keeps its value, and the emitter's keys are not the caller's.
  pub caller_key :
      (key : Bytes)
      → reserved_key key ≡ false
      → lookup key (result_details o details) ≡ lookup key (caller_details details)
  unfolding result_details
  caller_key key h = elim (Bool-cases (o.warning_count == 0)) [
    | inl e ↦ rw e (simp map_laws (ground arith))
    | inr e ↦ rw e (simp map_laws (ground arith))
  ]

  pub no_warning_keys :
      (key : Bytes)
      → reserved_key key ≡ true
      → o.warning_count ≡ 0
      → lookup key (result_details o details) ≡ none
  unfolding result_details
  no_warning_keys key h z = rw z (simp map_laws (ground arith))

  pub warning_keys :
      o.warning_count ≢ 0
      → (lookup (codes "warnings") (result_details o details) ≡ some (summaries o.warnings))
        × (lookup (codes "warningCount") (result_details o details) ≡ some (count o.warning_count))
        × (lookup (codes "warningsTruncated") (result_details o details)
            ≡ some (flag (ltb max_result_warning_summaries o.warning_count)))
  unfolding result_details bytes_eq
  warning_keys z = elim (Bool-cases (o.warning_count == 0)) [
    | inl e ↦ absurd (ground arith)
    | inr e ↦
        rw (e, map-clone_warning_summary)
          (simp lookup-assign, simp lookup-assign, simp lookup-assign)
  ]
