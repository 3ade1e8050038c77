-- ===== src/Domain/Ingestion/Guards.antt =====
-- What the guards of runs and manifests promise.
use data_center.Prelude.{
  ℕ, ◌+◌, ◌≤◌, ◌≡◌, refl, ap, false, true, some, List, [], ◌∷◌, ◌++◌, any, arith, Bool-cases, inl,
  inr, if◌then◌else◌,
}
use data_center.Prelude.Int.{pos}
use data_center.Domain.Ingestion.{
  IngestionRun, ok, is_terminal, RawManifest, check_manifest, parts, is_parent, is_absolute,
}

-- The rows of a run add up, and its instants are in order.
abbrev pub IsAccounted : IngestionRun → Type 0
IsAccounted r =
    ((fetched : ℕ) × (accepted : ℕ) × (rejected : ℕ) × (r.fetched_rows ≡ pos fetched)
      × (r.accepted_rows ≡ pos accepted)
      × (r.rejected_rows ≡ pos rejected)
      × (accepted + rejected ≤ fetched))
    × ((t : ℕ)
        → r.finished_at ≡ some t
        → (s : ℕ) × (r.started_at ≡ some s) × (r.requested_at ≤ s) × (s ≤ t))
    × (is_terminal r.status ≡ true → (t : ℕ) × (r.finished_at ≡ some t))

abbrev drop_one : List (List ℕ) → List (List ℕ)
drop_one [] = []
drop_one (part ∷ stack) = stack

-- The directory that a path leads to from the one at the end of `stack`: a parent leaves one.
abbrev pub descend : List (List ℕ) → List (List ℕ) → List (List ℕ)
descend stack [] = stack
descend stack (part ∷ path) =
    if is_parent part then descend (drop_one stack) path else descend (part ∷ stack) path

-- Whether `root` lies at the bottom of `stack`.
abbrev pub IsUnder : List (List ℕ) → List (List ℕ) → Type 0
IsUnder root stack = (below : List (List ℕ)) × (below ++ root ≡ stack)

descend-IsUnder :
    (root path stack : List (List ℕ))
    → any is_parent path ≡ false
    → IsUnder root stack
    → IsUnder root (descend stack path)
descend-IsUnder root [] stack h u = u
descend-IsUnder root (part ∷ path) stack h u = elim (Bool-cases (is_parent part)) [
  | inl q ↦ cc
  | inr q ↦
      rw q (
        descend-IsUnder root path (part ∷ stack) (ground arith)
          (part ∷ u.0, ap (λ l. part ∷ l) u.1))
]

check_manifest-path :
    (m manifest : RawManifest)
    → check_manifest m ≡ ok manifest
    → (is_absolute manifest.object_path ≡ false)
      × (any is_parent (parts manifest.object_path) ≡ false)
unfolding check_manifest
check_manifest-path m manifest h = ground (arith, h)

-- The object path of a manifest that passes its guards is relative, and it stays under the directory
-- that it is read from, whichever that is.
pub check_manifest-IsUnder :
    (m manifest : RawManifest) (root : List (List ℕ))
    → check_manifest m ≡ ok manifest
    → (is_absolute manifest.object_path ≡ false)
      × IsUnder root (descend root (parts manifest.object_path))
check_manifest-IsUnder m manifest root h =
    let (relative, inside) = check_manifest-path m manifest h in
    (relative, descend-IsUnder root (parts manifest.object_path) root inside ([], refl))
