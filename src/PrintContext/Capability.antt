-- ===== src/PrintContext/Capability.antt =====
-- Where the storage is added to a status message by `rewrite_status_message` of
-- bambu-farm-client/cpp/local_print_context.cpp.
use bambu_farm.Base.{
  ℕ, ◌+◌, ◌-◌, ◌≤◌, Option, none, some, is_some, if◌then◌else◌, if_cases, ◌++◌, ◌≡◌, refl, arith,
  drop,
}
use bambu_farm.Base.Text.{Text, codes, find, find_from, insert_at, if_found, substr}
use bambu_farm.Base.Text.Find.{find-cut}
use bambu_farm.Base.Text.Places.{match_before, find_from_bounds, find_from-cut}
use bambu_farm.PrintContext.{
  inject_file_capability, complete_ipcam, file_capability, ipcam_capability,
}

-- The `print` key is found at `p`, and the object behind it at `o`.
abbrev pub HasPlaces : ℕ → ℕ → Text → Type 0
HasPlaces p o message =
    (find (codes "\"print\"") message ≡ some p) × (find_from (codes "{") p message ≡ some o)

module _ (message : Text) (p o : ℕ) (places : HasPlaces p o message) where
  -- An insertion behind a brace that is not in front of the object.
  pub insert_places :
      (t : Text) (q k : ℕ)
      → find_from (codes "{") q message ≡ some k
      → o ≤ k
      → HasPlaces p o (insert_at (k + 1) t message)
  insert_places t q k f h =
      let b = match_before b'{' (codes "\"print\"") message p o (ground arith) places.0 places.1 in
      let (l, m) = find_from_bounds (codes "{") message q k f in
      (
        find-cut (codes "\"print\"") message (t ++ drop (k + 1) message) p (k + 1) places.0
            (omega arith) m,
        find_from-cut (codes "{") message (t ++ drop (k + 1) message) p o (k + 1) places.1
            (omega arith) m,
      )

  closed_places :
      (q k : ℕ) (r : Option ℕ)
      → find_from (codes "{") q message ≡ some k
      → o ≤ k
      → HasPlaces p o (
          if_found r message (λ object_end.
            if is_some (find (codes "\"file\"") (substr k (object_end - k) message))
            then message
            else insert_at (k + 1) file_capability message))
  closed_places q k none f h = places
  closed_places q k (some e) f h =
      if_cases (HasPlaces p o) (is_some (find (codes "\"file\"") (substr k (e - k) message)))
        message (insert_at (k + 1) file_capability message) places
        (insert_places file_capability q k f h)

  ipcam_places : (q : ℕ) → o ≤ q → HasPlaces p o (complete_ipcam message q)
  unfolding complete_ipcam
  ipcam_places q h = go (find_from (codes "{") q message) refl
    where
      go :
          (r : Option ℕ)
          → find_from (codes "{") q message ≡ r
          → HasPlaces p o (
              if_found r message (λ object_start.
                if_found (find_from (codes "}") object_start message) message (λ object_end.
                  if is_some (
                    find
                      (codes "\"file\"")
                      (substr object_start (object_end - object_start) message))
                  then message
                  else insert_at (object_start + 1) file_capability message)))
      go none f = places
      go (some k) f =
          let (l, m) = find_from_bounds (codes "{") message q k f in
          closed_places q k (find_from (codes "}") k message) f (omega arith)

  object_places :
      (r : Option ℕ)
      → find_from (codes "\"ipcam\"") o message ≡ r
      → HasPlaces p o (elim r [
        | none ↦ insert_at (o + 1) ipcam_capability message
        | some ipcam_key_pos ↦ complete_ipcam message ipcam_key_pos
      ])
  object_places none f = insert_places ipcam_capability p o places.1 (omega arith)
  object_places (some q) f = ipcam_places q (find_from_bounds (codes "\"ipcam\"") message o q f).0

  -- The printer's storage is added behind both places.
  pub inject_file_capability-HasPlaces : HasPlaces p o (inject_file_capability message)
  unfolding inject_file_capability
  inject_file_capability-HasPlaces =
      rw (places.0, places.1) (object_places (find_from (codes "\"ipcam\"") o message) refl)
