-- ===== src/Base/Dict.antt =====
-- `std::unordered_map<std::string, V>` as an association list; the order in which a loop visits
-- it is the library's choice and enters as a parameter where it matters.
use mathlib.Core.Path.{◌≡◌, refl, sym, subst}
use mathlib.Core.Logic.{inl, inr}
use mathlib.Core.Bool.{false}
use mathlib.Core.Option.{Option, none, some}
use mathlib.Core.List.{List, [], ◌∷◌}
use native.Mathlib.Omega.{arith}
use bambu_farm.Base.Tests.{if◌then◌else◌, Bool-cases}
use bambu_farm.Base.Text.{Text, text_eq, text_eq_iff, text_eq_refl}

abbrev pub Dict {ℓ} : Type ℓ → Type ℓ
Dict V = List (Text × V)

module _ {ℓ} {V : Type ℓ} where
  -- `m.find(k)`.
  unfoldable pub lookup : Text → Dict V → Option V
  lookup k [] = none
  lookup k ((j, v) ∷ m) = if text_eq j k then some v else lookup k m

  -- `m[k] = v`.
  unfoldable pub insert : Text → V → Dict V → Dict V
  insert k v [] = (k, v) ∷ []
  insert k v ((j, w) ∷ m) = if text_eq j k then (k, v) ∷ m else (j, w) ∷ insert k v m

  -- `m.erase(k)`.
  unfoldable pub erase : Text → Dict V → Dict V
  erase k [] = []
  erase k ((j, w) ∷ m) = if text_eq j k then erase k m else (j, w) ∷ erase k m

  pub lookup-insert :
      (k j : Text) (v : V) (m : Dict V)
      → lookup j (insert k v m) ≡ (if text_eq k j then some v else lookup j m)
  unfolding lookup insert
  lookup-insert k j v [] = refl
  lookup-insert k j v ((i, w) ∷ m) =
      ground (arith, text_eq_iff k j, text_eq_iff i k, text_eq_iff i j, lookup-insert k j v m)

  pub lookup-erase :
      (k j : Text) (m : Dict V) → lookup j (erase k m) ≡ (if text_eq k j then none else lookup j m)
  unfolding lookup erase
  lookup-erase k j [] = ground arith
  lookup-erase k j ((i, w) ∷ m) =
      ground (arith, text_eq_iff k j, text_eq_iff i k, text_eq_iff i j, lookup-erase k j m)

  pub lookup-insert_self : (k : Text) (v : V) (m : Dict V) → lookup k (insert k v m) ≡ some v
  lookup-insert_self k v m = simp (lookup-insert, text_eq_refl)

  pub lookup-erase_self : (k : Text) (m : Dict V) → lookup k (erase k m) ≡ none
  lookup-erase_self k m = simp (lookup-erase, text_eq_refl)

  -- Entries assigned one after the other.
  unfoldable pub insert_all : Dict V → Dict V → Dict V
  insert_all [] m = m
  insert_all ((k, v) ∷ es) m = insert_all es (insert k v m)

  -- No key stands twice.
  abbrev pub Distinct : Dict V → Type ℓ
  Distinct [] = Unit
  Distinct ((k, v) ∷ m) = (lookup k m ≡ none) × Distinct m

  pub insert-Distinct : (k : Text) (v : V) (m : Dict V) → Distinct m → Distinct (insert k v m)
  unfolding insert lookup
  insert-Distinct k v [] h = (refl, tt)
  insert-Distinct k v ((j, w) ∷ m) (hj, hm) = elim (Bool-cases (text_eq j k)) [
    | inl e ↦
        subst (λ b. Distinct (if b then (k, v) ∷ m else (j, w) ∷ insert k v m)) (sym e)
          (subst (λ x. lookup x m ≡ none) ((text_eq_iff j k).0 e) hj, hm)
    | inr e ↦
        subst (λ b. Distinct (if b then (k, v) ∷ m else (j, w) ∷ insert k v m)) (sym e)
          (absent e, insert-Distinct k v m hm)
  ]
    where
      absent : text_eq j k ≡ false → lookup j (insert k v m) ≡ none
      absent e = ground (arith, hj, lookup-insert k j v m, text_eq_iff j k, text_eq_iff k j)

  pub erase-Distinct : (k : Text) (m : Dict V) → Distinct m → Distinct (erase k m)
  unfolding erase
  erase-Distinct k [] h = tt
  erase-Distinct k ((j, w) ∷ m) (hj, hm) = elim (Bool-cases (text_eq j k)) [
    | inl e ↦
        subst (λ b. Distinct (if b then erase k m else (j, w) ∷ erase k m)) (sym e)
          (erase-Distinct k m hm)
    | inr e ↦
        subst (λ b. Distinct (if b then erase k m else (j, w) ∷ erase k m)) (sym e)
          (absent, erase-Distinct k m hm)
  ]
    where
      absent : lookup j (erase k m) ≡ none
      absent = ground (arith, hj, lookup-erase k j m)

  -- The first value, or else the second.
  abbrev pub or_else : Option V → Option V → Option V
  or_else none o = o
  or_else (some v) o = some v

  pub or_else-lookup : (o : Option V) (k : Text) → or_else o (lookup k []) ≡ o
  unfolding lookup
  or_else-lookup none k = refl
  or_else-lookup (some v) k = refl

  pub lookup-insert_all :
      (es m : Dict V) (j : Text)
      → Distinct es
      → lookup j (insert_all es m) ≡ or_else (lookup j es) (lookup j m)
  unfolding insert_all lookup
  lookup-insert_all [] m j h = refl
  lookup-insert_all ((k, v) ∷ es) m j (hk, hs) =
      ground
        (arith, text_eq_iff k j, lookup-insert_all es (insert k v m) j hs, lookup-insert k j v m)

-- How a loop over an `unordered_map` meets its entries: each once, in an order of the library's own.
pub record IterationOrder {ℓ} (V : Type ℓ) : Type ℓ where
  pub visit : Dict V → Dict V
  pub visit-Distinct : (m : Dict V) → Distinct m → Distinct (visit m)
  pub lookup-visit : (k : Text) (m : Dict V) → lookup k (visit m) ≡ lookup k m
