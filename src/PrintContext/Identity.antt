-- ===== src/PrintContext/Identity.antt =====
-- What `rewrite_status_message` of bambu-farm-client/cpp/local_print_context.cpp makes sure of for a
-- print that is running.
use bambu_farm.Base.{
  ℕ, ◌+◌, true, false, some, if◌then◌else◌, if_cases, [], ◌∷◌, ◌++◌, ◌≡◌, ◌≢◌, refl, arith, All,
  Bool-cases, inl, inr, ap, ◌∙◌, sym, subst, append_assoc, ◌⊎◌,
}
use bambu_farm.Base.Text.{Text, codes, is_empty, find, find_from, insert_at}
use bambu_farm.Base.Text.Occurs.{occurs, occurs_insert, occurs_inserted}
use bambu_farm.PrintContext.Capability.{HasPlaces, insert_places, inject_file_capability-HasPlaces}
use bambu_farm.Base.Dict.{lookup}
use bambu_farm.LocalState.Contexts.{LocalPrintContext}
use bambu_farm.PrintJob.Escape.{json_escape}
use bambu_farm.PrintContext.{
  Contexts, rewrite_status_message, inject_identity, inject_file_capability, injected,
  missing_field,
}

-- A key as it stands in the message.
abbrev pub quoted : Text → Text
quoted key = b'"' ∷ (key ++ codes "\"")

-- The four keys that Bambu Studio needs stand in the message, from a position on.
abbrev pub HasIdentity : ℕ → Text → Type 0
HasIdentity pos message =
    All (λ key. occurs (quoted key) pos message ≡ true)
      (codes "project_id" ∷ codes "profile_id" ∷ codes "subtask_id" ∷ codes "task_id" ∷ [])

-- The field that is added begins with its key.
field_cases :
    (key value : Text) (pos : ℕ) (message : Text)
    → (occurs (quoted key) pos message ≡ true)
      ⊎ ((r : Text) × (missing_field key value pos message ≡ quoted key ++ r))
unfolding missing_field
field_cases key value pos message = elim (Bool-cases (occurs (quoted key) pos message)) [
  | inl h ↦ inl h
  | inr h ↦ inr (codes ":\"" ++ (json_escape value ++ codes "\","), rw h (simp append_assoc))
]

nonempty : (l : Text) (a : ℕ) (s : Text) → is_empty (l ++ a ∷ s) ≡ false
nonempty [] a s = refl
nonempty (c ∷ l) a s = refl

module _ (context : LocalPrintContext) (message : Text) (p o : ℕ)
    (found_key : find (codes "\"print\"") message ≡ some p)
    (found_object : find_from (codes "{") p message ≡ some o) where
  identity_found : inject_identity context message ≡ (
      if is_empty (injected context p message)
      then message
      else insert_at (o + 1) (injected context p message) message)
  unfolding inject_identity
  identity_found = rw (found_key, found_object) refl

  abbrev inserted : Text → Text
  inserted t = if is_empty t then message else insert_at (o + 1) t message

  inject_identity-HasPlaces : HasPlaces p o (inject_identity context message)
  inject_identity-HasPlaces = subst (HasPlaces p o) (sym identity_found) (
      if_cases (HasPlaces p o) (is_empty (injected context p message)) message
        (insert_at (o + 1) (injected context p message) message) (found_key, found_object)
        (insert_places message p o (found_key, found_object) (injected context p message) p o
          found_object (omega arith)))

  -- A text without a brace survives.
  kept :
      (n : Text)
      → All (λ a. a ≢ b'{') n
      → occurs n p message ≡ true
      → occurs n p (inject_identity context message) ≡ true
  kept n hn h =
      subst (λ u. occurs n p u ≡ true) (sym identity_found)
        (if_cases (λ u. occurs n p u ≡ true) (is_empty (injected context p message)) message
          (insert_at (o + 1) (injected context p message) message) h
          (occurs_insert b'{' (injected context p message) n p message o hn found_object h))

  added :
      (key l r : Text)
      → injected context p message ≡ l ++ (quoted key ++ r)
      → occurs (quoted key) p (inject_identity context message) ≡ true
  added key l r e =
      subst (λ u. occurs (quoted key) p u ≡ true)
        (sym (
          identity_found
          ∙ ap inserted e
          ∙ ap (λ b. if b then message else insert_at (o + 1) (l ++ (quoted key ++ r)) message)
              (nonempty l b'"' ((key ++ codes "\"") ++ r))))
        (occurs_inserted b'{' l (quoted key) r p message o found_object)

  -- A field that the insertion consists of, or that is there already.
  key_occurs :
      (key value l r : Text)
      → All (λ a. a ≢ b'{') (quoted key)
      → injected context p message ≡ l ++ (missing_field key value p message ++ r)
      → occurs (quoted key) p (inject_identity context message) ≡ true
  key_occurs key value l r hk e = elim (field_cases key value p message) [
    | inl h ↦ kept (quoted key) hk h
    | inr (q, d) ↦
        added key l (q ++ r)
          (e ∙ ap (λ u. l ++ (u ++ r)) d ∙ ap (λ u. l ++ u) (append_assoc (quoted key) q r))
  ]

  inject_identity-HasIdentity : HasIdentity p (inject_identity context message)
  unfolding injected
  inject_identity-HasIdentity =
      let f₁ = missing_field (codes "project_id") context.project_id p message in
      let f₂ = missing_field (codes "profile_id") context.profile_id p message in
      let f₃ = missing_field (codes "subtask_id") context.subtask_id p message in
      let f₄ = missing_field (codes "task_id") context.task_id p message in
      (
        key_occurs (codes "project_id") context.project_id [] (f₂ ++ (f₃ ++ (f₄ ++ [])))
            (ground arith) refl,
        (
          key_occurs (codes "profile_id") context.profile_id f₁ (f₃ ++ (f₄ ++ [])) (ground arith)
              refl,
          (
            key_occurs (codes "subtask_id") context.subtask_id (f₁ ++ f₂) (f₄ ++ []) (ground arith)
                (sym (append_assoc f₁ f₂ (f₃ ++ (f₄ ++ [])))),
            (
              key_occurs (codes "task_id") context.task_id (f₁ ++ (f₂ ++ f₃)) [] (ground arith)
                  (simp append_assoc),
              tt,
            ),
          ),
        ),
      )

rewrite_active :
    (contexts : Contexts) (device_id message : Text) (context : LocalPrintContext)
    → lookup device_id contexts ≡ some context
    → context.active ≡ true
    → rewrite_status_message contexts device_id message
      ≡ inject_identity context (inject_file_capability message)
unfolding rewrite_status_message inject_identity
rewrite_active contexts device_id message context h active =
    rw (rewrite_status_message, h, active) refl

-- For a print that is running, a message with a `print` key and an object behind it is passed on with
-- both at the same places and with all four keys behind them, those that it had before and those that
-- are added.
pub rewrite_status_message-HasIdentity :
    (contexts : Contexts) (device_id message : Text) (context : LocalPrintContext) (p o : ℕ)
    → lookup device_id contexts ≡ some context
    → context.active ≡ true
    → HasPlaces p o message
    → HasPlaces p o (rewrite_status_message contexts device_id message)
      × HasIdentity p (rewrite_status_message contexts device_id message)
rewrite_status_message-HasIdentity contexts device_id message context p o h active places =
    let stored = inject_file_capability message in
    let (key, object) = inject_file_capability-HasPlaces message p o places in
    subst (λ u. HasPlaces p o u × HasIdentity p u)
      (sym (rewrite_active contexts device_id message context h active))
      (
        inject_identity-HasPlaces context stored p o key object,
        inject_identity-HasIdentity context stored p o key object,
      )
