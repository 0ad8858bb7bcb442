-- ===== src/PrintContext/Subtask.antt =====
-- The answers of bambu-farm-client/cpp/local_print_context.cpp about a print by its subtask.
use bambu_farm.Base.{
  true, false, ◌&&◌, some, is_some, [], ◌∷◌, ◌≡◌, refl, sym, subst, ◌∙◌, arith, Bool-cases,
  Option-cases, inl, inr,
}
use bambu_farm.Base.Text.{Text, codes, text_eq, text_eq_iff}
use bambu_farm.Base.Dict.{lookup, lookup-insert_self, IterationOrder}
use bambu_farm.LocalState.Paths.{FileSystem, Environment}
use bambu_farm.LocalState.Contexts.{LocalPrintContext}
use bambu_farm.PrintContext.{
  Contexts, update, find_subtask, lookup_subtask_id, build_subtask_info, task_json_of,
}

-- An active context of the subtask.
pub record Fits (subtask_id : Text) (c : LocalPrintContext) : Type 0 where
  pub running : c.active ≡ true
  pub same : c.subtask_id ≡ subtask_id

matched-Fits :
    (subtask_id : Text) (c : LocalPrintContext)
    → (c.active && text_eq c.subtask_id subtask_id) ≡ true
    → Fits subtask_id c
matched-Fits subtask_id c e = record {
  running = ground arith;
  same = ground (arith, text_eq_iff c.subtask_id subtask_id);
}

find_subtask_here :
    (subtask_id dev_id : Text) (context : LocalPrintContext) (m : Contexts)
    → (context.active && text_eq context.subtask_id subtask_id) ≡ true
    → find_subtask subtask_id ((dev_id, context) ∷ m) ≡ some context
unfolding find_subtask
find_subtask_here subtask_id dev_id context m e = rw (e, find_subtask) refl

find_subtask_later :
    (subtask_id dev_id : Text) (context : LocalPrintContext) (m : Contexts)
    → (context.active && text_eq context.subtask_id subtask_id) ≡ false
    → find_subtask subtask_id ((dev_id, context) ∷ m) ≡ find_subtask subtask_id m
unfolding find_subtask
find_subtask_later subtask_id dev_id context m e = rw (e, find_subtask) refl

found_same : {a b : LocalPrintContext} → some a ≡ some b → a ≡ b
found_same e = cc

find_subtask_nil :
    (subtask_id : Text) (c : LocalPrintContext) → find_subtask subtask_id [] ≡ some c → ⊥
unfolding find_subtask
find_subtask_nil subtask_id c e = cc

find_subtask_sound :
    (subtask_id : Text) (m : Contexts) (c : LocalPrintContext)
    → find_subtask subtask_id m ≡ some c
    → Fits subtask_id c
find_subtask_sound subtask_id [] c h = absurd (find_subtask_nil subtask_id c h)
find_subtask_sound subtask_id ((dev_id, context) ∷ m) c h =
    elim (Bool-cases (context.active && text_eq context.subtask_id subtask_id)) [
      | inl e ↦
          subst (Fits subtask_id)
            (found_same (sym (find_subtask_here subtask_id dev_id context m e) ∙ h))
            (matched-Fits subtask_id context e)
      | inr e ↦
          find_subtask_sound subtask_id m c
            (sym (find_subtask_later subtask_id dev_id context m e) ∙ h)
    ]

find_subtask_complete :
    (subtask_id d : Text) (m : Contexts) (c : LocalPrintContext)
    → lookup d m ≡ some c
    → Fits subtask_id c
    → is_some (find_subtask subtask_id m) ≡ true
unfolding find_subtask lookup
find_subtask_complete subtask_id d [] c h f = cc
find_subtask_complete subtask_id d ((dev_id, context) ∷ m) c h f = ground (
  arith,
  text_eq_iff context.subtask_id subtask_id,
  find_subtask_complete subtask_id d m c,
  f.running,
  f.same,
)

answer_found :
    (order : IterationOrder LocalPrintContext) (subtask_id : Text) (m : Contexts)
    (c : LocalPrintContext)
    → lookup_subtask_id order subtask_id m ≡ some c
    → build_subtask_info order subtask_id m
      ≡ record { found = true; http_code = 200; http_body = codes "{}"; task_json = task_json_of c }
unfolding build_subtask_info
answer_found order subtask_id m c e = rw (e, build_subtask_info) refl

found_in :
    (order : IterationOrder LocalPrintContext) (d : Text) (m : Contexts) (c : LocalPrintContext)
    → lookup d m ≡ some c
    → c.active ≡ true
    → is_some (lookup_subtask_id order c.subtask_id m) ≡ true
unfolding lookup_subtask_id
found_in order d m c e a =
    find_subtask_complete c.subtask_id d (order.visit m) c (order.lookup-visit d m ∙ e)
      (record { running = a; same = refl })

-- What `build_subtask_info` answers where it finds a print: that of an active context of the subtask.
abbrev pub IsAnswered : IterationOrder LocalPrintContext → Text → Contexts → Type 0
IsAnswered order subtask_id m =
    (c : LocalPrintContext) × Fits subtask_id c
    × (build_subtask_info order subtask_id m ≡ record {
      found = true;
      http_code = 200;
      http_body = codes "{}";
      task_json = task_json_of c;
    })

answered :
    (order : IterationOrder LocalPrintContext) (subtask_id : Text) (m : Contexts)
    → is_some (lookup_subtask_id order subtask_id m) ≡ true
    → IsAnswered order subtask_id m
answered order subtask_id m h = elim (Option-cases (lookup_subtask_id order subtask_id m)) [
  | inl e ↦ absurd (cc)
  | inr (c, e) ↦ (
    c,
    find_subtask_sound subtask_id (order.visit m) c (unfold lookup_subtask_id in e),
    answer_found order subtask_id m c e,
  )
]

-- An active context is found by its subtask, under whatever device it stands.
pub known-IsAnswered :
    (order : IterationOrder LocalPrintContext) (d : Text) (m : Contexts) (c : LocalPrintContext)
    → lookup d m ≡ some c
    → c.active ≡ true
    → IsAnswered order c.subtask_id m
known-IsAnswered order d m c e a = answered order c.subtask_id m (found_in order d m c e a)

module _ (fs : FileSystem) (env : Environment) (order : IterationOrder LocalPrintContext) where
  open fs use {Disk}

  -- After an active context was stored, whatever other contexts there are and in whatever order they
  -- are visited, a question for its subtask is answered with status 200 and with the plate of an
  -- active context of that subtask.
  pub build_subtask_info-update :
      (context : LocalPrintContext) (config_dir : Text) (contexts : Contexts) (disk : Disk)
      → context.active ≡ true
      → IsAnswered order context.subtask_id
          (update fs env order context config_dir (contexts, disk)).0
  unfolding update
  build_subtask_info-update context config_dir contexts disk a =
      known-IsAnswered order context.dev_id _ context
        (lookup-insert_self context.dev_id context contexts) a
