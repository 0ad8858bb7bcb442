-- ===== src/LocalState/Contexts/RoundTrip.antt =====
-- A context that was written is read back.
use bambu_farm.Base.{true, false, some, List, [], ◌∷◌, ◌++◌, ◌≡◌, refl, sym, ap, ◌∙◌, append_assoc}
use bambu_farm.Base.Text.{Text, is_empty}
use bambu_farm.Base.Decimal.{show_int}
use bambu_farm.Base.Dict.{Dict, insert, insert_all}
use bambu_farm.LocalState.Lines.{
  Lacks, lines, lines_cons, split_tabs, split_tabs_cons, split_tabs_last,
}
use bambu_farm.LocalState.Contexts.{
  LocalPrintContext, Stoi, context_of, or_zero, context_line, contexts_text, is_stored, add_context,
  load_context, load_contexts,
}

-- The fields of a line, without its line break.
abbrev pub fields_text : LocalPrintContext → Text
fields_text c =
    c.dev_id
    ++ b'\t'
      ∷ (c.project_id
          ++ b'\t'
            ∷ (c.profile_id
                ++ b'\t'
                  ∷ (c.subtask_id
                      ++ b'\t'
                        ∷ (c.task_id
                            ++ b'\t'
                              ∷ (c.remote_filename
                                  ++ b'\t'
                                    ∷ (c.plate_path
                                        ++ b'\t'
                                          ∷ (c.thumbnail_url
                                              ++ b'\t' ∷ show_int c.plate_index)))))))

pub record IsTabless (c : LocalPrintContext) : Type 0 where
  pub t0 : Lacks b'\t' c.dev_id
  pub t1 : Lacks b'\t' c.project_id
  pub t2 : Lacks b'\t' c.profile_id
  pub t3 : Lacks b'\t' c.subtask_id
  pub t4 : Lacks b'\t' c.task_id
  pub t5 : Lacks b'\t' c.remote_filename
  pub t6 : Lacks b'\t' c.plate_path
  pub t7 : Lacks b'\t' c.thumbnail_url
  pub t8 : Lacks b'\t' (show_int c.plate_index)

split_tabs-fields_text :
    (c : LocalPrintContext)
    → IsTabless c
    → split_tabs [] (fields_text c)
      ≡ c.dev_id
        ∷ c.project_id
        ∷ c.profile_id
        ∷ c.subtask_id
        ∷ c.task_id
        ∷ c.remote_filename
        ∷ c.plate_path
        ∷ c.thumbnail_url
        ∷ show_int c.plate_index
        ∷ []
split_tabs-fields_text c t =
    rw
      (
        split_tabs_cons c.dev_id _ t.t0,
        split_tabs_cons c.project_id _ t.t1,
        split_tabs_cons c.profile_id _ t.t2,
        split_tabs_cons c.subtask_id _ t.t3,
        split_tabs_cons c.task_id _ t.t4,
        split_tabs_cons c.remote_filename _ t.t5,
        split_tabs_cons c.plate_path _ t.t6,
        split_tabs_cons c.thumbnail_url _ t.t7,
        split_tabs_last _ t.t8,
      )
      refl

kept_fields :
    (stoi : Stoi) (c : LocalPrintContext)
    → is_empty c.dev_id ≡ false
    → context_of stoi (
        c.dev_id
        ∷ c.project_id
        ∷ c.profile_id
        ∷ c.subtask_id
        ∷ c.task_id
        ∷ c.remote_filename
        ∷ c.plate_path
        ∷ c.thumbnail_url
        ∷ show_int c.plate_index
        ∷ [])
      ≡ some (record c { plate_index = or_zero (stoi (show_int c.plate_index)); active = true })
unfolding context_of
kept_fields stoi c n = rw (n, context_of) refl

-- A context that is active and has a device, and whose texts hold neither a tab nor a line break, with a
-- plate that `stoi` reads back.
pub record IsPlainContext (stoi : Stoi) (c : LocalPrintContext) : Type 0 where
  pub tabless : IsTabless c
  pub on_line : Lacks b'\n' (fields_text c)
  pub named : is_empty c.dev_id ≡ false
  pub running : c.active ≡ true
  pub counted : stoi (show_int c.plate_index) ≡ some c.plate_index

context_of-fields_text :
    (stoi : Stoi) (c : LocalPrintContext)
    → IsPlainContext stoi c
    → context_of stoi (split_tabs [] (fields_text c)) ≡ some c
context_of-fields_text stoi c p =
    ap (context_of stoi) (split_tabs-fields_text c p.tabless)
    ∙ kept_fields stoi c p.named
    ∙ ap (λ o. some (record c { plate_index = or_zero o; active = true })) p.counted
    ∙ ap (λ b. some (record c { active = b })) (sym p.running)

context_line-fields_text : (c : LocalPrintContext) → context_line c ≡ fields_text c ++ b'\n' ∷ []
unfolding context_line
context_line-fields_text c = simp append_assoc

load_contexts_cons :
    (stoi : Stoi) (line : Text) (ls : List Text) (loaded : Dict LocalPrintContext)
    → load_contexts stoi (line ∷ ls) loaded
      ≡ load_contexts stoi ls (add_context (context_of stoi (split_tabs [] line)) loaded)
unfolding load_contexts load_context
load_contexts_cons stoi line ls loaded = refl

load_contexts-context_line :
    (stoi : Stoi) (c : LocalPrintContext) (rest : Text) (loaded : Dict LocalPrintContext)
    → IsPlainContext stoi c
    → load_contexts stoi (lines [] (context_line c ++ rest)) loaded
      ≡ load_contexts stoi (lines [] rest) (insert c.dev_id c loaded)
load_contexts-context_line stoi c rest loaded p =
    ap (λ t. load_contexts stoi (lines [] t) loaded) regroup
    ∙ ap (λ ls. load_contexts stoi ls loaded) (lines_cons (fields_text c) rest p.on_line)
    ∙ load_contexts_cons stoi (fields_text c) (lines [] rest) loaded
    ∙ ap (λ o. load_contexts stoi (lines [] rest) (add_context o loaded))
        (context_of-fields_text stoi c p)
  where
    regroup : context_line c ++ rest ≡ fields_text c ++ b'\n' ∷ rest
    regroup =
        ap (λ t. t ++ rest) (context_line-fields_text c)
        ∙ append_assoc (fields_text c) (b'\n' ∷ []) rest

-- Every entry is plain and stands under its own device.
abbrev pub ArePlain : Stoi → Dict LocalPrintContext → Type 0
ArePlain stoi [] = Unit
ArePlain stoi ((dev_id, c) ∷ m) = (dev_id ≡ c.dev_id) × (IsPlainContext stoi c) × ArePlain stoi m

contexts_text_cons :
    (dev_id : Text) (c : LocalPrintContext) (m : Dict LocalPrintContext)
    → is_stored dev_id c ≡ true
    → contexts_text ((dev_id, c) ∷ m) ≡ context_line c ++ contexts_text m
unfolding contexts_text
contexts_text_cons dev_id c m k = rw (k, contexts_text) refl

load_contexts_nil :
    (stoi : Stoi) (loaded : Dict LocalPrintContext)
    → load_contexts stoi (lines [] (contexts_text [])) loaded ≡ insert_all [] loaded
unfolding load_contexts lines contexts_text insert_all
load_contexts_nil stoi loaded = refl

insert_all_cons :
    (dev_id : Text) (c : LocalPrintContext) (m loaded : Dict LocalPrintContext)
    → insert_all ((dev_id, c) ∷ m) loaded ≡ insert_all m (insert dev_id c loaded)
unfolding insert_all
insert_all_cons dev_id c m loaded = refl

-- The text that is written for contexts that are active, each under its own device, whose texts hold
-- neither a tab nor a line break and whose plates `stoi` reads back, is read as exactly those contexts,
-- assigned one after the other in the order in which they were written.
pub load_contexts-contexts_text :
    (stoi : Stoi) (m loaded : Dict LocalPrintContext)
    → ArePlain stoi m
    → load_contexts stoi (lines [] (contexts_text m)) loaded ≡ insert_all m loaded
load_contexts-contexts_text stoi [] loaded h = load_contexts_nil stoi loaded
load_contexts-contexts_text stoi ((dev_id, c) ∷ m) loaded (e, p, h) =
    ap (λ t. load_contexts stoi (lines [] t) loaded) (contexts_text_cons dev_id c m stored)
    ∙ load_contexts-context_line stoi c (contexts_text m) loaded p
    ∙ load_contexts-contexts_text stoi m (insert c.dev_id c loaded) h
    ∙ ap (λ d. insert_all m (insert d c loaded)) (sym e)
    ∙ sym (insert_all_cons dev_id c m loaded)
  where
    stored : is_stored dev_id c ≡ true
    stored = simp (e, p.running, p.named)
