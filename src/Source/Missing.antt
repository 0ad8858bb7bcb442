-- ===== src/Source/Missing.antt =====
-- A network library that lacks a symbol.
use bambu_farm.Base.{
  true, false, if◌then◌else◌, some, List, [], ◌∷◌, ◌≡◌, refl, sym, ap, ◌∙◌, Bool-cases, inl, inr,
  take, ◌++◌, map,
}
use bambu_farm.Base.Int.{pos}
use bambu_farm.Base.Text.{Text, text_eq, text_eq_iff}
use bambu_farm.Source.{
  Export, exports, symbol, Linker, Loader, unloaded, is_set, load_symbols, opened, in_directory,
  in_file, load_network_module, directory_of, network_path, null_called, forward, exported,
  exported_all, bambu_source_init,
}

other_symbol :
    (k : Linker) (e f : Export)
    → k.dlsym (symbol f) ≡ true
    → k.dlsym (symbol e) ≡ false
    → text_eq (symbol f) (symbol e) ≡ false
other_symbol k e f found m = elim (Bool-cases (text_eq (symbol f) (symbol e))) [
  | inl same ↦ absurd (
      true_ne_false
        (sym found ∙ ap (λ t. k.dlsym t) ((text_eq_iff (symbol f) (symbol e)).0 same) ∙ m))
  | inr apart ↦ apart
]
  where
    true_ne_false : true ≡ false → ⊥
    true_ne_false h = cc

not_set :
    (k : Linker) (e f : Export) (ps : List Export)
    → k.dlsym (symbol f) ≡ true
    → k.dlsym (symbol e) ≡ false
    → is_set e ps ≡ false
    → is_set e (f ∷ ps) ≡ false
unfolding is_set
not_set k e f ps found m h = rw (other_symbol k e f found m, is_set) h

-- A symbol that is missing gets no pointer, and loading the others leaves the library marked as loaded.
load_symbols-missing :
    (k : Linker) (e : Export) (es : List Export) (s : Loader)
    → k.dlsym (symbol e) ≡ false
    → is_set e s.pointers ≡ false
    → let s' = (load_symbols k es s).0 in
      (is_set e s'.pointers ≡ false) × (s'.network_module ≡ s.network_module)
unfolding load_symbols
load_symbols-missing k e [] s m h = (h, refl)
load_symbols-missing k e (f ∷ es) s m h = elim (Bool-cases (k.dlsym (symbol f))) [
  | inl found ↦
      rw (found, load_symbols)
        (load_symbols-missing k e es (record s { pointers = f ∷ s.pointers }) m (apart found))
  | inr lacking ↦ rw (lacking, load_symbols) (h, refl)
]
  where
    apart : k.dlsym (symbol f) ≡ true → is_set e (f ∷ s.pointers) ≡ false
    apart found = not_set k e f s.pointers found m h

-- The linker finds the network library, and it lacks the symbol.
pub record Lacks (k : Linker) (e : Export) : Type 0 where
  pub file : Text
  pub directory : Text
  pub addressed : k.dladdr ≡ some file
  pub within : directory_of (take 4095 file) ≡ some directory
  pub opens : k.dlopen (network_path directory) ≡ true
  pub missing : k.dlsym (symbol e) ≡ false

found_module :
    (k : Linker) (e : Export)
    → Lacks k e
    → in_file k unloaded k.dladdr
      ≡ load_symbols k exports (record unloaded { network_module = true })
unfolding in_file in_directory opened
found_module k e l =
    ap (in_file k unloaded) l.addressed
    ∙ ap (in_directory k unloaded) l.within
    ∙ ap (opened k unloaded) l.opens

loaded_again :
    (k : Linker) (s : Loader) → s.network_module ≡ true → load_network_module k s ≡ (s, pos 0)
unfolding load_network_module
loaded_again k s h = ap (λ b. if b then (s, pos 0) else in_file k s k.dladdr) h

forwards :
    (k : Linker) (f : Export) (s : Loader)
    → s.network_module ≡ true
    → exported k f s ≡ (s, forward f s)
unfolding exported
forwards k f s h = rw (loaded_again k s h, exported) refl

calls_null :
    (k : Linker) (e : Export) (s : Loader)
    → s.network_module ≡ true
    → is_set e s.pointers ≡ false
    → exported k e s ≡ (s, null_called e)
unfolding exported forward
calls_null k e s h n = rw (loaded_again k s h, exported) (rw (n, forward) refl)

lacking_answers :
    (e : Export) (cs : List (Linker × Export)) (k' : Linker) (s : Loader)
    → s.network_module ≡ true
    → is_set e s.pointers ≡ false
    → exported_all (cs ++ (k', e) ∷ []) s ≡ map (λ c. forward c.1 s) cs ++ null_called e ∷ []
unfolding exported_all
lacking_answers e [] k' s h n = ap (λ q. q.1 ∷ []) (calls_null k' e s h n)
lacking_answers e ((k, f) ∷ cs) k' s h n =
    rw (forwards k f s h, exported_all)
      (ap (λ as'. forward f s ∷ as') (lacking_answers e cs k' s h n))

-- Where the network library is found when this one is loaded, but lacks a symbol, it is loaded in part
-- and counts as loaded: from then on every call is forwarded by the pointers that were found, and a call
-- of the function that is missing calls a null pointer, whatever was called before and whatever the
-- linker answers by then.
pub exported_missing :
    (k k' : Linker) (cs : List (Linker × Export)) (e : Export)
    → Lacks k e
    → let s = bambu_source_init k unloaded in
      exported_all (cs ++ (k', e) ∷ []) s ≡ map (λ c. forward c.1 s) cs ++ null_called e ∷ []
unfolding bambu_source_init load_network_module
exported_missing k k' cs e l = lacking_answers e cs k' _ marked lacking
  where
    kept :
        let s' = (load_symbols k exports (record unloaded { network_module = true })).0 in
        (is_set e s'.pointers ≡ false) × (s'.network_module ≡ true)
    kept =
        load_symbols-missing k e exports (record unloaded { network_module = true }) l.missing
          (unfold is_set in refl)

    lacking : is_set e (in_file k unloaded k.dladdr).0.pointers ≡ false
    lacking = rw (found_module k e l) kept.0

    marked : (in_file k unloaded k.dladdr).0.network_module ≡ true
    marked = rw (found_module k e l) kept.1
