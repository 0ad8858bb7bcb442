-- ===== src/Source/Calls.antt =====
-- With a network library that has all its symbols, no null pointer is ever called.
use bambu_farm.Base.{
  Bool, true, false, if◌then◌else◌, Option, none, some, List, [], ◌∷◌, ◌≡◌, refl, sym, All,
  Bool-cases, ◌⊎◌, subst, inl, inr, if_cases,
}
use bambu_farm.Base.Int.{ℤ, pos, negsuc, int_eq}
use bambu_farm.Base.Text.{Text, text_eq}
use bambu_farm.Source.{
  Export, exports, symbol, Linker, Loader, unloaded, is_set, load_symbols, opened, in_directory,
  in_file, load_network_module, Answer, forwarded, null_called, refusal, forward, exported,
  bambu_source_init, exported_all, create, set_logger, open_tunnel, start_stream, start_stream_ex,
  get_stream_count, get_stream_info, get_duration, seek, send_message, read_sample, recv_message,
  close, destroy, init, deinit, get_last_error_msg, free_log_msg,
}

-- The library that the linker finds, if it finds one, has every symbol.
abbrev pub IsWhole : Linker → Type 0
IsWhole k = All (λ e. k.dlsym (symbol e) ≡ true) exports

-- A library that counts as loaded has all its pointers.
abbrev pub IsReady : Loader → Type 0
IsReady s = (s.network_module ≡ false) ⊎ ((e : Export) → is_set e s.pointers ≡ true)

pushed : List Export → List Export → List Export
pushed [] ps = ps
pushed (e ∷ es) ps = pushed es (e ∷ ps)

load_symbols_whole :
    (k : Linker) (es : List Export) (s : Loader)
    → All (λ e. k.dlsym (symbol e) ≡ true) es
    → load_symbols k es s ≡ (record s { pointers = pushed es s.pointers }, pos 0)
unfolding load_symbols pushed
load_symbols_whole k [] s h = refl
load_symbols_whole k (e ∷ es) s (he, hs) =
    rw (he, load_symbols) (load_symbols_whole k es (record s { pointers = e ∷ s.pointers }) hs)

pushed_all : (e : Export) (ps : List Export) → is_set e (pushed exports ps) ≡ true
unfolding is_set pushed text_eq
pushed_all create ps = refl
pushed_all set_logger ps = refl
pushed_all open_tunnel ps = refl
pushed_all start_stream ps = refl
pushed_all start_stream_ex ps = refl
pushed_all get_stream_count ps = refl
pushed_all get_stream_info ps = refl
pushed_all get_duration ps = refl
pushed_all seek ps = refl
pushed_all send_message ps = refl
pushed_all read_sample ps = refl
pushed_all recv_message ps = refl
pushed_all close ps = refl
pushed_all destroy ps = refl
pushed_all init ps = refl
pushed_all deinit ps = refl
pushed_all get_last_error_msg ps = refl
pushed_all free_log_msg ps = refl

-- What a load leaves behind: with result 0 all pointers, else what was there before.
abbrev Settled : Loader × ℤ → Type 0
Settled (s, code) =
    ((e : Export) → is_set e s.pointers ≡ true) ⊎ ((s.network_module ≡ false) × (code ≡ negsuc 0))

opened-Settled :
    (k : Linker) (s : Loader) (b : Bool)
    → IsWhole k
    → s.network_module ≡ false
    → Settled (opened k s b)
unfolding opened
opened-Settled k s true w u =
    subst Settled (sym (load_symbols_whole k exports (record s { network_module = true }) w))
      (inl (λ e. pushed_all e s.pointers))
opened-Settled k s false w u = inr (u, refl)

in_directory-Settled :
    (k : Linker) (s : Loader) (o : Option Text)
    → IsWhole k
    → s.network_module ≡ false
    → Settled (in_directory k s o)
unfolding in_directory
in_directory-Settled k s none w u = inr (u, refl)
in_directory-Settled k s (some directory) w u = opened-Settled k s _ w u

in_file-Settled :
    (k : Linker) (s : Loader) (o : Option Text)
    → IsWhole k
    → s.network_module ≡ false
    → Settled (in_file k s o)
unfolding in_file
in_file-Settled k s none w u = inr (u, refl)
in_file-Settled k s (some file) w u = in_directory-Settled k s _ w u

load_network_module-Settled :
    (k : Linker) (s : Loader) → IsWhole k → IsReady s → Settled (load_network_module k s)
unfolding load_network_module
load_network_module-Settled k s w r = elim (Bool-cases s.network_module) [
  | inl e ↦
      subst (λ b. Settled (if b then (s, pos 0) else in_file k s k.dladdr)) (sym e)
        (inl (ready e r))
  | inr e ↦
      subst (λ b. Settled (if b then (s, pos 0) else in_file k s k.dladdr)) (sym e)
        (in_file-Settled k s k.dladdr w e)
]
  where
    ready : s.network_module ≡ true → IsReady s → (e : Export) → is_set e s.pointers ≡ true
    ready e (inl u) = absurd (cc)
    ready e (inr all) = all

-- No null pointer is called.
abbrev pub IsSafe : Answer → Type 0
IsSafe (null_called e) = ⊥
IsSafe _ = Unit

refusal-IsSafe : (e : Export) (s : Loader) → IsSafe (refusal e s)
refusal-IsSafe create s = tt
refusal-IsSafe set_logger s = tt
refusal-IsSafe open_tunnel s = tt
refusal-IsSafe start_stream s = tt
refusal-IsSafe start_stream_ex s = tt
refusal-IsSafe get_stream_count s = tt
refusal-IsSafe get_stream_info s = tt
refusal-IsSafe get_duration s = tt
refusal-IsSafe seek s = tt
refusal-IsSafe send_message s = tt
refusal-IsSafe read_sample s = tt
refusal-IsSafe recv_message s = tt
refusal-IsSafe close s = tt
refusal-IsSafe destroy s = tt
refusal-IsSafe init s = tt
refusal-IsSafe deinit s = tt
refusal-IsSafe get_last_error_msg s = tt
refusal-IsSafe free_log_msg s = tt

forward-IsSafe : (e : Export) (s : Loader) → is_set e s.pointers ≡ true → IsSafe (forward e s)
unfolding forward
forward-IsSafe e s h = subst (λ b. IsSafe (if b then forwarded e else null_called e)) (sym h) tt

exported-IsSafe :
    (k : Linker) (e : Export) (s : Loader)
    → IsWhole k
    → IsReady s
    → IsSafe (exported k e s).1 × IsReady (exported k e s).0
unfolding exported
exported-IsSafe k e s w r = settled (load_network_module k s) (load_network_module-Settled k s w r)
  where
    settled :
        (q : Loader × ℤ)
        → Settled q
        → IsSafe (if int_eq q.1 (pos 0) then forward e q.0 else refusal e q.0) × IsReady q.0
    settled (s', code) (inl all) = (
      if_cases IsSafe (int_eq code (pos 0)) (forward e s') (refusal e s')
          (forward-IsSafe e s' (all e)) (refusal-IsSafe e s'),
      inr all,
    )
    settled (s', code) (inr (u, failed)) = rw failed (refusal-IsSafe e s', inl u)

exported_all-IsReady :
    (cs : List (Linker × Export)) (s : Loader)
    → All (λ c. IsWhole c.0) cs
    → IsReady s
    → All IsSafe (exported_all cs s)
unfolding exported_all
exported_all-IsReady [] s w r = tt
exported_all-IsReady ((k, e) ∷ cs) s (w, ws) r =
    ((exported-IsSafe k e s w r).0, exported_all-IsReady cs _ ws (exported-IsSafe k e s w r).1)

-- If the network library, where the linker finds one, has all its symbols, then no call of an exported
-- function calls a null pointer, whether or not the library was found when this one was loaded or at any
-- call since.
pub exported_all-IsSafe :
    (k : Linker) (cs : List (Linker × Export))
    → IsWhole k
    → All (λ c. IsWhole c.0) cs
    → All IsSafe (exported_all cs (bambu_source_init k unloaded))
unfolding bambu_source_init
exported_all-IsSafe k cs w ws =
    exported_all-IsReady cs _ ws
      (ready (load_network_module k unloaded) (load_network_module-Settled k unloaded w (inl refl)))
  where
    ready : (q : Loader × ℤ) → Settled q → IsReady q.0
    ready (s, code) (inl all) = inr all
    ready (s, code) (inr (u, failed)) = inl u
