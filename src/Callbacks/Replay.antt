-- ===== src/Callbacks/Replay.antt =====
-- What a function that is registered late learns from bambu-farm-client/cpp/callback_registry.cpp.
use mathlib.Core.List.{flat_map}
use bambu_farm.Base.{
  ℕ, Bool, true, false, if◌then◌else◌, Option, none, some, List, [], ◌∷◌, ◌++◌, map, ◌≡◌, refl,
  arith, ap, ◌∙◌, sym, subst,
}
use bambu_farm.Base.Text.{Text, is_empty, text_eq, text_eq_iff}
use bambu_farm.Base.Dict.{
  Dict, Distinct, IterationOrder, insert-Distinct, lookup, lookup-insert, or_else, or_else-lookup,
}
use bambu_farm.Callbacks.{
  CallbackRegistry, Call, msg_arrived, logged, refreshed, log_if, replay_one, set_ssdp_callback,
  remember_printer_json, printer_json,
}

-- The calls without those of the log.
unfoldable pub unlogged : List Call → List Call
unlogged [] = []
unlogged (logged s ∷ cs) = unlogged cs
unlogged (c ∷ cs) = c ∷ unlogged cs

pub unlogged-append : (cs ds : List Call) → unlogged (cs ++ ds) ≡ unlogged cs ++ unlogged ds
unfolding unlogged
unlogged-append [] ds = refl
unlogged-append (logged s ∷ cs) ds = unlogged-append cs ds
unlogged-append (c ∷ cs) ds = ap (◌∷◌ c) (unlogged-append cs ds)

pub unlogged-log_if : (log_fn : Bool) (s : Text) → unlogged (log_if log_fn s) ≡ []
unfolding unlogged
unlogged-log_if true s = refl
unlogged-log_if false s = refl

-- The announcement that the function gets for an entry.
abbrev pub replayed : ℕ → Text × Text → Call
replayed f (dev_id, json) = msg_arrived f json

unlogged-replay_one :
    (log_fn : Bool) (f : ℕ) (e : Text × Text) → unlogged (replay_one log_fn f e) ≡ replayed f e ∷ []
unfolding replay_one unlogged
unlogged-replay_one true f (dev_id, json) = refl
unlogged-replay_one false f (dev_id, json) = refl

unlogged-replay :
    (log_fn : Bool) (f : ℕ) (m : Dict Text)
    → unlogged (flat_map (replay_one log_fn f) m) ≡ map (replayed f) m
unfolding flat_map
unlogged-replay log_fn f [] = unfold unlogged in refl
unlogged-replay log_fn f (e ∷ m) =
    rw (unlogged-append, unlogged-replay_one log_fn f e, unlogged-replay log_fn f m) refl

unlogged-refreshed :
    (refresh_fn : Bool)
    → unlogged (if refresh_fn then refreshed ∷ [] else [])
      ≡ (if refresh_fn then refreshed ∷ [] else [])
unfolding unlogged
unlogged-refreshed true = refl
unlogged-refreshed false = refl

-- The calls of a registration for announcements, but for the log.
set_ssdp_callback-unlogged :
    (visit : Dict Text → Dict Text) (f : ℕ) (log_fn refresh_fn : Bool) (r : CallbackRegistry)
    → unlogged (set_ssdp_callback visit (some f) log_fn refresh_fn r).1
      ≡ map (replayed f) (visit r.last_printer_json_by_id)
        ++ (if refresh_fn then refreshed ∷ [] else [])
unfolding set_ssdp_callback
set_ssdp_callback-unlogged visit f log_fn refresh_fn r =
    rw
      (
        unlogged-append, unlogged-log_if, unlogged-append, unlogged-replay, unlogged-append,
        unlogged-log_if, unlogged-refreshed,
      )
      refl

-- Announcements, one after the other.
unfoldable pub remember_all : List (Text × Text) → CallbackRegistry → CallbackRegistry
remember_all [] r = r
remember_all ((dev_id, json) ∷ news) r = remember_all news (remember_printer_json dev_id json r)

-- What a device announced last.
unfoldable pub latest : Text → List (Text × Text) → Option Text
latest d [] = none
latest d ((dev_id, json) ∷ news) =
    or_else (latest d news) (if text_eq dev_id d then some json else none)

if_or :
    (b : Bool) (json : Text) (o : Option Text)
    → (if b then some json else o) ≡ or_else (if b then some json else none) o
if_or true json o = refl
if_or false json o = refl

lookup-remember :
    (r : CallbackRegistry) (dev_id json d : Text)
    → is_empty d ≡ false
    → lookup d (remember_printer_json dev_id json r).last_printer_json_by_id
      ≡ or_else (if text_eq dev_id d then some json else none) (lookup d r.last_printer_json_by_id)
unfolding remember_printer_json
lookup-remember r [] json d n = ground (arith, text_eq_iff [] d)
lookup-remember r (c ∷ dev_id) json d n =
    rw (lookup-insert (c ∷ dev_id) d json r.last_printer_json_by_id)
      (if_or (text_eq (c ∷ dev_id) d) json (lookup d r.last_printer_json_by_id))

lookup-remember_all :
    (news : List (Text × Text)) (r : CallbackRegistry) (d : Text)
    → is_empty d ≡ false
    → lookup d (remember_all news r).last_printer_json_by_id
      ≡ or_else (latest d news) (lookup d r.last_printer_json_by_id)
unfolding remember_all latest
lookup-remember_all [] r d n = refl
lookup-remember_all ((dev_id, json) ∷ news) r d n = ground (
  arith,
  lookup-remember_all news (remember_printer_json dev_id json r) d n,
  lookup-remember r dev_id json d n,
)

abbrev pub value_or_empty : Option Text → Text
value_or_empty none = []
value_or_empty (some j) = j

-- After any announcements to a registry that knew no printer, what is kept of a device with a name is
-- what it announced last, and nothing where it announced nothing.
pub printer_json-latest :
    (news : List (Text × Text)) (r : CallbackRegistry) (d : Text)
    → r.last_printer_json_by_id ≡ []
    → is_empty d ≡ false
    → printer_json d (remember_all news r) ≡ value_or_empty (latest d news)
unfolding printer_json
printer_json-latest news r d e n = ap value_or_empty (
    lookup-remember_all news r d n
    ∙ ap (λ m. or_else (latest d news) (lookup d m)) e
    ∙ or_else-lookup (latest d news) d)

remember-Distinct :
    (dev_id json : Text) (r : CallbackRegistry)
    → Distinct r.last_printer_json_by_id
    → Distinct (remember_printer_json dev_id json r).last_printer_json_by_id
unfolding remember_printer_json
remember-Distinct [] json r h = h
remember-Distinct (c ∷ dev_id) json r h = insert-Distinct (c ∷ dev_id) json _ h

remember_all-Distinct :
    (news : List (Text × Text)) (r : CallbackRegistry)
    → Distinct r.last_printer_json_by_id
    → Distinct (remember_all news r).last_printer_json_by_id
unfolding remember_all
remember_all-Distinct [] r h = h
remember_all-Distinct ((dev_id, json) ∷ news) r h =
    remember_all-Distinct news _ (remember-Distinct dev_id json r h)

lookup-remember_nobody :
    (r : CallbackRegistry) (dev_id json : Text)
    → lookup [] (remember_printer_json dev_id json r).last_printer_json_by_id
      ≡ lookup [] r.last_printer_json_by_id
unfolding remember_printer_json
lookup-remember_nobody r [] json = refl
lookup-remember_nobody r (c ∷ dev_id) json = ground (
  arith,
  lookup-insert (c ∷ dev_id) [] json r.last_printer_json_by_id,
  text_eq_iff (c ∷ dev_id) [],
)

lookup-remember_all_nobody :
    (news : List (Text × Text)) (r : CallbackRegistry)
    → lookup [] (remember_all news r).last_printer_json_by_id ≡ lookup [] r.last_printer_json_by_id
unfolding remember_all
lookup-remember_all_nobody [] r = refl
lookup-remember_all_nobody ((dev_id, json) ∷ news) r =
    lookup-remember_all_nobody news _ ∙ lookup-remember_nobody r dev_id json

-- What a printer announced last; an announcement without an identifier is of no printer.
abbrev pub last_of : List (Text × Text) → Text → Option Text
last_of news [] = none
last_of news (c ∷ d) = latest (c ∷ d) news

last_of-lookup :
    (news : List (Text × Text)) (r : CallbackRegistry) (d : Text)
    → r.last_printer_json_by_id ≡ []
    → lookup d (remember_all news r).last_printer_json_by_id ≡ last_of news d
unfolding lookup
last_of-lookup news r [] e = lookup-remember_all_nobody news r ∙ ap (lookup []) e
last_of-lookup news r (c ∷ d) e =
    lookup-remember_all news r (c ∷ d) refl
    ∙ ap (λ m. or_else (latest (c ∷ d) news) (lookup (c ∷ d) m)) e
    ∙ or_else-lookup (latest (c ∷ d) news) (c ∷ d)

-- One call for each printer that announced something, with what it announced last, and then, where it is
-- asked for, the search for printers.
pub record IsReplay (f : ℕ) (news : List (Text × Text)) (refresh_fn : Bool) (calls : List Call)
    : Type 0 where
  pub entries : Dict Text
  pub once : Distinct entries
  pub last : (d : Text) → lookup d entries ≡ last_of news d
  pub replays : calls ≡ map (replayed f) entries ++ (if refresh_fn then refreshed ∷ [] else [])

-- After any announcements to a registry that knew no printer, a function that is registered for
-- announcements is called exactly once for each printer that announced something, with what that printer
-- announced last, in an order that is the library's; and then, where there is a function for it, a new
-- discovery is asked for. Nothing else is called but the log.
pub set_ssdp_callback-IsReplay :
    (order : IterationOrder Text) (f : ℕ) (log_fn refresh_fn : Bool) (news : List (Text × Text))
    (r : CallbackRegistry)
    → r.last_printer_json_by_id ≡ []
    → IsReplay f news refresh_fn (
        unlogged (set_ssdp_callback order.visit (some f) log_fn refresh_fn (remember_all news r)).1)
set_ssdp_callback-IsReplay order f log_fn refresh_fn news r e = record {
  entries = order.visit known;
  once =
      order.visit-Distinct known
        (remember_all-Distinct news r (subst (λ m. Distinct m) (sym e) tt));
  last = λ d. order.lookup-visit d known ∙ last_of-lookup news r d e;
  replays = set_ssdp_callback-unlogged order.visit f log_fn refresh_fn (remember_all news r);
}
  where
    known : Dict Text
    known = (remember_all news r).last_printer_json_by_id
