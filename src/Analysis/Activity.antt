-- ===== src/Analysis/Activity.antt =====
-- What makes a trace divergent, said of the group's events alone: the windows drop out.
use goggles.Analysis.Traces.{trace_of, engines_of, wall_times}
use goggles.Base.Text.{nonempty}
use goggles.Analysis.Divergence.{
  covers, widen, engine_windows, window_step, windows_from, engines_present_but_missing,
  is_divergent_message,
}
use goggles.Event.{AuditEvent}
use goggles.Base.Dict.{Dict}
use goggles.Base.{
  ℕ, min, max, String, ◌≡◌, refl, sym, ap, ◌∙◌, Bool, false, not, ◌&&◌, ◌||◌, Option, none, some,
  List, [], ◌∷◌, ◌++◌, arith, leb, ◌==◌, is_empty, any, select, contains, contains-append, least,
  string_eq,
}
use goggles.Base.Dict
use mathlib.Core.Path.{subst}

-- Whether the event is the engine's, and its time passes the test.
abbrev pub passes : (ℕ → Bool) → Option ℕ → Bool
passes test none = false
passes test (some s) = test s

abbrev pub recorded : String → (ℕ → Bool) → AuditEvent → Bool
recorded engine test event =
    nonempty event.engine_id && (event.engine_id == engine && passes test event.wall_time_ms)

-- The engine recorded an event no later than the time, and one no earlier.
abbrev pub was_active : List AuditEvent → Option ℕ → String → Bool
was_active events none engine = false
was_active events (some t) engine =
    any (recorded engine (λ s. leb s t)) events && any (recorded engine (λ s. leb t s)) events

abbrev opens : ℕ → Option (ℕ × ℕ) → Bool
opens t none = false
opens t (some (first, last)) = leb first t

abbrev closes : ℕ → Option (ℕ × ℕ) → Bool
closes t none = false
closes t (some (first, last)) = leb t last

covers_lem : (t : ℕ) (o : Option (ℕ × ℕ)) → covers t o ≡ (opens t o && closes t o)
covers_lem t none = refl
covers_lem t (some (first, last)) = refl

opens-widen :
    (t s : ℕ) (engine e : String) (windows : Dict String (ℕ × ℕ))
    → opens t (Dict.get e (widen engine s windows))
      ≡ (opens t (Dict.get e windows) || (engine == e && leb s t))
opens-widen t s engine e windows = ground (
  arith,
  Dict.get-put engine e
      (min (Dict.get_or (s, s) engine windows).0 s, max (Dict.get_or (s, s) engine windows).1 s)
      windows,
  string_eq.same_iff engine e,
)

closes-widen :
    (t s : ℕ) (engine e : String) (windows : Dict String (ℕ × ℕ))
    → closes t (Dict.get e (widen engine s windows))
      ≡ (closes t (Dict.get e windows) || (engine == e && leb t s))
closes-widen t s engine e windows = ground (
  arith,
  Dict.get-put engine e
      (min (Dict.get_or (s, s) engine windows).0 s, max (Dict.get_or (s, s) engine windows).1 s)
      windows,
  string_eq.same_iff engine e,
)

opens-window_step :
    (t : ℕ) (e : String) (event : AuditEvent) (windows : Dict String (ℕ × ℕ))
    → opens t (Dict.get e (window_step event windows))
      ≡ (opens t (Dict.get e windows) || recorded e (λ s. leb s t) event)
unfolding window_step
opens-window_step t e event windows = go event.wall_time_ms refl
  where
    go :
        (w : Option ℕ)
        → event.wall_time_ms ≡ w
        → opens t (Dict.get e (window_step event windows))
          ≡ (opens t (Dict.get e windows) || recorded e (λ s. leb s t) event)
    go none p = ground arith
    go (some s) p = ground (arith, opens-widen t s event.engine_id e windows)

closes-window_step :
    (t : ℕ) (e : String) (event : AuditEvent) (windows : Dict String (ℕ × ℕ))
    → closes t (Dict.get e (window_step event windows))
      ≡ (closes t (Dict.get e windows) || recorded e (λ s. leb t s) event)
unfolding window_step
closes-window_step t e event windows = go event.wall_time_ms refl
  where
    go :
        (w : Option ℕ)
        → event.wall_time_ms ≡ w
        → closes t (Dict.get e (window_step event windows))
          ≡ (closes t (Dict.get e windows) || recorded e (λ s. leb t s) event)
    go none p = ground arith
    go (some s) p = ground (arith, closes-widen t s event.engine_id e windows)

opens-windows_from :
    (t : ℕ) (e : String) (events : List AuditEvent) (windows : Dict String (ℕ × ℕ))
    → opens t (Dict.get e (windows_from windows events))
      ≡ (opens t (Dict.get e windows) || any (recorded e (λ s. leb s t)) events)
unfolding windows_from
opens-windows_from t e [] windows = ground arith
opens-windows_from t e (event ∷ events) windows =
    opens-windows_from t e events (window_step event windows)
    ∙ ground (arith, opens-window_step t e event windows)

closes-windows_from :
    (t : ℕ) (e : String) (events : List AuditEvent) (windows : Dict String (ℕ × ℕ))
    → closes t (Dict.get e (windows_from windows events))
      ≡ (closes t (Dict.get e windows) || any (recorded e (λ s. leb t s)) events)
unfolding windows_from
closes-windows_from t e [] windows = ground arith
closes-windows_from t e (event ∷ events) windows =
    closes-windows_from t e events (window_step event windows)
    ∙ ground (arith, closes-window_step t e event windows)

-- A window contains a time exactly if the engine was active around it.
covers-engine_windows :
    (t : ℕ) (e : String) (events : List AuditEvent)
    → covers t (Dict.get e (engine_windows events)) ≡ was_active events (some t) e
unfolding engine_windows Dict.get
covers-engine_windows t e events =
    covers_lem t (Dict.get e (windows_from [] events))
    ∙ ap (λ b. b && closes t (Dict.get e (windows_from [] events)))
        (opens-windows_from t e events [])
    ∙ ap (λ b. any (recorded e (λ s. leb s t)) events && b) (closes-windows_from t e events [])

any-append : (p : String → Bool) (xs ys : List String) → any p (xs ++ ys) ≡ (any p xs || any p ys)
any-append p [] ys = refl
any-append p (x ∷ xs) ys = ground (arith, any-append p xs ys)

-- No member of a list is missing from it.
any_missing : (xs ys : List String) → any (λ e. not (contains e (ys ++ xs))) xs ≡ false
any_missing [] ys = refl
any_missing (x ∷ xs) ys = ground (
  arith,
  contains-append x ys (x ∷ xs),
  string_eq.same_iff x x,
  subst (λ zs. any (λ e. not (contains e zs)) xs ≡ false) (sym (append-snoc ys x xs))
      (any_missing xs (ys ++ x ∷ [])),
)
  where
    append-snoc :
        (zs : List String) (b : String) (cs : List String) → zs ++ (b ∷ cs) ≡ (zs ++ b ∷ []) ++ cs
    append-snoc [] b cs = refl
    append-snoc (z ∷ zs) b cs = ap (λ r. z ∷ r) (append-snoc zs b cs)

any-select :
    (p q : String → Bool) (r : String → Bool) (xs : List String)
    → ((e : String) → q e ≡ r e)
    → any p (select (λ e. p e && q e) xs) ≡ any (λ e. p e && r e) xs
any-select p q r [] same = refl
any-select p q r (x ∷ xs) same = ground (arith, same x, any-select p q r xs same)

any-never : (p : String → Bool) (xs : List String) → any (λ e. p e && false) xs ≡ false
any-never p [] = refl
any-never p (x ∷ xs) = ground (arith, any-never p xs)

any-engines_present_but_missing :
    (observers engines : List String) (o : Option ℕ) (events : List AuditEvent)
    → any
        (λ e. not (contains e observers))
        (engines_present_but_missing observers o (engine_windows events) engines)
      ≡ any (λ e. not (contains e observers) && was_active events o e) engines
unfolding engines_present_but_missing
any-engines_present_but_missing observers engines none events =
    sym (any-never (λ e. not (contains e observers)) engines)
any-engines_present_but_missing observers engines (some t) events =
    any-select (λ e. not (contains e observers)) _ (was_active events (some t)) engines
      (λ e. covers-engine_windows t e events)

-- A message's trace is divergent exactly if some engine observed the message, and one of the
-- events' engines did not observe it though it recorded an event no later and one no earlier than
-- the message's earliest time.
pub trace_of-was_active :
    (events observed : List AuditEvent) (msg_id : String)
    → (trace_of (engine_windows events) (engines_of events) (msg_id, observed)).is_divergent ≡ (
        not (is_empty (engines_of observed))
        && any
            (λ e.
              not (contains e (engines_of observed))
              && was_active events (least (wall_times observed)) e)
            (engines_of events))
unfolding trace_of is_divergent_message
trace_of-was_active events observed msg_id =
    let observers = engines_of observed in
    let time = least (wall_times observed) in
    let missed =
      engines_present_but_missing observers time (engine_windows events) (engines_of events) in
    ap (λ b. not (is_empty observers) && b)
      (any-append (λ e. not (contains e observers)) observers missed
        ∙ ap (λ b. b || any (λ e. not (contains e observers)) missed) (any_missing observers [])
        ∙ any-engines_present_but_missing observers (engines_of events) time events)
