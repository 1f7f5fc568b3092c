-- ===== src/Analysis/Divergence.antt =====
-- The membership-aware divergence of one message: the windows in which engines were active, the
-- engines that missed a message, and the predicate.
use goggles.Base.{
  ℕ, min, max, String, Bool, false, not, ◌&&◌, Option, none, some, List, [], ◌∷◌, leb,
  if◌then◌else◌, is_empty, any, select, contains, string_eq,
}
use goggles.Base.Dict
use goggles.Base.Dict.{Dict}
use goggles.Base.Text.{nonempty}
use goggles.Event.{AuditEvent}

-- `first, last = windows.get(engine_id, (t, t))`, and the widened window.
abbrev pub widen : String → ℕ → Dict String (ℕ × ℕ) → Dict String (ℕ × ℕ)
widen engine_id t windows =
    let (first, last) = Dict.get_or (t, t) engine_id windows in
    Dict.put engine_id (min first t, max last t) windows

abbrev pub widen_by : Option ℕ → String → Dict String (ℕ × ℕ) → Dict String (ℕ × ℕ)
widen_by none engine_id windows = windows
widen_by (some t) engine_id windows = widen engine_id t windows

unfoldable pub window_step : AuditEvent → Dict String (ℕ × ℕ) → Dict String (ℕ × ℕ)
window_step event windows =
    if nonempty event.engine_id
    then widen_by event.wall_time_ms event.engine_id windows
    else windows

unfoldable pub windows_from : Dict String (ℕ × ℕ) → List AuditEvent → Dict String (ℕ × ℕ)
unfolding window_step
windows_from windows [] = windows
windows_from windows (event ∷ events) = windows_from (window_step event windows) events

unfoldable pub engine_windows : List AuditEvent → Dict String (ℕ × ℕ)
unfolding windows_from
engine_windows events = windows_from [] events

-- window is not None and window[0] <= reference_ms <= window[1]
abbrev pub covers : ℕ → Option (ℕ × ℕ) → Bool
covers t none = false
covers t (some (first, last)) = leb first t && leb t last

unfoldable pub engines_present_but_missing :
    List String → Option ℕ → Dict String (ℕ × ℕ) → List String → List String
engines_present_but_missing observers none windows all_engines = []
engines_present_but_missing observers (some t) windows all_engines =
    select
      (λ engine_id. not (contains engine_id observers) && covers t (Dict.get engine_id windows))
      all_engines

-- bool(observed) and bool(in_scope - observed)
unfoldable pub is_divergent_message : List String → List String → Bool
is_divergent_message engines in_scope_engines =
    not (is_empty engines) && any (λ engine_id. not (contains engine_id engines)) in_scope_engines
