-- ===== src/Normalize/Storable/Outbound.antt =====
-- `copy_outbound_messages` keeps the columns within their limits: the ids that its loop gathers have 64 hex
-- digits.
use goggles.Normalize.Storable.Helpers.{is_hex_cases, is_json_column, Keeps-store_json}
use goggles.Base.Text.{nonempty}
use goggles.Base.{
  ℕ, suc, String, ◌≡◌, refl, Bool, true, not, ◌&&◌, ◌||◌, some, List, [], ◌∷◌, arith, is_empty,
  string_eq,
}
use goggles.Env.{Env}
use goggles.Json.{null, str, arr, obj, Value, Fields, get, is_hex, value_if_str, items}
use goggles.Normalize.Copy.{
  Notes, Outbound, outbound_message, outbound_loop, finish_outbound, copy_outbound_messages, fail,
  is_valid_message_id, copy_messages, stored_text, store_outbound_id, store_welcomes,
}
use goggles.Normalize.Storable.{
  IsWithinLimits, Keeps, within_limits, Keeps-fail, Keeps-if, Keeps-skip, Keeps-store,
}

-- The id that the loop keeps, once it has one.
abbrev kept_hex : String → Bool
kept_hex t = not (nonempty t) || is_hex (some 64) (str t)

module _ ⦃env : Env⦄ where
  record IsGathered (st : Outbound × Notes) : Type 0 where
    notes : IsWithinLimits st.1
    outbound : kept_hex st.0.outbound_msg_id ≡ true

  fail-IsWithinLimits :
      (message : String) (s : Notes) → IsWithinLimits s → IsWithinLimits (fail message s)
  fail-IsWithinLimits message s h = (Keeps-fail message).keep s h

  is_hex_text :
      (v : Value) → is_hex (some 64) v ≡ true → is_hex (some 64) (str (value_if_str v)) ≡ true
  unfolding value_if_str
  is_hex_text v h = let (t, e, n) = is_hex_cases v h in rw e (rw e at h)

  outbound_message-IsGathered :
      (index : ℕ) (v : Value) (out : Outbound) (s : Notes)
      → IsGathered (out, s)
      → IsGathered (outbound_message index v (out, s))
  unfolding outbound_message is_valid_message_id
  outbound_message-IsGathered index (obj message) out s h = record {
    notes = ground (arith, fail-IsWithinLimits _ s h.notes);
    outbound = ground (arith, is_hex_text (get "msg_id" message));
  }
  outbound_message-IsGathered index _ out s h = record {
    notes = fail-IsWithinLimits _ s h.notes;
    outbound = h.outbound;
  }

  outbound_loop-IsGathered :
      (index : ℕ) (vs : List Value) (st : Outbound × Notes)
      → IsGathered st
      → IsGathered (outbound_loop index vs st)
  unfolding outbound_loop
  outbound_loop-IsGathered index [] st h = h
  outbound_loop-IsGathered index (v ∷ vs) st h =
      outbound_loop-IsGathered (suc index) vs (outbound_message index v st)
        (outbound_message-IsGathered index v st.0 st.1 h)

  within_limits_kept :
      (t : String)
      → nonempty t ≡ true
      → kept_hex t ≡ true
      → within_limits "outbound_msg_id" (str t) ≡ true
  unfolding within_limits
  within_limits_kept t p h = ground arith

  finish_outbound-IsWithinLimits :
      (st : Outbound × Notes) → IsGathered st → IsWithinLimits (finish_outbound st)
  unfolding finish_outbound is_json_column
  finish_outbound-IsWithinLimits (out, s) h =
      let first : Keeps (store_outbound_id out s) =
        Keeps-if (nonempty out.outbound_msg_id && not (stored_text "outbound_msg_id" s)) _ _
          (λ p.
            Keeps-store "outbound_msg_id" (str out.outbound_msg_id)
              (within_limits_kept out.outbound_msg_id (ground arith) h.outbound))
          (λ _. Keeps-skip) in
      let second : Keeps (store_welcomes out) =
        Keeps-if (is_empty out.welcome_ids) _ _ (λ _. Keeps-skip)
          (λ _. Keeps-store_json "outbound_welcome_msg_ids" _ refl) in
      second.keep (store_outbound_id out s s) (first.keep s h.notes)

  copy_messages-IsWithinLimits :
      (v : Value) (s : Notes) → IsWithinLimits s → IsWithinLimits (copy_messages v s)
  unfolding copy_messages
  copy_messages-IsWithinLimits null s h = h
  copy_messages-IsWithinLimits (arr messages) s h =
      finish_outbound-IsWithinLimits _
        (outbound_loop-IsGathered 0 (items messages) _ (record { notes = h; outbound = refl }))
  copy_messages-IsWithinLimits _ s h = fail-IsWithinLimits _ s h

  pub Keeps-copy_outbound_messages : (kind : Fields) → Keeps (copy_outbound_messages kind)
  unfolding copy_outbound_messages
  Keeps-copy_outbound_messages kind = record {
    keep = copy_messages-IsWithinLimits (get "outbound_messages" kind);
  }
