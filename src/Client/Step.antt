-- ===== src/Client/Step.antt =====
-- `_version` and `_completed_step`: what a response to commit or advance has to say about its step.
pub mod Measured
use llm_vs_zombies.Base.{
  ℕ, ◌+◌, ◌^◌, Bool, true, false, ◌&&◌, ◌||◌, Option, none, some, if◌then◌else◌, ◌==◌, ltb, leb,
  not, on_some, pos, Str, eq_name, codes, Result, ok, err, ◌>>=◌, ◌>>◌, raise_if,
}
use llm_vs_zombies.Json.{Json, null, bool, int, float, str, arr, obj, Fields, get}

-- The exceptions that become a ProtocolError, by their messages.
pub data StepError : Type 0 where
  missing : Str → StepError
  invalid_integer : Str → StepError
  not_an_object : StepError
  invalid_count : StepError
  missing_observation : StepError
  missing_action_results : StepError
  counts_differ : StepError
  invalid_call_id : StepError
  zero_clock_not_terminal : StepError
  lacks_call_kind : StepError
  claims_terminal : StepError

-- `result[name]`
abbrev pub item_at : Str → Fields → Result StepError Json
item_at name result = on_some (get name result) (err (missing name)) ok

-- `_integer(value, name)`
abbrev pub integer : Str → Json → Result StepError ℕ
integer name (int (pos n)) = ok n
integer name _ = err (invalid_integer name)

abbrev pub integer_at : Str → Fields → Result StepError ℕ
integer_at name result = item_at name result >>= integer name

pub record Version : Type 0 where
  pub epoch : ℕ
  pub tick : ℕ
  pub revision : ℕ

-- `_version`
unfoldable pub version : Json → Result StepError Version
version (obj value) = do
  epoch ← integer_at (codes "epoch") value
  tick ← integer_at (codes "tick") value
  revision ← integer_at (codes "revision") value
  ok (record { epoch = epoch; tick = tick; revision = revision })
version _ = err not_an_object

abbrev pub is_str : Json → Bool
is_str (str _) = true
is_str _ = false

abbrev pub is_dict : Json → Bool
is_dict (obj _) = true
is_dict _ = false

abbrev pub is_list : Json → Bool
is_list (arr _) = true
is_list _ = false

-- `value == text`
abbrev pub is_text : Str → Json → Bool
is_text text (str s) = eq_name s text
is_text text _ = false

-- `value is None`, for `d.get(key)`
abbrev pub is_absent : Option Json → Bool
is_absent none = true
is_absent (some null) = true
is_absent _ = false

-- `last` is None where nothing was called, and else an unsigned number of 64 bits that is not 0.
abbrev pub is_call_id : ℕ → Json → Bool
is_call_id calls null = calls == 0
is_call_id calls (int (pos n)) = not (calls == 0) && (leb 1 n && ltb n (2 ^ 64))
is_call_id calls _ = false

abbrev pub scene_changed : Json → Bool
scene_changed = is_text (codes "scene_changed")

abbrev pub is_kind : Str → Option Json → Bool
is_kind name kind = on_some kind false (is_text name)

-- The checks of a runtime that counts its engine calls.
unfoldable pub check_calls : ℕ → ℕ → Json → Fields → Result StepError (Unit {0})
check_calls requested executed reason result = do
  calls ← integer_at (codes "executed_engine_calls") result
  zero ← integer_at (codes "terminal_zero_clock_calls") result
  last ← item_at (codes "last_engine_call_id") result
  raise_if (leb 2 zero || (not (calls == executed + zero) || ltb requested calls)) counts_differ
  raise_if (not (is_call_id calls last)) invalid_call_id
  let kind = get (codes "terminal_kind") result
  raise_if
      (not (zero == 0)
        && (leb requested executed
            || (not (scene_changed reason)
                || not (is_kind (codes "terminal_zero_clock_update") kind))))
      zero_clock_not_terminal
  raise_if
      (scene_changed reason
        && (zero == 0 && (calls == 0 || not (is_kind (codes "terminal_clock_step") kind))))
      lacks_call_kind
  raise_if (not (scene_changed reason) && not (is_absent kind)) claims_terminal

abbrev pub check_actions : Bool → Fields → Result StepError (Unit {0})
check_actions false result = ok tt
check_actions true result = do
  results ← item_at (codes "action_results") result
  raise_if (not (is_list results)) missing_action_results

-- The body of the `try` block.
unfoldable pub check_step : Bool → Bool → Fields → Result StepError (Unit {0})
unfolding check_calls
check_step commit engine_calls result = do
  requested ← integer_at (codes "requested_ticks") result
  executed ← integer_at (codes "executed_ticks") result
  raise_if (ltb requested executed) invalid_count
  reason ← item_at (codes "stop_reason") result
  raise_if (not (is_str reason)) invalid_count
  observation ← item_at (codes "observation") result
  raise_if (not (is_dict observation)) missing_observation
  check_actions commit result
  if engine_calls then check_calls requested executed reason result else ok tt

unfoldable pub completed_step : Str → Fields → Bool → Result StepError (Unit {0})
unfolding check_step
completed_step method result engine_calls =
    if eq_name method (codes "commit") || eq_name method (codes "advance")
    then check_step (eq_name method (codes "commit")) engine_calls result
    else ok tt
