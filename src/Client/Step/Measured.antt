-- ===== src/Client/Step/Measured.antt =====
-- What an accepted response to commit or advance says of its step.
use llm_vs_zombies.Base.{
  ℕ, ◌+◌, ◌≤◌, ◌<◌, ◌≡◌, ◌⊎◌, refl, Bool, true, false, ◌&&◌, ◌||◌, Option, ◌==◌, ltb, leb, not, Str,
  eq_name, codes, ok, >>=-eq-ok, raise_if, arith,
}
use llm_vs_zombies.Json.{Json, Fields, get}
use llm_vs_zombies.Client.Step.{
  StepError, completed_step, check_step, check_calls, item_at, integer_at, scene_changed, is_kind,
  is_absent, is_call_id, check_actions, is_str, is_dict,
}

raise_if-ok : (b : Bool) (e : StepError) (u : Unit {0}) → raise_if b e ≡ ok u → b ≡ false
raise_if-ok true e u h = cc
raise_if-ok false e u h = refl

-- A step that did not end its scene, one that ended it within a tick of the clock, and one that ended it
-- by a last call for which the clock stood still.
abbrev pub Ending : (requested executed calls still : ℕ) → Json → Option Json → Type 0
Ending requested executed calls still reason kind =
    ((scene_changed reason ≡ false) × (still ≡ 0) × (is_absent kind ≡ true))
    ⊎ (((scene_changed reason ≡ true)
          × (still ≡ 0)
          × (1 ≤ calls)
          × (is_kind (codes "terminal_clock_step") kind ≡ true))
        ⊎ ((scene_changed reason ≡ true)
            × (still ≡ 1)
            × (executed < requested)
            × (is_kind (codes "terminal_zero_clock_update") kind ≡ true)))

-- The fields of the response, and what they count.
pub record IsMeasured (result : Fields) : Type 0 where
  pub requested : ℕ
  pub executed : ℕ
  pub calls : ℕ
  pub zero_clock : ℕ
  pub reason : Json
  pub last : Json
  pub requested_ticks : integer_at (codes "requested_ticks") result ≡ ok requested
  pub executed_ticks : integer_at (codes "executed_ticks") result ≡ ok executed
  pub engine_calls : integer_at (codes "executed_engine_calls") result ≡ ok calls
  pub zero_clock_calls : integer_at (codes "terminal_zero_clock_calls") result ≡ ok zero_clock
  pub stop_reason : item_at (codes "stop_reason") result ≡ ok reason
  pub last_call : item_at (codes "last_engine_call_id") result ≡ ok last
  pub in_time : executed ≤ requested
  pub counted : calls ≡ executed + zero_clock
  pub in_budget : calls ≤ requested
  pub named : is_call_id calls last ≡ true
  pub ending :
      Ending requested executed calls zero_clock reason (get (codes "terminal_kind") result)

measured-Ending :
    (requested executed calls still : ℕ) (reason : Json) (kind : Option Json)
    → (leb 2 still || (not (calls == executed + still) || ltb requested calls)) ≡ false
    → (not (still == 0)
        && (leb requested executed
            || (not (scene_changed reason)
                || not (is_kind (codes "terminal_zero_clock_update") kind))))
      ≡ false
    → (scene_changed reason
        && (still == 0 && (calls == 0 || not (is_kind (codes "terminal_clock_step") kind))))
      ≡ false
    → (not (scene_changed reason) && not (is_absent kind)) ≡ false
    → Ending requested executed calls still reason kind
measured-Ending requested executed calls still reason kind counts terminal kinds absent =
    shape (scene_changed reason) (is_kind (codes "terminal_zero_clock_update") kind)
      (is_kind (codes "terminal_clock_step") kind) (is_absent kind) counts terminal kinds absent
  where
    shape :
        (s z t a : Bool)
        → (leb 2 still || (not (calls == executed + still) || ltb requested calls)) ≡ false
        → (not (still == 0) && (leb requested executed || (not s || not z))) ≡ false
        → (s && (still == 0 && (calls == 0 || not t))) ≡ false
        → (not s && not a) ≡ false
        → ((s ≡ false) × (still ≡ 0) × (a ≡ true))
          ⊎ (((s ≡ true) × (still ≡ 0) × (1 ≤ calls) × (t ≡ true))
              ⊎ ((s ≡ true) × (still ≡ 1) × (executed < requested) × (z ≡ true)))
    shape s z t a h1 h2 h3 h4 = ground arith

check_calls-IsMeasured :
    (requested executed : ℕ) (reason : Json) (result : Fields)
    → integer_at (codes "requested_ticks") result ≡ ok requested
    → integer_at (codes "executed_ticks") result ≡ ok executed
    → item_at (codes "stop_reason") result ≡ ok reason
    → executed ≤ requested
    → check_calls requested executed reason result ≡ ok tt
    → IsMeasured result
unfolding check_calls
check_calls-IsMeasured requested executed reason result r e s le h =
    let (calls, hc, h1) = >>=-eq-ok (integer_at (codes "executed_engine_calls") result) _ h in
    let (still, hz, h2) = >>=-eq-ok (integer_at (codes "terminal_zero_clock_calls") result) _ h1 in
    let (last, hl, h3) = >>=-eq-ok (item_at (codes "last_engine_call_id") result) _ h2 in
    let (u1, c1, h4) =
      >>=-eq-ok
        (raise_if (leb 2 still || (not (calls == executed + still) || ltb requested calls)) _) _
        h3 in
    let (u2, c2, h5) = >>=-eq-ok (raise_if (not (is_call_id calls last)) _) _ h4 in
    let (u3, c3, h6) = >>=-eq-ok (raise_if _ _) _ h5 in
    let (u4, c4, h7) = >>=-eq-ok (raise_if _ _) _ h6 in
    let counts = raise_if-ok _ _ u1 c1 in
    record {
      requested = requested;
      executed = executed;
      calls = calls;
      zero_clock = still;
      reason = reason;
      last = last;
      requested_ticks = r;
      executed_ticks = e;
      engine_calls = hc;
      zero_clock_calls = hz;
      stop_reason = s;
      last_call = hl;
      in_time = le;
      counted = ground (arith, counts);
      in_budget = ground (arith, counts);
      named = ground (arith, raise_if-ok _ _ u2 c2);
      ending =
          measured-Ending requested executed calls still reason _ counts (raise_if-ok _ _ u3 c3)
            (raise_if-ok _ _ u4 c4) (raise_if-ok _ _ tt h7);
    }

check_step-IsMeasured :
    (commit : Bool) (result : Fields) → check_step commit true result ≡ ok tt → IsMeasured result
unfolding check_step
check_step-IsMeasured commit result h =
    let (requested, r, h1) = >>=-eq-ok (integer_at (codes "requested_ticks") result) _ h in
    let (executed, e, h2) = >>=-eq-ok (integer_at (codes "executed_ticks") result) _ h1 in
    let (u1, c1, h3) = >>=-eq-ok (raise_if (ltb requested executed) _) _ h2 in
    let (reason, s, h4) = >>=-eq-ok (item_at (codes "stop_reason") result) _ h3 in
    let (u2, _, h5) = >>=-eq-ok (raise_if (not (is_str reason)) _) _ h4 in
    let (observation, _, h6) = >>=-eq-ok (item_at (codes "observation") result) _ h5 in
    let (u3, _, h7) = >>=-eq-ok (raise_if (not (is_dict observation)) _) _ h6 in
    let (u4, _, h8) = >>=-eq-ok (check_actions commit result) _ h7 in
    let within = raise_if-ok _ _ u1 c1 in
    check_calls-IsMeasured requested executed reason result r e s (ground (arith, within)) h8

-- If a runtime counts its engine calls and the response to its commit or advance is accepted, then the
-- response says that no more was executed than requested, the calls are the executed ticks and at most
-- one call for which the clock stood still, a last call is named exactly if there was one, and the step
-- either did not end its scene and claims no terminal kind, or ended it with the kind of its last call,
-- with ticks left where the clock stood still.
pub completed_step-IsMeasured :
    (method : Str) (result : Fields)
    → (eq_name method (codes "commit") || eq_name method (codes "advance")) ≡ true
    → completed_step method result true ≡ ok tt
    → IsMeasured result
unfolding completed_step
completed_step-IsMeasured method result m h =
    check_step-IsMeasured (eq_name method (codes "commit")) result (rw m at h)
