-- ===== src/Client/Tests.antt =====
-- The framed transport, a completed step and the scope of a branch at concrete inputs.
use llm_vs_zombies.Base.{some, none, false, codes, ◌≡◌, refl, true, [], ◌∷◌, pos, ok, err, arith}
use llm_vs_zombies.Json.{bool, int, str, arr, obj, nil, Fields, end, field}
use llm_vs_zombies.Client.Step.{completed_step, invalid_integer}
use llm_vs_zombies.Client.Step.Measured.{IsMeasured, completed_step-IsMeasured}
use llm_vs_zombies.Client.Branch.{
  Scope, Binding, adopt_branch_scope, id_of, branch_schema, other_branch,
}
use llm_vs_zombies.Client.Branch.Bound.{Follows, IsDeclared, adopt_branch_scope-Follows}
use llm_vs_zombies.Client.Framing.{
  Bytes, gives, raises, Stream, connected, exchange, disconnected, pack,
}
use llm_vs_zombies.Client.Framing.Whole.{IsCooperative, exchange-whole}
use llm_vs_zombies.Client.Framing.Closing.{Ends, exchange-Ends}
use llm_vs_zombies.Base.{on_some, ◌>>=◌}

abbrev request : Bytes
request = 7 ∷ 8 ∷ []

abbrev response : Bytes
response = 9 ∷ []

-- The frame is written in two pieces, and the response's header comes in two pieces.
abbrev willing : Stream
willing = record {
  writes = gives (pos 5) ∷ gives (pos 1) ∷ raises ∷ [];
  reads = gives (1 ∷ []) ∷ gives (0 ∷ 0 ∷ 0 ∷ []) ∷ gives (9 ∷ []) ∷ raises ∷ [];
  sent = [];
  is_open = true;
}

abbrev later : Stream
later = record {
  writes = raises ∷ [];
  reads = raises ∷ [];
  sent = 2 ∷ 0 ∷ 0 ∷ 0 ∷ 7 ∷ 8 ∷ [];
  is_open = true;
}

-- The peer goes away within the header.
abbrev leaving : Stream
leaving = record willing { reads = gives (1 ∷ []) ∷ gives [] ∷ [] }

willing-IsCooperative : IsCooperative willing request response later
unfolding pack
willing-IsCooperative = record {
  sizes = 5 ∷ 1 ∷ [];
  header = (1 ∷ []) ∷ (0 ∷ 0 ∷ 0 ∷ []) ∷ [];
  body = (9 ∷ []) ∷ [];
  write_answers = refl;
  read_answers = refl;
  all_written = refl;
  sizes_positive = (omega arith, (omega arith, tt));
  header_full = (omega arith, (omega arith, tt));
  body_full = (omega arith, tt);
  header_whole = refl;
  body_whole = refl;
  later_sent = refl;
  later_open = refl;
}

left : (exchange (connected leaving) request (pos 3)).1 ≡ err disconnected
unfolding exchange
left = refl

exchange-whole_example :
    exchange (connected willing) request (pos 3) ≡ (connected later, ok response)
exchange-whole_example =
    exchange-whole willing later request response (pos 3) willing-IsCooperative (omega arith)
      (omega arith) (omega arith) (omega arith) refl

exchange-Ends_example :
    Ends
      (connected leaving)
      (exchange (connected leaving) request (pos 3)).0
      (exchange (connected leaving) request (pos 3)).1
exchange-Ends_example = exchange-Ends leaving request (pos 3)

-- A commit that ended its scene by a call for which the clock stood still.
abbrev stepped : Fields
stepped = field (codes "requested_ticks") (int (pos 5)) (
    field (codes "executed_ticks") (int (pos 3)) (
      field (codes "stop_reason") (str (codes "scene_changed")) (
        field (codes "observation") (obj end) (
          field (codes "action_results") (arr nil) (
            field (codes "executed_engine_calls") (int (pos 4)) (
              field (codes "terminal_zero_clock_calls") (int (pos 1)) (
                field (codes "last_engine_call_id") (int (pos 77)) (
                  field (codes "terminal_kind") (str (codes "terminal_zero_clock_update"))
                    end))))))))

stepped-accepted : completed_step (codes "commit") stepped true ≡ ok tt
unfolding completed_step ◌>>=◌ on_some
stepped-accepted = refl

bare_step :
    completed_step (codes "advance") (field (codes "requested_ticks") (bool true) end) false
    ≡ err (invalid_integer (codes "requested_ticks"))
unfolding completed_step ◌>>=◌ on_some
bare_step = refl

completed_step-IsMeasured_example : IsMeasured stepped
completed_step-IsMeasured_example =
    completed_step-IsMeasured (codes "commit") stepped refl stepped-accepted

abbrev hello : Fields
hello =
    field (codes "branch")
      (obj (
        field (codes "mode") (str (codes "branch")) (
          field (codes "schema") (str branch_schema)
            (field (codes "branch_id") (str (codes "B1:left")) end))))
      end

abbrev left_scope : Scope
left_scope = record {
  scoped = true;
  branch_id = some (codes "B1:left");
  parent_branch_id = none;
  origin = none;
  dedup_key = none;
}

abbrev left_binding : Binding
left_binding = record { scope = some left_scope; branch = some (codes "B1:left") }

adopted : adopt_branch_scope (some (codes "B1:left")) true hello ≡ ok left_binding
unfolding adopt_branch_scope ◌>>=◌
adopted = refl

wrong_branch : adopt_branch_scope (some (codes "B2")) true hello ≡ err other_branch
unfolding adopt_branch_scope ◌>>=◌
wrong_branch = refl

adopt_branch_scope-Follows_example :
    (left_binding.branch ≡ id_of left_binding.scope)
    × Follows (some (codes "B1:left")) left_binding.branch
    × IsDeclared left_binding.scope
adopt_branch_scope-Follows_example =
    adopt_branch_scope-Follows (some (codes "B1:left")) true hello left_binding adopted
