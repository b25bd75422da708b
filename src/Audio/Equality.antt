-- ===== src/Audio/Equality.antt =====
-- The equality of the dictionaries that `compare_traces` of virtual_audio.py compares, field by field.
use llm_vs_zombies.Base.{
  ℕ, ◌==◌, ◌≡◌, refl, ap, sym, ◌∙◌, ℤ, eqb_ℤ, Bool, true, false, Option, List, Dict,
}
use llm_vs_zombies.Base.Deciding.{
  Decides, eq_bool, eq_bool-Decides, eq_nat-Decides, eqb_ℤ-Decides, eq_pair, eq_pair-Decides,
  eq_list, eq_list-Decides, eq_option, eq_option-Decides, eq_along, eq_along-Decides,
}
use llm_vs_zombies.Audio.Foley.{
  Outcome, OutcomeKind, recent, reuse, no_slot, no_instance, played, stopped, pause, unpause,
}
use llm_vs_zombies.Audio.Stream.{Frame, Query, Signature}

-- an outcome's word as three bits and back
abbrev rank : OutcomeKind → Bool × (Bool × Bool)
rank recent = (false, (false, false))
rank reuse = (false, (false, true))
rank no_slot = (false, (true, false))
rank no_instance = (false, (true, true))
rank played = (true, (false, false))
rank stopped = (true, (false, true))
rank pause = (true, (true, false))
rank unpause = (true, (true, true))

abbrev ranked : Bool × (Bool × Bool) → OutcomeKind
ranked (false, (false, false)) = recent
ranked (false, (false, true)) = reuse
ranked (false, (true, false)) = no_slot
ranked (false, (true, true)) = no_instance
ranked (true, (false, false)) = played
ranked (true, (false, true)) = stopped
ranked (true, (true, false)) = pause
ranked (true, (true, true)) = unpause

ranked-rank : (k : OutcomeKind) → ranked (rank k) ≡ k
ranked-rank recent = refl
ranked-rank reuse = refl
ranked-rank no_slot = refl
ranked-rank no_instance = refl
ranked-rank played = refl
ranked-rank stopped = refl
ranked-rank pause = refl
ranked-rank unpause = refl

rank-injective : (a b : OutcomeKind) → rank a ≡ rank b → a ≡ b
rank-injective a b h = sym (ranked-rank a) ∙ (ap ranked h ∙ ranked-rank b)

abbrev signature_fields : Signature → ℕ × (Bool × (ℕ × ℕ))
signature_fields s = (s.refcount, (s.paused, (s.start_count, s.pause_offset)))

signature_fields-injective : (a b : Signature) → signature_fields a ≡ signature_fields b → a ≡ b
signature_fields-injective a b h = λ i. record {
  refcount = (h i).0;
  paused = ((h i).1).0;
  start_count = (((h i).1).1).0;
  pause_offset = (((h i).1).1).1;
}

abbrev eq_signature_fields : ℕ × (Bool × (ℕ × ℕ)) → ℕ × (Bool × (ℕ × ℕ)) → Bool
eq_signature_fields = eq_pair ◌==◌ (eq_pair eq_bool (eq_pair ◌==◌ ◌==◌))

abbrev eq_signature : Signature → Signature → Bool
eq_signature = eq_along signature_fields eq_signature_fields

eq_signature-Decides : Decides eq_signature
eq_signature-Decides =
    eq_along-Decides signature_fields signature_fields-injective eq_signature_fields (
      eq_pair-Decides _ _ eq_nat-Decides
        (eq_pair-Decides _ _ eq_bool-Decides (eq_pair-Decides _ _ eq_nat-Decides eq_nat-Decides)))

-- a dictionary in its order
abbrev eq_dict : {V : Type 0} → (V → V → Bool) → Dict V → Dict V → Bool
eq_dict p = eq_list (eq_pair ◌==◌ p)

eq_dict-Decides : {V : Type 0} (p : V → V → Bool) → Decides p → Decides (eq_dict p)
eq_dict-Decides p d = eq_list-Decides _ (eq_pair-Decides _ _ eq_nat-Decides d)

abbrev FrameFields : Type 0
FrameFields = ℕ × (ℕ × (ℕ × (Dict (List Signature) × (Dict ℤ × Dict Bool))))

abbrev frame_fields : Frame → FrameFields
frame_fields f =
    (f.tick, (f.app_update_count, (f.rng_draws, (f.slots, (f.last_variation, f.playing)))))

abbrev pub eq_frame : Frame → Frame → Bool
eq_frame = eq_along frame_fields (
    eq_pair ◌==◌ (
      eq_pair ◌==◌ (
        eq_pair ◌==◌
          (eq_pair (eq_dict (eq_list eq_signature)) (eq_pair (eq_dict eqb_ℤ) (eq_dict eq_bool))))))

frame_fields-injective : (a b : Frame) → frame_fields a ≡ frame_fields b → a ≡ b
frame_fields-injective a b h = λ i. record {
  tick = (h i).0;
  app_update_count = ((h i).1).0;
  rng_draws = (((h i).1).1).0;
  slots = ((((h i).1).1).1).0;
  last_variation = (((((h i).1).1).1).1).0;
  playing = (((((h i).1).1).1).1).1;
}

pub eq_frame-Decides : Decides eq_frame
eq_frame-Decides = eq_along-Decides frame_fields frame_fields-injective _ (
    eq_pair-Decides _ _ eq_nat-Decides (
      eq_pair-Decides _ _ eq_nat-Decides (
        eq_pair-Decides _ _ eq_nat-Decides (
          eq_pair-Decides _ _ (eq_dict-Decides _ (eq_list-Decides _ eq_signature-Decides)) (
            eq_pair-Decides _ _ (eq_dict-Decides _ eqb_ℤ-Decides)
              (eq_dict-Decides _ eq_bool-Decides))))))

abbrev outcome_fields : Outcome → ℕ × (Option ℕ × ((Bool × (Bool × Bool)) × Option ℕ))
outcome_fields o = (o.tick, (o.type_id, (rank o.outcome, o.variation)))

outcome_fields-injective : (a b : Outcome) → outcome_fields a ≡ outcome_fields b → a ≡ b
outcome_fields-injective a b h =
    let same = rank-injective a.outcome b.outcome (ap (λ x. ((x.1).1).0) h) in
    λ i. record {
      tick = (h i).0;
      type_id = ((h i).1).0;
      outcome = same i;
      variation = (((h i).1).1).1;
    }

abbrev pub eq_outcome : Outcome → Outcome → Bool
eq_outcome = eq_along outcome_fields (
    eq_pair ◌==◌ (
      eq_pair (eq_option ◌==◌)
        (eq_pair (eq_pair eq_bool (eq_pair eq_bool eq_bool)) (eq_option ◌==◌))))

pub eq_outcome-Decides : Decides eq_outcome
eq_outcome-Decides = eq_along-Decides outcome_fields outcome_fields-injective _ (
    eq_pair-Decides _ _ eq_nat-Decides (
      eq_pair-Decides _ _ (eq_option-Decides _ eq_nat-Decides) (
        eq_pair-Decides _ _
          (eq_pair-Decides _ _ eq_bool-Decides
            (eq_pair-Decides _ _ eq_bool-Decides eq_bool-Decides))
          (eq_option-Decides _ eq_nat-Decides))))

abbrev query_fields : Query → ℕ × (ℕ × Bool)
query_fields q = (q.tick, (q.type_id, q.result))

query_fields-injective : (a b : Query) → query_fields a ≡ query_fields b → a ≡ b
query_fields-injective a b h =
    λ i. record { tick = (h i).0; type_id = ((h i).1).0; result = ((h i).1).1 }

abbrev pub eq_query : Query → Query → Bool
eq_query = eq_along query_fields (eq_pair ◌==◌ (eq_pair ◌==◌ eq_bool))

pub eq_query-Decides : Decides eq_query
eq_query-Decides =
    eq_along-Decides query_fields query_fields-injective _
      (eq_pair-Decides _ _ eq_nat-Decides (eq_pair-Decides _ _ eq_nat-Decides eq_bool-Decides))
