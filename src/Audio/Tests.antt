-- ===== src/Audio/Tests.antt =====
-- The audio theorems at concrete inputs, with whole numbers for floats.
use llm_vs_zombies.Base.{
  length, ℕ, ◌+◌, ◌*◌, ◌≤◌, ◌≡◌, ◌↔◌, refl, ◌==◌, ltb, true, false, none, some, List, [], ◌∷◌, pos,
  Result, ok, err, ◌>>=◌, on_some, arith, get_elem?,
}
use llm_vs_zombies.Audio.Types.{
  AudioError, Floats, SoundResource, FoleyType, Soundscape, Segment, Voice,
}
use llm_vs_zombies.Audio.Mixer.{TickMixer, is_playing, pause, playing_at, position_at, spt, cursor}
use llm_vs_zombies.Audio.Writes.{resume, play_from, set_rate}
use llm_vs_zombies.Audio.Position.{IsTimed, playing_at_iff}
use llm_vs_zombies.Audio.Resume.{resume-pause}
use llm_vs_zombies.Audio.Reopen.{set_rate-KeepsPosition, KeepsPosition}
use llm_vs_zombies.Audio.Pitch.{pitch_rate, frequency_hz, clamp_frequency}
use llm_vs_zombies.Audio.Pitch.Reduced.{frequency_hz-pitch_rate}
use llm_vs_zombies.Audio.Device.{tick_virtual, virtual_allocate}
use llm_vs_zombies.Audio.Mixer.{new_mixer}
use llm_vs_zombies.Audio.Observer.{MixerObserver, Admission, observe_intent}
use llm_vs_zombies.Audio.Observer
use llm_vs_zombies.Audio.Stream.{Action, FoleyTrace, run_stream}
use llm_vs_zombies.Audio.Unobserved.{without_observer, run_stream_unobserved}
use llm_vs_zombies.Audio.Compare.{compare_traces}
use llm_vs_zombies.Audio.Intervals.{union_frames}
use llm_vs_zombies.Audio.Coverage.{count, covered}
use llm_vs_zombies.Audio.Counted.{union_frames-count}
use llm_vs_zombies.Base.{All}
use llm_vs_zombies.Audio.Types.{samples_per_tick}
use llm_vs_zombies.Audio.Checked.{check_soundscape, IsKnown, check_soundscape-IsKnown}
use llm_vs_zombies.Audio.Verdict.{SameRun, compare_traces_iff}
use llm_vs_zombies.Audio.Equality.{
  eq_frame, eq_outcome, eq_query, eq_frame-Decides, eq_outcome-Decides, eq_query-Decides,
}

abbrev whole_floats : Floats
whole_floats = record {
  F = ℕ;
  zero = 0;
  one = 1;
  lt = ltb;
  eq = ◌==◌;
  times = ◌*◌;
  is_finite = λ x. true;
  pitch_hz = λ base steps. some (base + steps);
}

abbrev click : SoundResource ℕ
click = record {
  id = 7;
  name = "click";
  duration_samples = 10000;
  source_kind = "generated";
  frequency_hz = 44100;
  path = none;
  base_volume = 1;
  pan = pos 0;
  loop = false;
}

abbrev clicks : FoleyType
clicks = record {
  type_id = 3;
  name = "clicks";
  resources = some 7 ∷ [];
  flags = record {
    loop = false;
    one_at_a_time = false;
    dont_repeat = false;
    mute_on_pause = true;
    uses_music_volume = false;
  };
}

abbrev scene : Soundscape ℕ
scene = record {
  sounds = (7, click) ∷ [];
  types = (3, clicks) ∷ [];
  sample_rate = 44100;
  ticks_per_second = 100;
}

abbrev opening : Segment ℕ
opening = record {
  start_tick = 0;
  offset_samples = 0;
  rate_num = 1;
  rate_den = 1;
  volume = 1;
  pan = pos 0;
  end_tick = none;
}

abbrev voice : Voice ℕ
voice = record {
  voice_id = 0;
  type_id = 3;
  resource = 7;
  duration_samples = 10000;
  loop = false;
  variation = none;
  seq = 0;
  pitch_steps = 0;
  frequency_hz = 44100;
  segments = opening ∷ [];
  stopped = false;
  paused = false;
  released = false;
  pause_offset = 0;
  pause_count = 0;
}

abbrev mixer : TickMixer ℕ
mixer = record (new_mixer scene) { voices = voice ∷ [] }

opening-IsTimed : IsTimed (spt mixer) opening
opening-IsTimed = record { ticking = omega arith; rate_num = omega arith; rate_den = omega arith }

resume-pause_example :
    (held w : Voice ℕ) × (get_elem? (pause mixer 5 none none).voices 0 ≡ some held)
    × ((between : ℕ) → playing_at (spt mixer) between held ≡ false)
    × (get_elem? (resume whole_floats (pause mixer 5 none none) 9 none none).voices 0 ≡ some w)
    × (position_at (spt mixer) 9 w ≡ position_at (spt mixer) 5 voice)
resume-pause_example =
    resume-pause whole_floats mixer 5 9 none none 0 voice opening [] refl refl refl refl
      opening-IsTimed (omega arith)

playing_at_iff_example : playing_at 441 5 voice ≡ ltb (cursor 441 opening 5) 10000
playing_at_iff_example =
    playing_at_iff 441 5 voice opening [] refl refl refl (omega arith) opening-IsTimed

abbrev faster : TickMixer ℕ
unfolding set_rate
faster = elim (set_rate whole_floats mixer 5 voice (2, 1)) [ ok m ↦ m | err e ↦ mixer ]

set_rate-faster : set_rate whole_floats mixer 5 voice (2, 1) ≡ ok faster
unfolding set_rate ◌>>=◌
set_rate-faster = refl

set_rate-KeepsPosition_example :
    KeepsPosition whole_floats mixer 5 voice opening [] refl refl opening-IsTimed faster
set_rate-KeepsPosition_example =
    set_rate-KeepsPosition whole_floats mixer 5 voice opening [] refl refl opening-IsTimed (2, 1)
      faster set_rate-faster

pitch_rate-shifted : pitch_rate whole_floats 100 20 ≡ ok (6, 5)
unfolding pitch_rate
pitch_rate-shifted = refl

frequency_hz-pitch_rate_example :
    (f : ℕ) × (whole_floats.pitch_hz 100 20 ≡ some f)
    × (frequency_hz (6, 5) 100 ≡ clamp_frequency f)
    × (100 ≤ frequency_hz (6, 5) 100)
    × (frequency_hz (6, 5) 100 ≤ 100000)
frequency_hz-pitch_rate_example =
    frequency_hz-pitch_rate whole_floats 100 20 (6, 5) pitch_rate-shifted refl

abbrev observer : MixerObserver ℕ
observer = record {
  mixer = new_mixer scene;
  admission = Observer.original;
  events = [];
  dropped = [];
}

abbrev actions : List (Action ℕ)
actions = Action.play 0 3 0 ∷ Action.is_playing 1 3 ∷ Action.pause 1 true ∷ Action.stop 2 3 ∷ []

abbrev observed : Result AudioError (FoleyTrace ℕ)
unfolding run_stream
observed =
    run_stream whole_floats (tick_virtual whole_floats) (λ t. t) scene actions 3 (new_mixer scene)
      (some observer) 1

abbrev no_trace : FoleyTrace ℕ
no_trace = record {
  frames = [];
  events = [];
  intents = [];
  queries = [];
  counters = record {
    rng_draws = 0;
    outcomes = 0;
    mixer_queries = none;
    voices = none;
    dropped = none;
    device_counters = none;
  };
}

abbrev trace_of : Result AudioError (FoleyTrace ℕ) → FoleyTrace ℕ
trace_of (ok t) = t
trace_of (err e) = no_trace

run_stream-observed :
    run_stream whole_floats
      (tick_virtual whole_floats)
      (λ t. t)
      scene
      actions
      3
      (new_mixer scene)
      (some observer)
      1
    ≡ ok (trace_of observed)
unfolding run_stream ◌>>=◌ on_some pitch_rate observe_intent virtual_allocate play_from is_playing
run_stream-observed = refl

run_stream_unobserved_example :
    run_stream whole_floats
      (tick_virtual whole_floats)
      (λ t. t)
      scene
      actions
      3
      (new_mixer scene)
      none
      1
    ≡ ok (without_observer (trace_of observed))
run_stream_unobserved_example =
    run_stream_unobserved whole_floats (tick_virtual whole_floats) (λ t. t) scene actions 3 1
      (new_mixer scene) observer (trace_of observed) run_stream-observed

abbrev bad_queries : FoleyTrace ℕ
bad_queries = record no_trace { queries = record { tick = 0; type_id = 3; result = true } ∷ [] }

-- The observer's intents are in the trace that it is left out of.
observer-counted : ltb 0 (length (trace_of observed).intents) ≡ true
unfolding run_stream ◌>>=◌ on_some pitch_rate observe_intent virtual_allocate play_from is_playing
    Observer.observe_stop Observer.observe_pause
observer-counted = refl

compare_traces_iff_example :
    ((compare_traces eq_frame eq_outcome eq_query (trace_of observed) bad_queries).equal ≡ true)
    ↔ SameRun (trace_of observed) bad_queries
compare_traces_iff_example =
    compare_traces_iff eq_frame eq_outcome eq_query eq_frame-Decides eq_outcome-Decides
      eq_query-Decides (trace_of observed) bad_queries

union_frames-count_example :
    union_frames ((5, 9) ∷ (0, 3) ∷ (2, 6) ∷ (4, 4) ∷ [])
    ≡ count 10 (covered ((5, 9) ∷ (0, 3) ∷ (2, 6) ∷ (4, 4) ∷ []))
union_frames-count_example =
    union_frames-count 10 ((5, 9) ∷ (0, 3) ∷ (2, 6) ∷ (4, 4) ∷ [])
      (omega arith, (omega arith, (omega arith, (omega arith, tt))))

check_soundscape-scene : check_soundscape scene ≡ ok tt
unfolding check_soundscape ◌>>=◌
check_soundscape-scene = refl

check_soundscape-IsKnown_example :
    (1 ≤ samples_per_tick scene)
    × (samples_per_tick scene * scene.ticks_per_second ≡ scene.sample_rate)
    × All (λ e. All (IsKnown scene.sounds) (e.1).resources) scene.types
check_soundscape-IsKnown_example = check_soundscape-IsKnown scene check_soundscape-scene
