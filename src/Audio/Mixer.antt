-- ===== src/Audio/Mixer.antt =====
-- `TickMixer` of virtual_audio.py: device writes and queries as functions of the mixer's state.
use llm_vs_zombies.Base.{
  ℕ, ◌+◌, ◌-◌, ◌*◌, ◌/◌, ◌%◌, ◌==◌, ℤ, Bool, true, false, not, ◌&&◌, ◌||◌, Option, none, some, List,
  [], ◌∷◌, ◌++◌, set, ltb, leb, is_some, if◌then◌else◌,
}
use Prim.Native.Nat.{min}
use llm_vs_zombies.Audio.Types.{Soundscape, Segment, Voice, samples_per_tick, segment, is_open}

pub data LogEntry (F : Type 0) : Type 0 where
  played :
      (tick voice type_id resource : ℕ) (variation : Option ℕ) (loop : Bool) (volume : F) (pan : ℤ)
      (rate_num rate_den : ℕ) (pitch_steps : F) (frequency_hz : ℕ)
      → LogEntry F
  stopped : (tick voice : ℕ) → LogEntry F
  played_from : (tick voice offset_samples : ℕ) → LogEntry F
  released : (tick voice : ℕ) → LogEntry F
  paused : (tick voice pause_offset : ℕ) → LogEntry F
  resumed : (tick voice offset_samples : ℕ) → LogEntry F

pub record Counters : Type 0 where
  pub is_playing : ℕ
  pub current_position : ℕ
  pub pause_offset : ℕ

pub record TickMixer (F : Type 0) : Type 0 where
  pub soundscape : Soundscape F
  pub voices : List (Voice F)
  pub log : List (LogEntry F)
  pub counters : Counters

-- `-(-a // b)` for positive b
abbrev pub ceil_div : ℕ → ℕ → ℕ
ceil_div a b = (a + b - 1) / b

-- `frequency_hz(rate)` at the default base frequency
abbrev pub rate_frequency : ℕ → ℕ → ℕ
rate_frequency num den = num * 44100 / den

-- the keyword filters of `_all`: `none` matches every voice
abbrev pub matches : Option ℕ → ℕ → Bool
matches none id = true
matches (some wanted) id = id == wanted

-- the test `end is None or tick < end`
abbrev pub before_end : ℕ → Option ℕ → Bool
before_end tick none = true
before_end tick (some end_tick) = ltb tick end_tick

module _ {F : Type 0} where
  -- `TickMixer.__init__`
  abbrev pub new_mixer : Soundscape F → TickMixer F
  new_mixer s = record {
    soundscape = s;
    voices = [];
    log = [];
    counters = record { is_playing = 0; current_position = 0; pause_offset = 0 };
  }

  abbrev pub spt : TickMixer F → ℕ
  spt m = samples_per_tick m.soundscape

  -- `_cursor`
  unfoldable pub cursor : ℕ → Segment F → ℕ → ℕ
  cursor per_tick s tick =
      s.offset_samples + (tick - s.start_tick) * per_tick * s.rate_num / s.rate_den

  -- `_cut`
  abbrev cut_segments : ℕ → List (Segment F) → List (Segment F)
  cut_segments tick [] = []
  cut_segments tick (s ∷ older) =
      if not (is_some s.end_tick) && leb s.start_tick tick
      then record s { end_tick = some tick } ∷ older
      else s ∷ older

  abbrev pub cut : ℕ → Voice F → Voice F
  cut tick v = record v { segments = cut_segments tick v.segments }

  -- `natural_end_tick` at a given segment of the voice
  unfoldable pub segment_end : ℕ → Voice F → Segment F → Option ℕ
  segment_end per_tick v s =
      if v.loop
      then none
      else if v.duration_samples - s.offset_samples == 0
      then some s.start_tick
      else some (
          s.start_tick
          + ceil_div ((v.duration_samples - s.offset_samples) * s.rate_den) (s.rate_num * per_tick))

  -- `natural_end_tick` with its default segment
  unfoldable pub natural_end_tick : ℕ → Voice F → Option ℕ
  unfolding segment_end
  natural_end_tick per_tick v = elim (segment v) [ none ↦ none | some s ↦ segment_end per_tick v s ]

  -- the answer of `is_playing`
  unfoldable pub playing_at : ℕ → ℕ → Voice F → Bool
  unfolding segment_end
  playing_at per_tick tick v = elim (segment v) [
    | none ↦ false
    | some s ↦
        if not (is_open v) || ltb tick s.start_tick
        then false
        else if v.loop
        then true
        else before_end tick (segment_end per_tick v s)
  ]

  -- the answer of `current_position`
  unfoldable pub position_at : ℕ → ℕ → Voice F → ℕ
  unfolding segment_end cursor
  position_at per_tick tick v = elim (segment v) [
    | none ↦ 0
    | some s ↦
        if not (is_open v) || ltb tick s.start_tick
        then 0
        else if v.loop
        then cursor per_tick s tick % v.duration_samples
        else if before_end tick (segment_end per_tick v s)
        then min (cursor per_tick s tick) v.duration_samples
        else v.duration_samples
  ]

  -- `is_playing`
  unfoldable pub is_playing : TickMixer F → ℕ → Voice F → Bool × TickMixer F
  unfolding playing_at
  is_playing m tick v = (
    playing_at (spt m) tick v,
    record m { counters = record m.counters { is_playing = m.counters.is_playing + 1 } },
  )

  -- `current_position`
  unfoldable pub current_position : TickMixer F → ℕ → Voice F → ℕ × TickMixer F
  unfolding position_at
  current_position m tick v = (
    position_at (spt m) tick v,
    record m {
      counters = record m.counters { current_position = m.counters.current_position + 1 };
    },
  )

  -- one test of the loop in `_all`
  abbrev pub selected : ℕ → Option ℕ → Option ℕ → Voice F → Bool
  selected tick type_id voice_id v =
      matches voice_id v.voice_id
      && (matches type_id v.type_id
          && elim (segment v) [ none ↦ false | some s ↦ leb s.start_tick tick && is_open v ])

  -- `_first`
  unfoldable pub first : ℕ → Option ℕ → Option ℕ → List (Voice F) → Option (Voice F)
  first tick type_id voice_id [] = none
  first tick type_id voice_id (v ∷ vs) =
      if selected tick type_id voice_id v then some v else first tick type_id voice_id vs

  -- a voice object is the entry of `voices` at its id
  abbrev pub write_voice : TickMixer F → Voice F → TickMixer F
  write_voice m v = record m { voices = set m.voices v.voice_id v }

  abbrev pub logged : LogEntry F → TickMixer F → TickMixer F
  logged e m = record m { log = m.log ++ e ∷ [] }

  -- what `stop` writes to the voice that it found
  abbrev pub stop_voice : ℕ → Voice F → Voice F
  stop_voice tick v = record (cut tick v) { stopped = true; paused = false }

  abbrev stop_found : ℕ → Option (Voice F) → TickMixer F → Option (Voice F) × TickMixer F
  stop_found tick none m = (none, m)
  stop_found tick (some v) m =
      let stopped_voice = stop_voice tick v in
      (some stopped_voice, logged (stopped tick v.voice_id) (write_voice m stopped_voice))

  -- `stop`
  unfoldable pub stop : TickMixer F → ℕ → Option ℕ → Option ℕ → Option (Voice F) × TickMixer F
  unfolding first
  stop m tick type_id voice_id = stop_found tick (first tick type_id voice_id m.voices) m

  abbrev release_stopped : ℕ → Option (Voice F) × TickMixer F → Option (Voice F) × TickMixer F
  release_stopped tick (none, m) = (none, m)
  release_stopped tick (some v, m) =
      let retired = record v { released = true } in
      (some retired, logged (released tick v.voice_id) (write_voice m retired))

  -- `release`
  unfoldable pub release : TickMixer F → ℕ → Option ℕ → Option ℕ → Option (Voice F) × TickMixer F
  unfolding stop
  release m tick type_id voice_id = release_stopped tick (stop m tick type_id voice_id)

  -- the loop body of `pause` on one target
  abbrev pub pause_voice : ℕ → ℕ → Voice F → Voice F
  pause_voice per_tick tick v = record (cut tick v) {
    pause_offset = position_at per_tick tick v;
    stopped = true;
    paused = true;
    pause_count = v.pause_count + 1;
  }

  -- the loop of `pause`: the voices, the log entries, and the number of targets
  unfoldable pub pause_loop :
      ℕ → ℕ → Option ℕ → Option ℕ → List (Voice F) → List (Voice F) × List (LogEntry F) × ℕ
  unfolding position_at
  pause_loop per_tick tick type_id voice_id [] = ([], [], 0)
  pause_loop per_tick tick type_id voice_id (v ∷ vs) =
      let (rest, entries, n) = pause_loop per_tick tick type_id voice_id vs in
      if selected tick type_id voice_id v
      then (
        pause_voice per_tick tick v ∷ rest,
        paused tick v.voice_id (position_at per_tick tick v) ∷ entries,
        n + 1,
      )
      else (v ∷ rest, entries, n)

  -- `pause`
  unfoldable pub pause : TickMixer F → ℕ → Option ℕ → Option ℕ → TickMixer F
  unfolding pause_loop
  pause m tick type_id voice_id =
      let (voices, entries, n) = pause_loop (spt m) tick type_id voice_id m.voices in
      record m {
        voices = voices;
        log = m.log ++ entries;
        counters = record m.counters {
          current_position = m.counters.current_position + n;
          pause_offset = m.counters.pause_offset + n;
        };
      }

  -- the test of `resume`
  abbrev pub resumable : Option ℕ → Option ℕ → Voice F → Bool
  resumable type_id voice_id v =
      v.paused && (not v.released && (matches voice_id v.voice_id && matches type_id v.type_id))
