-- ===== src/Audio/Writes.antt =====
-- The remaining device writes of `TickMixer`: those that open a new segment of a voice.
use llm_vs_zombies.Base.{
  ℕ, ◌==◌, ℤ, pos, negsuc, ltb_ℤ, clamp_ℤ, ◌+ℤ◌, Bool, false, ◌||◌, Option, none, some, List, [],
  ◌∷◌, ◌++◌, Result, ok, err, ◌>>=◌, lookup, length, ltb, is_some, if◌then◌else◌,
}
use llm_vs_zombies.Audio.Types.{
  AudioError, bad_integer, bad_number, precedes_segment, Floats, Segment, Voice, resource, segment,
}
use llm_vs_zombies.Audio.Mixer.{
  LogEntry, played, played_from, resumed, TickMixer, rate_frequency, spt, cursor, cut, write_voice,
  logged, resumable,
}

module _ (fl : Floats) where
  open fl use {F, zero, one, lt, eq, times, is_finite}

  -- `min(max(value, 0.0), 1.0)`
  unfoldable pub clamp_gain : F → F
  clamp_gain x = let raised = if lt x zero then zero else x in if lt one raised then one else raised

  -- `_number`
  unfoldable pub number : F → Result AudioError F
  number x = if is_finite x then ok x else err bad_number

  -- `_integer(pan, "pan", -10000, 10000)`
  unfoldable pub pan_integer : ℤ → Result AudioError ℤ
  pan_integer p = if ltb_ℤ p (negsuc 9999) || ltb_ℤ (pos 10000) p then err bad_integer else ok p

  -- `_integer(value, name, 1)`
  unfoldable pub positive : ℕ → Result AudioError ℕ
  positive n = if n == 0 then err bad_integer else ok n

  -- the segment that `play_from` and `resume` append, with the defaults for a voice that has none
  abbrev pub next_segment : ℕ → ℕ → Option (Segment F) → Segment F
  next_segment tick offset none = record {
    start_tick = tick;
    offset_samples = offset;
    rate_num = 1;
    rate_den = 1;
    volume = one;
    pan = pos 0;
    end_tick = none;
  }
  next_segment tick offset (some previous) = record previous {
    start_tick = tick;
    offset_samples = offset;
    end_tick = none;
  }

  -- `play`; the voice returned is the newest of the mixer
  unfoldable pub play :
      TickMixer F
      → (tick type_id resource_id : ℕ) (variation : Option ℕ) (rate : ℕ × ℕ) (volume : F) (pan : ℤ)
        (loop : Bool) (seq : ℕ) (pitch_steps : F)
      → Result AudioError (Voice F × TickMixer F)
  unfolding number pan_integer positive clamp_gain resource
  play m tick type_id resource_id variation rate volume pan loop seq pitch_steps = do
    sound ← resource m.soundscape resource_id
    let looping =
        loop || elim (lookup type_id m.soundscape.types) [ none ↦ false | some e ↦ e.flags.loop ]
    level ← number volume
    let gain = clamp_gain (times sound.base_volume level)
    shift ← pan_integer pan
    let combined_pan = clamp_ℤ (negsuc 9999) (pos 10000) (sound.pan +ℤ shift)
    steps ← number pitch_steps
    num ← positive rate.0
    den ← positive rate.1
    let id : ℕ = length m.voices
    let opening : Segment F = record {
      start_tick = tick;
      offset_samples = 0;
      rate_num = num;
      rate_den = den;
      volume = gain;
      pan = combined_pan;
      end_tick = none;
    }
    let voice : Voice F = record {
      voice_id = id;
      type_id = type_id;
      resource = resource_id;
      duration_samples = sound.duration_samples;
      loop = looping;
      variation = variation;
      seq = seq;
      pitch_steps = steps;
      frequency_hz = rate_frequency num den;
      segments = opening ∷ [];
      stopped = false;
      paused = false;
      released = false;
      pause_offset = 0;
      pause_count = 0;
    }
    ok (
      voice,
      logged
          (played tick id type_id resource_id variation looping gain combined_pan num den steps
            (rate_frequency num den))
          (record m { voices = m.voices ++ voice ∷ [] }),
    )

  -- what `play_from` writes to its voice
  abbrev pub restart_voice : ℕ → ℕ → Voice F → Voice F
  restart_voice tick offset v = record v {
    segments = next_segment tick offset (segment v) ∷ (cut tick v).segments;
    stopped = false;
    paused = false;
  }

  -- `play_from`
  unfoldable pub play_from : TickMixer F → ℕ → Voice F → ℕ → TickMixer F
  play_from m tick v offset =
      logged (played_from tick v.voice_id offset) (write_voice m (restart_voice tick offset v))

  -- the loop body of `resume` on one target
  abbrev pub resume_voice : ℕ → Voice F → Voice F
  resume_voice tick v = record v {
    paused = false;
    stopped = false;
    segments = next_segment tick v.pause_offset (segment v) ∷ v.segments;
  }

  -- the loop of `resume`: the voices and the log entries
  unfoldable pub resume_loop :
      ℕ → Option ℕ → Option ℕ → List (Voice F) → List (Voice F) × List (LogEntry F)
  resume_loop tick type_id voice_id [] = ([], [])
  resume_loop tick type_id voice_id (v ∷ vs) =
      let (rest, entries) = resume_loop tick type_id voice_id vs in
      if resumable type_id voice_id v
      then (resume_voice tick v ∷ rest, resumed tick v.voice_id v.pause_offset ∷ entries)
      else (v ∷ rest, entries)

  -- `resume`
  unfoldable pub resume : TickMixer F → ℕ → Option ℕ → Option ℕ → TickMixer F
  unfolding resume_loop
  resume m tick type_id voice_id =
      let (voices, entries) = resume_loop tick type_id voice_id m.voices in
      record m { voices = voices; log = m.log ++ entries }

  -- `_segment_of`
  unfoldable pub segment_of : ℕ → Voice F → Result AudioError (Option (Segment F))
  segment_of tick v = elim (segment v) [
    | none ↦ ok none
    | some s ↦
        if is_some s.end_tick || (v.stopped || v.paused)
        then ok none
        else if ltb tick s.start_tick
        then err precedes_segment
        else ok (some s)
  ]

  -- the end of `set_rate`, `set_position` and `_reparameterise`: cut, then append a segment
  abbrev pub reopen : ℕ → Segment F → Voice F → Voice F
  reopen tick s v = record v { segments = s ∷ (cut tick v).segments }

  abbrev pub set_rate_at :
      TickMixer F → ℕ → Voice F → ℕ × ℕ → Option (Segment F) → Result AudioError (TickMixer F)
  set_rate_at m tick v rate none = ok m
  set_rate_at m tick v rate (some s) = do
    num ← positive rate.0
    den ← positive rate.1
    let next = record s {
      start_tick = tick;
      offset_samples = cursor (spt m) s tick;
      rate_num = num;
      rate_den = den;
      end_tick = none;
    }
    ok (write_voice m (record (reopen tick next v) { frequency_hz = rate_frequency num den }))

  -- `set_rate`
  unfoldable pub set_rate : TickMixer F → ℕ → Voice F → ℕ × ℕ → Result AudioError (TickMixer F)
  unfolding segment_of positive cursor
  set_rate m tick v rate = segment_of tick v >>= set_rate_at m tick v rate

  abbrev pub set_position_at : TickMixer F → ℕ → Voice F → ℕ → Option (Segment F) → TickMixer F
  set_position_at m tick v offset none = m
  set_position_at m tick v offset (some s) =
      write_voice m
        (reopen tick (record s { start_tick = tick; offset_samples = offset; end_tick = none }) v)

  -- `set_position`
  unfoldable pub set_position : TickMixer F → ℕ → Voice F → ℕ → Result AudioError (TickMixer F)
  unfolding segment_of
  set_position m tick v offset = segment_of tick v >>= λ s. ok (set_position_at m tick v offset s)

  -- `_reparameterise`, with what changes in the new segment
  abbrev pub reparameterise_at :
      TickMixer F → ℕ → Voice F → (Segment F → Segment F) → Option (Segment F) → TickMixer F
  reparameterise_at m tick v change none = m
  reparameterise_at m tick v change (some s) =
      let next = record s {
        start_tick = tick;
        offset_samples = cursor (spt m) s tick;
        end_tick = none;
      } in
      write_voice m (reopen tick (change next) v)

  unfoldable pub reparameterise :
      TickMixer F → ℕ → Voice F → (Segment F → Segment F) → Result AudioError (TickMixer F)
  unfolding segment_of cursor
  reparameterise m tick v change =
      segment_of tick v >>= λ s. ok (reparameterise_at m tick v change s)

  -- `set_volume`
  unfoldable pub set_volume : TickMixer F → ℕ → Voice F → F → Result AudioError (TickMixer F)
  unfolding number clamp_gain reparameterise
  set_volume m tick v volume = do
    level ← number volume
    reparameterise m tick v (λ s. record s { volume = clamp_gain level })

  -- `set_pan`
  unfoldable pub set_pan : TickMixer F → ℕ → Voice F → ℤ → Result AudioError (TickMixer F)
  unfolding pan_integer reparameterise
  set_pan m tick v pan = do
    shift ← pan_integer pan
    reparameterise m tick v (λ s. record s { pan = shift })
