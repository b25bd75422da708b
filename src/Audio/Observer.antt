-- ===== src/Audio/Observer.antt =====
-- `AudioEvent` and `MixerObserver` of virtual_audio.py: the mirror of the play intents in a mixer.
use llm_vs_zombies.Base.{
  ℕ, ◌+◌, ◌==◌, Bool, false, ◌||◌, Option, none, some, List, [], ◌∷◌, ◌++◌, Result, ok, ◌>>=◌, ◌>>◌,
  raise_if, ℤ, pos, length, leb, ltb, lookup, Dict, if◌then◌else◌,
}
use llm_vs_zombies.Audio.Types.{
  AudioError, bad_integer, bad_volume, Floats, Voice, PlayIntent, FoleyType, segment,
}
use llm_vs_zombies.Audio.Mixer
use llm_vs_zombies.Audio.Mixer.{TickMixer, playing_at, spt, Counters}
use llm_vs_zombies.Audio.Writes
use llm_vs_zombies.Audio.Writes.{number, pan_integer, positive}

pub data EventKind : Type 0 where
  play stop pause resume : EventKind

pub record AudioEvent (F : Type 0) : Type 0 where
  pub seq : ℕ
  pub tick : ℕ
  pub kind : EventKind
  pub type_id : ℕ
  pub resource : Option ℕ
  pub variation : Option ℕ
  pub rate : ℕ × ℕ
  pub volume : F
  pub pan : ℤ
  pub loop : Bool
  pub voice : Option ℕ
  pub pitch_steps : F

-- the admission policies `all` and `original`
pub data Admission : Type 0 where
  all original : Admission

pub data DropReason : Type 0 where
  recent reuse no_slot : DropReason

pub record Dropped : Type 0 where
  pub seq : ℕ
  pub tick : ℕ
  pub type_id : ℕ
  pub reason : DropReason

pub record MixerObserver (F : Type 0) : Type 0 where
  pub mixer : TickMixer F
  pub admission : Admission
  pub events : List (AudioEvent F)
  pub dropped : List Dropped

abbrev pub entry_loops : Option FoleyType → Bool
entry_loops none = false
entry_loops (some e) = e.flags.loop

abbrev pub entry_reuses : Option FoleyType → Bool
entry_reuses none = false
entry_reuses (some e) = e.flags.one_at_a_time

module _ {F : Type 0} where
  -- the voices of one type that play, with a count of the queries that were made
  unfoldable pub playing_of_type : ℕ → ℕ → ℕ → List (Voice F) → List (Voice F) × ℕ
  unfolding playing_at
  playing_of_type per_tick tick type_id [] = ([], 0)
  playing_of_type per_tick tick type_id (v ∷ vs) =
      let (rest, n) = playing_of_type per_tick tick type_id vs in
      if v.type_id == type_id
      then (if playing_at per_tick tick v then v ∷ rest else rest, n + 1)
      else (rest, n)

  -- `max(voice.segment.start_tick for voice in playing if voice.segment) > tick - 10`
  abbrev pub started_recently : ℕ → List (Voice F) → Bool
  started_recently tick [] = false
  started_recently tick (v ∷ vs) =
      elim (segment v) [ none ↦ false | some s ↦ ltb tick (s.start_tick + 10) ]
      || started_recently tick vs

  abbrev pub queried : ℕ → TickMixer F → TickMixer F
  queried n m = record m { counters = record m.counters { is_playing = m.counters.is_playing + n } }

  -- the answer of `_gate` once the playing voices are known
  unfoldable pub gate_playing : ℕ → Option FoleyType → List (Voice F) → Option DropReason
  gate_playing tick entry [] = none
  gate_playing tick entry (v ∷ vs) =
      if entry_loops entry
      then none
      else if started_recently tick (v ∷ vs)
      then some recent
      else if entry_reuses entry
      then some reuse
      else if leb 8 (length (v ∷ vs))
      then some no_slot
      else none

  abbrev gate_original : MixerObserver F → ℕ → ℕ → Option DropReason × MixerObserver F
  gate_original o tick type_id =
      let (playing, n) = playing_of_type (spt o.mixer) tick type_id o.mixer.voices in
      (
        gate_playing tick (lookup type_id o.mixer.soundscape.types) playing,
        record o { mixer = queried n o.mixer },
      )

  -- `_gate`, which counts its queries in the mixer
  unfoldable pub gate : MixerObserver F → ℕ → ℕ → Option DropReason × MixerObserver F
  unfolding playing_of_type gate_playing
  gate o tick type_id = elim o.admission [
    | all ↦ (none, o)
    | original ↦ gate_original o tick type_id
  ]

module _ (fl : Floats) where
  open fl use {F, zero, one, lt}

  -- `AudioEvent.__post_init__` for a `play` event
  unfoldable pub check_play_event : AudioEvent F → Result AudioError (Unit {0})
  unfolding positive number pan_integer
  check_play_event e = do
    raise_if (elim e.variation [ none ↦ false | some v ↦ ltb 9 v ]) bad_integer
    num ← positive fl e.rate.0
    den ← positive fl e.rate.1
    level ← number fl e.volume
    raise_if (lt level zero || lt one level) bad_volume
    shift ← pan_integer fl e.pan
    steps ← number fl e.pitch_steps
    ok tt

  abbrev pub intent_event : PlayIntent F → AudioEvent F
  intent_event i = record {
    seq = i.seq;
    tick = i.tick;
    kind = EventKind.play;
    type_id = i.type_id;
    resource = some i.resource;
    variation = some i.variation;
    rate = i.rate;
    volume = i.volume;
    pan = i.pan;
    loop = i.loop;
    voice = none;
    pitch_steps = i.pitch;
  }

  -- an event with the defaults of the data class
  abbrev pub plain_event : ℕ → ℕ → EventKind → ℕ → AudioEvent F
  plain_event seq tick kind type_id = record {
    seq = seq;
    tick = tick;
    kind = kind;
    type_id = type_id;
    resource = none;
    variation = none;
    rate = (1, 1);
    volume = one;
    pan = pos 0;
    loop = false;
    voice = none;
    pitch_steps = zero;
  }

  abbrev intent_gated :
      PlayIntent F → Option DropReason × MixerObserver F → Result AudioError (MixerObserver F)
  intent_gated i (some reason, o) =
      let entry : Dropped = record {
        seq = i.seq;
        tick = i.tick;
        type_id = i.type_id;
        reason = reason;
      } in
      ok (record o { dropped = o.dropped ++ entry ∷ [] })
  intent_gated i (none, o) = do
    check_play_event (intent_event i)
    made ←
        Writes.play fl o.mixer i.tick i.type_id i.resource (some i.variation) i.rate i.volume i.pan
          i.loop i.seq i.pitch
    ok (record o { events = o.events ++ intent_event i ∷ []; mixer = made.1 })

  -- `MixerObserver.intent`
  unfoldable pub observe_intent :
      MixerObserver F → PlayIntent F → Result AudioError (MixerObserver F)
  unfolding gate check_play_event Writes.play
  observe_intent o i = intent_gated i (gate o i.tick i.type_id)

  abbrev with_event : AudioEvent F → MixerObserver F → MixerObserver F
  with_event e o = record o { events = o.events ++ e ∷ [] }

  -- `MixerObserver.stop`
  unfoldable pub observe_stop : MixerObserver F → ℕ → ℕ → MixerObserver F
  unfolding Mixer.stop
  observe_stop o tick type_id =
      with_event (plain_event (length o.events) tick EventKind.stop type_id)
        (record o { mixer = (Mixer.stop o.mixer tick (some type_id) none).1 })

  -- the loop of `MixerObserver.game_pause` over the declared types
  unfoldable pub mute_types : Bool → ℕ → Dict FoleyType → TickMixer F → TickMixer F
  unfolding Mixer.pause Writes.resume
  mute_types entering tick [] m = m
  mute_types entering tick ((type_id, entry) ∷ types) m = mute_types entering tick types (
      if entry.flags.mute_on_pause
      then if entering
        then Mixer.pause m tick (some type_id) none
        else Writes.resume fl m tick (some type_id) none
      else m)

  -- `MixerObserver.game_pause`
  unfoldable pub observe_pause : MixerObserver F → ℕ → Bool → MixerObserver F
  unfolding mute_types
  observe_pause o tick entering =
      with_event
        (plain_event (length o.events) tick (if entering then EventKind.pause else EventKind.resume)
          0)
        (record o { mixer = mute_types entering tick o.mixer.soundscape.types o.mixer })
