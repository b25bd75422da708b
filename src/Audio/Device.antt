-- ===== src/Audio/Device.antt =====
-- The device behind `FoleyMachine`: the interface that the machine calls, `AllocationNoneDevice`
-- and `TickVirtualDevice` of virtual_audio.py. A call that raises leaves no state behind, since
-- no caller catches it.
use llm_vs_zombies.Base.{
  ℕ, ◌+◌, Bool, Option, none, some, Result, ok, err, ◌>>=◌, get_elem?, keep, not, length, leb,
  if◌then◌else◌, List, [], ◌∷◌, String,
}
use llm_vs_zombies.Audio.Types.{AudioError, no_instances, lost_voice, Floats, Voice, PlayIntent}
use llm_vs_zombies.Audio.Mixer.{TickMixer, is_playing, current_position, release, stop}
use llm_vs_zombies.Audio.Writes.{play, play_from, set_position, set_rate, set_volume}
use llm_vs_zombies.Audio.Pitch.{pitch_rate}

-- The device methods that `FoleyMachine` calls, over the device's own state; an instance is the
-- `voice_id` of the voice object that the source passes.
pub record Device (fl : Floats) (D : Type 0) : Type 0 where
  pub allocate : ℕ → PlayIntent fl.F → D → Result AudioError (Option ℕ × D)
  pub is_playing : ℕ → ℕ → D → Result AudioError (Bool × D)
  pub position : ℕ → ℕ → D → Result AudioError (ℕ × D)
  pub release : ℕ → ℕ → D → Result AudioError D
  pub play : ℕ → Bool → ℕ → D → Result AudioError D
  pub stop : ℕ → ℕ → D → Result AudioError D
  pub set_position : ℕ → ℕ → ℕ → D → Result AudioError D
  pub adjust_pitch : ℕ → fl.F → ℕ → D → Result AudioError D
  pub set_volume : ℕ → fl.F → ℕ → D → Result AudioError D
  -- `getattr(device, "counters", None)`
  pub counters : D → Option (List (String × ℕ))

module _ (fl : Floats) where
  open fl use {F}

  -- `AllocationNoneDevice`; its state is the number of calls of `allocate`
  abbrev pub allocation_none : Device fl ℕ
  allocation_none = record {
    allocate = λ tick intent n. ok (none, n + 1);
    is_playing = λ instance_id tick n. err no_instances;
    position = λ instance_id tick n. err no_instances;
    release = λ instance_id tick n. err no_instances;
    play = λ instance_id looping tick n. err no_instances;
    stop = λ instance_id tick n. err no_instances;
    set_position = λ instance_id tick offset n. err no_instances;
    adjust_pitch = λ instance_id steps tick n. err no_instances;
    set_volume = λ instance_id volume tick n. err no_instances;
    counters = λ n. some (("allocate", n) ∷ []);
  }

  -- the voice object that an id stands for
  abbrev pub voice_at : TickMixer F → ℕ → Result AudioError (Voice F)
  voice_at m id = elim (get_elem? m.voices id) [ none ↦ err lost_voice | some v ↦ ok v ]

  -- the voices that hold a channel of the manager
  abbrev pub held_channels : TickMixer F → ℕ
  held_channels m = length (keep (λ v. not v.released) m.voices)

  -- `TickVirtualDevice.allocate`
  unfoldable pub virtual_allocate :
      ℕ → PlayIntent F → TickMixer F → Result AudioError (Option ℕ × TickMixer F)
  unfolding play
  virtual_allocate tick intent m = if leb 32 (held_channels m) then ok (none, m) else do
    made ←
        play fl m tick intent.type_id intent.resource (some intent.variation) intent.rate
          intent.volume intent.pan intent.loop intent.seq intent.pitch
    ok (some (made.0).voice_id, made.1)

  -- `TickVirtualDevice`
  abbrev pub tick_virtual : Device fl (TickMixer F)
  tick_virtual = record {
    allocate = virtual_allocate;
    is_playing = λ id tick m. voice_at m id >>= λ v. ok (is_playing m tick v);
    position = λ id tick m. voice_at m id >>= λ v. ok (current_position m tick v);
    release = λ id tick m. ok (release m tick none (some id)).1;
    play = λ id looping tick m. voice_at m id >>= λ v. ok (play_from fl m tick v 0);
    stop = λ id tick m. ok (stop m tick none (some id)).1;
    set_position = λ id tick offset m. voice_at m id >>= λ v. set_position fl m tick v offset;
    adjust_pitch = λ id steps tick m. do
      v ← voice_at m id
      rate ← pitch_rate fl 44100 steps
      set_rate fl m tick v rate;
    set_volume = λ id volume tick m. voice_at m id >>= λ v. set_volume fl m tick v volume;
    counters = λ m. none;
  }
