-- ===== src/Audio/Entry.antt =====
-- The entry points of `FoleyMachine`: `play`, `stop`, `game_pause`, `is_foley_playing` and
-- `snapshot` of virtual_audio.py. `clock` is the machine's `app_clock`.
use llm_vs_zombies.Base.{
  ℕ, ◌+◌, ◌-◌, ◌==◌, ℤ, pos, negsuc, Bool, false, ◌&&◌, not, Option, none, some, List, [], Result,
  ok, err, ◌>>=◌, length, get_elem?, set, ltb, lookup, insert, any, if◌then◌else◌, is_some, on_some,
}
use llm_vs_zombies.Audio.Types
use llm_vs_zombies.Audio.Types.{
  AudioError, assertion, missing_key, no_variation, unknown_type, Floats, PlayIntent, Soundscape,
  FoleyType,
}
use llm_vs_zombies.Audio.Pitch.{pitch_rate}
use llm_vs_zombies.Audio.Device.{Device}
use llm_vs_zombies.Audio.Observer.{MixerObserver, observe_intent, observe_stop, observe_pause}
use llm_vs_zombies.Audio.Foley.{
  Slot, FoleyMachine, rand, OutcomeKind, recent, reuse, no_slot, no_instance, played, stopped,
  pause, unpause, find_slot, is_held, candidates_from, pause_slot, release_finished, each_type,
  sweep, recorded,
}

-- the test of `played_too_recently` on one slot, at the application clock `now`
abbrev pub is_recent : ℕ → Slot → Bool
is_recent now s = is_held s && ltb now (s.start_count + 10)

module _ (fl : Floats) {D : Type 0} where
  open fl use {F, zero, one, eq}

  -- `self.slots[type_id]`
  abbrev pub slots_of : FoleyMachine F D → ℕ → List Slot
  slots_of m id = elim (lookup id m.slots) [ none ↦ [] | some slots ↦ slots ]

  -- `self.slots[type_id]` where the key may be missing
  abbrev pub slots_at : FoleyMachine F D → ℕ → Result AudioError (List Slot)
  slots_at m id = elim (lookup id m.slots) [ none ↦ err missing_key | some slots ↦ ok slots ]

  -- an assignment to fields of slot `i` of a type
  abbrev pub write_slot : ℕ → ℕ → Slot → FoleyMachine F D → FoleyMachine F D
  write_slot id i s m = record m { slots = insert id (set (slots_of m id) i s) m.slots }

  -- the mirror of an intent, a stop or a pause in the observer, if the machine has one
  abbrev pub mirror_intent : PlayIntent F → FoleyMachine F D → Result AudioError (FoleyMachine F D)
  mirror_intent i m = elim m.observer [
    | none ↦ ok m
    | some o ↦ observe_intent fl o i >>= λ o'. ok (record m { observer = some o' })
  ]

  abbrev pub mirror_stop : ℕ → ℕ → FoleyMachine F D → FoleyMachine F D
  mirror_stop tick id m =
      let mirrored : Option (MixerObserver F) = elim m.observer [
        | none ↦ none
        | some o ↦ some (observe_stop fl o tick id)
      ] in
      record m { observer = mirrored }

  abbrev pub mirror_pause : ℕ → Bool → FoleyMachine F D → FoleyMachine F D
  mirror_pause tick entering m =
      let mirrored : Option (MixerObserver F) = elim m.observer [
        | none ↦ none
        | some o ↦ some (observe_pause fl o tick entering)
      ] in
      record m { observer = mirrored }

  module _ (dev : Device fl D) (clock : ℕ → ℕ) where
    -- the end of `play`, once the device has answered the allocation
    unfoldable pub started :
        ℕ
        → ℕ
        → F
        → FoleyType
        → ℕ
        → ℕ
        → Slot
        → Option ℕ
        → FoleyMachine F D
        → Result AudioError (OutcomeKind × FoleyMachine F D)
    started tick id pitch entry variation i s none m =
        ok (no_instance, recorded fl tick (some id) no_instance (some variation) m)
    started tick id pitch entry variation i s (some instance_id) m = do
      let taken = record s {
        instance_id = some instance_id;
        refcount = 1;
        start_count = clock tick;
        paused = false;
        pause_offset = 0;
      }
      pitched ←
          if eq pitch zero then ok m.device else dev.adjust_pitch instance_id pitch tick m.device
      leveled ←
          if entry.flags.uses_music_volume
          then dev.set_volume instance_id one tick pitched
          else ok pitched
      running ← dev.play instance_id entry.flags.loop tick leveled
      let m' = write_slot id i taken (record m { device = running })
      ok (played, recorded fl tick (some id) played (some variation) m')

    -- `play` from the draw of the variation on
    unfoldable pub play_in_slot :
        ℕ
        → ℕ
        → F
        → FoleyType
        → ℕ
        → Slot
        → FoleyMachine F D
        → Result AudioError (OutcomeKind × FoleyMachine F D)
    unfolding started candidates_from rand
    play_in_slot tick id pitch entry i s m =
        let last : ℤ = elim (lookup id m.last_variation) [ none ↦ negsuc 0 | some n ↦ n ] in
        let candidates = candidates_from entry.flags.dont_repeat last 0 entry.resources in
        if length candidates == 0 then err no_variation else (do
          drawn ← rand m.rng (length candidates)
          variation ← elim (get_elem? candidates drawn.0) [ none ↦ err assertion | some c ↦ ok c ]
          resource_id ← elim (get_elem? entry.resources variation) [
            | none ↦ err assertion
            | some r ↦ elim r [ none ↦ err assertion | some id ↦ ok id ]
          ]
          rate ← pitch_rate fl 44100 pitch
          let intent : PlayIntent F = record {
            seq = length m.outcomes;
            tick = tick;
            type_id = id;
            variation = variation;
            resource = resource_id;
            pitch = pitch;
            loop = entry.flags.loop;
            rate = rate;
            volume = one;
            pan = pos 0;
          }
          mirrored ← mirror_intent intent (record m {
            rng = drawn.1;
            last_variation = insert id (pos variation) m.last_variation;
          })
          allocated ← dev.allocate tick intent mirrored.device
          started tick id pitch entry variation i s allocated.0
              (record mirrored { device = allocated.1 }))

    -- the search of `play` for a free slot
    unfoldable pub play_free :
        ℕ
        → ℕ
        → F
        → FoleyType
        → FoleyMachine F D
        → Result AudioError (OutcomeKind × FoleyMachine F D)
    unfolding play_in_slot find_slot
    play_free tick id pitch entry m =
        on_some (find_slot (λ s. s.refcount == 0) (slots_of m id))
          (ok (no_slot, recorded fl tick (some id) no_slot none m))
          λ i.
            on_some (get_elem? (slots_of m id) i) (err assertion)
              λ s. play_in_slot tick id pitch entry i s m

    -- the one-at-a-time path of `play`
    unfoldable pub play_admitted :
        ℕ
        → ℕ
        → F
        → FoleyType
        → FoleyMachine F D
        → Result AudioError (OutcomeKind × FoleyMachine F D)
    unfolding play_free
    play_admitted tick id pitch entry m =
        if entry.flags.one_at_a_time
        then on_some (find_slot is_held (slots_of m id)) (play_free tick id pitch entry m) (λ i.
          on_some (get_elem? (slots_of m id) i) (err assertion) λ s. ok (
            reuse,
            recorded fl tick (some id) reuse none (
                write_slot id i (record s { refcount = s.refcount + 1; start_count = clock tick })
                  m),
          ))
        else play_free tick id pitch entry m

    -- `play`
    unfoldable pub play :
        ℕ → ℕ → F → FoleyMachine F D → Result AudioError (OutcomeKind × FoleyMachine F D)
    unfolding play_admitted release_finished Types.type
    play tick id pitch m = do
      entry ← Types.type m.soundscape id
      m' ← release_finished fl dev tick m
      slots ← slots_at m' id
      let late = recorded fl tick (some id) recent none m'
      if any (is_recent (clock tick)) slots && not entry.flags.loop
          then ok (recent, late)
          else play_admitted tick id pitch entry m'

    -- `stop` where the last reference is dropped
    abbrev pub release_last :
        ℕ → ℕ → ℕ → Slot → FoleyMachine F D → Result AudioError (FoleyMachine F D)
    release_last tick id i s m = elim s.instance_id [
      | none ↦ err assertion
      | some instance_id ↦ dev.release instance_id tick m.device >>= λ d'.
          ok (write_slot id i (record s { instance_id = none }) (record m { device = d' }))
    ]

    -- `stop` on the slot that `find_instance` returns
    unfoldable pub stop_slot :
        ℕ → ℕ → ℕ → Slot → FoleyMachine F D → Result AudioError (FoleyMachine F D)
    stop_slot tick id i s m = do
      let fewer = record s { refcount = s.refcount - 1 }
      m' ←
          if fewer.refcount == 0
          then release_last tick id i fewer m
          else ok (write_slot id i fewer m)
      ok (recorded fl tick (some id) stopped none m')

    -- `stop` from the call of `find_instance` on
    unfoldable pub stop_found : ℕ → ℕ → FoleyMachine F D → Result AudioError (FoleyMachine F D)
    unfolding stop_slot find_slot
    stop_found tick id m = do
      slots ← slots_at m id
      on_some (find_slot is_held slots) (ok m)
          λ i. on_some (get_elem? slots i) (err assertion) λ s. stop_slot tick id i s m

    -- `stop`
    unfoldable pub stop : ℕ → ℕ → FoleyMachine F D → Result AudioError (FoleyMachine F D)
    unfolding stop_found release_finished
    stop tick id m =
        release_finished fl dev tick m >>= λ m'. stop_found tick id (mirror_stop tick id m')

    abbrev pub pause_type : Soundscape F → ℕ → Bool → ℕ → Slot → D → Result AudioError (Slot × D)
    pause_type s tick entering id slot d = elim (lookup id s.types) [
      | none ↦ err unknown_type
      | some entry ↦
          if entry.flags.mute_on_pause
          then pause_slot fl dev tick entering entry.flags.loop slot d
          else ok (slot, d)
    ]

    -- `game_pause` from the loop over the types on
    unfoldable pub pause_types : ℕ → Bool → FoleyMachine F D → Result AudioError (FoleyMachine F D)
    unfolding pause_slot each_type
    pause_types tick entering m = do
      swept ← sweep fl (pause_type m.soundscape tick entering) m
      ok (recorded fl tick none (if entering then pause else unpause) none swept)

    -- `game_pause`
    unfoldable pub game_pause : ℕ → Bool → FoleyMachine F D → Result AudioError (FoleyMachine F D)
    unfolding pause_types release_finished
    game_pause tick entering m = release_finished fl dev tick m >>= λ m'.
        pause_types tick entering (mirror_pause tick entering m')

    -- `is_foley_playing`
    unfoldable pub is_foley_playing :
        ℕ → ℕ → FoleyMachine F D → Result AudioError (Bool × FoleyMachine F D)
    unfolding find_slot release_finished
    is_foley_playing tick id m = do
      m' ← release_finished fl dev tick m
      slots ← slots_at m' id
      ok (is_some (find_slot is_held slots), m')
