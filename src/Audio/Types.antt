-- ===== src/Audio/Types.antt =====
-- The data of virtual_audio.py: the declared soundscape, the voices of the mixer and the errors.
-- Python's `float` is a parameter: only the comparisons and products that the code makes are named.
use llm_vs_zombies.Base.{
  ℕ, ◌/◌, ℤ, Bool, false, not, ◌&&◌, Option, none, some, List, [], ◌∷◌, String, Result, ok, err,
  Dict, lookup, is_some,
}

-- The messages of `AudioModelError`, told apart by what was rejected; `assertion` is a failed
-- `assert`, `overflow` the `OverflowError` of `math.pow`, and `lost_voice` an id that stands for no
-- voice object, which the source cannot have; `missing_key` is a `KeyError`.
pub data AudioError : Type 0 where
  bad_integer bad_number bad_text bad_flags bad_kind bad_volume bad_resources : AudioError
  unknown_wiring unknown_resource unknown_type precedes_segment precedes_track : AudioError
  no_variation no_instances outside_ticks unknown_action : AudioError
  assertion overflow lost_voice missing_key : AudioError

-- `float`: `lt` is `<`, `times` is `*`, and `pitch_hz base steps` is
-- `int(base * math.pow(PITCH_STEP, steps))`, with `none` where `math.pow` overflows.
pub record Floats : Type 1 where
  pub F : Type 0
  pub zero : F
  pub one : F
  pub lt : F → F → Bool
  pub eq : F → F → Bool
  pub times : F → F → F
  pub is_finite : F → Bool
  pub pitch_hz : ℕ → F → Option ℕ

pub record SoundResource (F : Type 0) : Type 0 where
  pub id : ℕ
  pub name : String
  pub duration_samples : ℕ
  pub source_kind : String
  pub frequency_hz : F
  pub path : Option String
  pub base_volume : F
  pub pan : ℤ
  pub loop : Bool

-- `flags: frozenset[str]`, by its characteristic function on `FLAGS`
pub record Flags : Type 0 where
  pub loop : Bool
  pub one_at_a_time : Bool
  pub dont_repeat : Bool
  pub mute_on_pause : Bool
  pub uses_music_volume : Bool

pub record FoleyType : Type 0 where
  pub type_id : ℕ
  pub name : String
  pub resources : List (Option ℕ)
  pub flags : Flags

pub record Soundscape (F : Type 0) : Type 0 where
  pub sounds : Dict (SoundResource F)
  pub types : Dict FoleyType
  pub sample_rate : ℕ
  pub ticks_per_second : ℕ

pub record Segment (F : Type 0) : Type 0 where
  pub start_tick : ℕ
  pub offset_samples : ℕ
  pub rate_num : ℕ
  pub rate_den : ℕ
  pub volume : F
  pub pan : ℤ
  pub end_tick : Option ℕ

-- `segments` stands newest first: its head is the source's `segments[-1]`.
pub record Voice (F : Type 0) : Type 0 where
  pub voice_id : ℕ
  pub type_id : ℕ
  pub resource : ℕ
  pub duration_samples : ℕ
  pub loop : Bool
  pub variation : Option ℕ
  pub seq : ℕ
  pub pitch_steps : F
  pub frequency_hz : ℕ
  pub segments : List (Segment F)
  pub stopped : Bool
  pub paused : Bool
  pub released : Bool
  pub pause_offset : ℕ
  pub pause_count : ℕ

pub record PlayIntent (F : Type 0) : Type 0 where
  pub seq : ℕ
  pub tick : ℕ
  pub type_id : ℕ
  pub variation : ℕ
  pub resource : ℕ
  pub pitch : F
  pub loop : Bool
  pub rate : ℕ × ℕ
  pub volume : F
  pub pan : ℤ

module _ {F : Type 0} where
  -- `Soundscape.samples_per_tick`
  abbrev pub samples_per_tick : Soundscape F → ℕ
  samples_per_tick s = s.sample_rate / s.ticks_per_second

  -- `Soundscape.resource`
  unfoldable pub resource : Soundscape F → ℕ → Result AudioError (SoundResource F)
  resource s id = elim (lookup id s.sounds) [ none ↦ err unknown_resource | some sound ↦ ok sound ]

  -- `Soundscape.type`
  unfoldable pub type : Soundscape F → ℕ → Result AudioError FoleyType
  type s id = elim (lookup id s.types) [ none ↦ err unknown_type | some entry ↦ ok entry ]

  -- `Voice.segment`
  abbrev pub segment : Voice F → Option (Segment F)
  segment v = elim v.segments [ [] ↦ none | s ∷ _ ↦ some s ]

  -- `Voice.open`
  abbrev pub is_open : Voice F → Bool
  is_open v = elim (segment v) [
    | none ↦ false
    | some s ↦ not (is_some s.end_tick) && (not v.stopped && not v.paused)
  ]
