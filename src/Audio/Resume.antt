-- ===== src/Audio/Resume.antt =====
-- `pause` and `resume` of the mixer: the pair keeps each voice's position.
use mathlib.Core.Option
use llm_vs_zombies.Base.{
  List-cases, ℕ, ◌≤◌, ◌<◌, ◌≡◌, refl, true, false, Option, none, some, List, [], ◌∷◌, arith, zero,
  suc, Bool-cases, inl, inr, get_elem?, if◌then◌else◌,
}
use llm_vs_zombies.Audio.Types.{Floats, Segment, Voice, segment}
use llm_vs_zombies.Audio.Mixer.{
  TickMixer, matches, cut, spt, playing_at, position_at, selected, resumable, pause_voice,
  pause_loop, pause,
}
use llm_vs_zombies.Audio.Writes.{resume_voice, resume_loop, resume}
use llm_vs_zombies.Audio.Position.{IsTimed, position_at-le, position_at-lt, position_at-start}

module _ {F : Type 0} (pt tick : ℕ) (type_id voice_id : Option ℕ) where
  -- what `pause` does to one voice of the table
  abbrev pub pause_step : Voice F → Voice F
  pause_step v = if selected tick type_id voice_id v then pause_voice pt tick v else v

  pub get_elem?-pause_loop :
      (vs : List (Voice F)) (i : ℕ)
      → get_elem? (pause_loop pt tick type_id voice_id vs).0 i
        ≡ Option.map pause_step (get_elem? vs i)
  unfolding pause_loop
  get_elem?-pause_loop [] i = refl
  get_elem?-pause_loop (v ∷ vs) zero = elim (Bool-cases (selected tick type_id voice_id v)) [
    | inl e ↦ rw e refl
    | inr e ↦ rw e refl
  ]
  get_elem?-pause_loop (v ∷ vs) (suc i) = elim (Bool-cases (selected tick type_id voice_id v)) [
    | inl e ↦ rw e (get_elem?-pause_loop vs i)
    | inr e ↦ rw e (get_elem?-pause_loop vs i)
  ]

module _ (fl : Floats) where
  open fl use {F}

  module _ (tick : ℕ) (type_id voice_id : Option ℕ) where
    -- what `resume` does to one voice of the table
    abbrev pub resume_step : Voice F → Voice F
    resume_step v = if resumable type_id voice_id v then resume_voice fl tick v else v

    pub get_elem?-resume_loop :
        (vs : List (Voice F)) (i : ℕ)
        → get_elem? (resume_loop fl tick type_id voice_id vs).0 i
          ≡ Option.map resume_step (get_elem? vs i)
    unfolding resume_loop
    get_elem?-resume_loop [] i = refl
    get_elem?-resume_loop (v ∷ vs) zero = elim (Bool-cases (resumable type_id voice_id v)) [
      | inl e ↦ rw e refl
      | inr e ↦ rw e refl
    ]
    get_elem?-resume_loop (v ∷ vs) (suc i) = elim (Bool-cases (resumable type_id voice_id v)) [
      | inl e ↦ rw e (get_elem?-resume_loop vs i)
      | inr e ↦ rw e (get_elem?-resume_loop vs i)
    ]

  abbrev resumed_segment : ℕ → Voice F → Segment F → Segment F
  resumed_segment tick v s = record s {
    start_tick = tick;
    offset_samples = v.pause_offset;
    end_tick = none;
  }

  -- The new segment starts at the stored offset, so its position at that tick is the stored one.
  position_at-resume_voice :
      (pt tick : ℕ) (v : Voice F) (s : Segment F) (older : List (Segment F))
      → v.segments ≡ s ∷ older
      → IsTimed pt s
      → 0 < v.duration_samples
      → v.pause_offset ≤ v.duration_samples
      → (v.loop ≡ true → v.pause_offset < v.duration_samples)
      → position_at pt tick (resume_voice fl tick v) ≡ v.pause_offset
  position_at-resume_voice pt tick v s older at timed filled bound wrapped =
      position_at-start pt tick (resume_voice fl tick v) (resumed_segment tick v s) v.segments
        (rw at refl) (rw at refl) refl
        (record { ticking = timed.ticking; rate_num = timed.rate_num; rate_den = timed.rate_den })
        bound wrapped

  module _ (tick : ℕ) (type_id voice_id : Option ℕ) (v : Voice F) (s : Segment F)
      (older : List (Segment F)) (at : v.segments ≡ s ∷ older)
      (chosen : selected tick type_id voice_id v ≡ true) where
    selected_matches : (matches voice_id v.voice_id ≡ true) × (matches type_id v.type_id ≡ true)
    selected_matches = ground arith

    -- `pause` closes the segment that was playing.
    cut-selected : (cut tick v).segments ≡ record s { end_tick = some tick } ∷ older
    cut-selected = ground arith

    resumable-pause :
        (pt : ℕ) → v.released ≡ false → resumable type_id voice_id (pause_voice pt tick v) ≡ true
    resumable-pause pt kept = rw (kept, selected_matches.0, selected_matches.1)

  -- A voice that is stopped plays at no tick.
  pub playing_at-stopped :
      (pt tick : ℕ) (v : Voice F) → v.stopped ≡ true → playing_at pt tick v ≡ false
  unfolding playing_at
  playing_at-stopped pt tick v h = elim (List-cases v.segments) [
    | inl empty ↦ rw (empty, segment) refl
    | inr (s, older, at) ↦ rw (at, segment) (ground arith)
  ]

  -- A voice that `pause` selects, not released and with a timed segment and a buffer, plays at no
  -- tick once it is paused, and `resume` with the same filters leaves it, at the tick of the resume,
  -- at the position that it had at the tick of the pause.
  pub resume-pause :
      (m : TickMixer F) (tick later : ℕ) (type_id voice_id : Option ℕ) (i : ℕ) (v : Voice F)
      (s : Segment F) (older : List (Segment F))
      → get_elem? m.voices i ≡ some v
      → v.segments ≡ s ∷ older
      → selected tick type_id voice_id v ≡ true
      → v.released ≡ false
      → IsTimed (spt m) s
      → 0 < v.duration_samples
      → (held w : Voice F) × (get_elem? (pause m tick type_id voice_id).voices i ≡ some held)
        × ((between : ℕ) → playing_at (spt m) between held ≡ false)
        × (get_elem? (resume fl (pause m tick type_id voice_id) later type_id voice_id).voices i
            ≡ some w)
        × (position_at (spt m) later w ≡ position_at (spt m) tick v)
  unfolding pause resume
  resume-pause m tick later type_id voice_id i v s older found at chosen kept timed filled = (
    pause_voice (spt m) tick v,
    resume_voice fl later (pause_voice (spt m) tick v),
    paused_entry,
    (λ between. playing_at-stopped (spt m) between (pause_voice (spt m) tick v) refl),
    rw get_elem?-resume_loop (
        rw paused_entry
          (rw (resumable-pause tick type_id voice_id v s older at chosen (spt m) kept) refl)),
    position_at-resume_voice (spt m) later (pause_voice (spt m) tick v)
        (record s { end_tick = some tick }) older
        (cut-selected tick type_id voice_id v s older at chosen)
        (record { ticking = timed.ticking; rate_num = timed.rate_num; rate_den = timed.rate_den })
        filled (position_at-le (spt m) tick v filled) (position_at-lt (spt m) tick v filled),
  )
    where
      paused_entry :
          get_elem? (pause_loop (spt m) tick type_id voice_id m.voices).0 i
          ≡ some (pause_voice (spt m) tick v)
      paused_entry = rw get_elem?-pause_loop (rw found (rw chosen refl))
