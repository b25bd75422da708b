-- ===== src/Audio/Intervals.antt =====
-- `voice_end_tick` and `union_frames` of virtual_audio.py: how long a voice is heard, and how many
-- frames a set of half-open intervals covers.
use llm_vs_zombies.Base.{
  ℕ, ◌+◌, ◌-◌, Bool, true, false, ◌&&◌, ◌||◌, Option, none, some, List, [], ◌∷◌, ltb, leb,
  if◌then◌else◌, ◌==◌,
}
use Prim.Native.Nat.{min, max}
use llm_vs_zombies.Audio.Types.{Segment, Voice}
use llm_vs_zombies.Audio.Mixer.{TickMixer, segment_end, spt}

-- `min(stops)` of the ticks that are known
abbrev earliest : Option ℕ → Option ℕ → Option ℕ
earliest none natural = natural
earliest (some a) none = some a
earliest (some a) (some b) = some (min a b)

module _ {F : Type 0} where
  -- the start of the oldest segment
  abbrev first_start : List (Segment F) → ℕ
  first_start [] = 0
  first_start (s ∷ []) = s.start_tick
  first_start (_ ∷ s ∷ older) = first_start (s ∷ older)

  -- the loop over the segments: the latest stop, with whether one segment has none
  unfoldable pub stops : ℕ → Voice F → ℕ → List (Segment F) → ℕ × Bool
  unfolding segment_end
  stops per_tick v end [] = (end, false)
  stops per_tick v end (s ∷ older) =
      let rest = stops per_tick v end older in
      elim (earliest s.end_tick (segment_end per_tick v s)) [
        | none ↦ (rest.0, true)
        | some t ↦ (max rest.0 t, rest.1)
      ]

  -- `voice_end_tick`
  unfoldable pub voice_end_tick : TickMixer F → Voice F → Option ℕ → Option ℕ
  unfolding stops
  voice_end_tick m v limit =
      let r = stops (spt m) v (first_start v.segments) v.segments in if r.1 then limit else some r.0

-- `sorted` on pairs of a start and an end
abbrev pub before : ℕ × ℕ → ℕ × ℕ → Bool
before x y = ltb x.0 y.0 || (x.0 == y.0 && leb x.1 y.1)

unfoldable pub place : ℕ × ℕ → List (ℕ × ℕ) → List (ℕ × ℕ)
place x [] = x ∷ []
place x (y ∷ ys) = if before x y then x ∷ y ∷ ys else y ∷ place x ys

unfoldable pub ordered : List (ℕ × ℕ) → List (ℕ × ℕ)
unfolding place
ordered [] = []
ordered (x ∷ xs) = place x (ordered xs)

-- the test `current_end is None or start > current_end`
abbrev pub is_past : ℕ → Option ℕ → Bool
is_past start none = true
is_past start (some end) = ltb end start

-- the loop: the frames that are still to be added
unfoldable pub union_from : Option ℕ → List (ℕ × ℕ) → ℕ
union_from current [] = 0
union_from current ((start, end) ∷ intervals) =
    let skipped = union_from current intervals in
    let after = union_from (some end) intervals in
    if leb end start
    then skipped
    else if is_past start current
    then end - start + after
    else elim current [
      | none ↦ skipped
      | some reached ↦ if ltb reached end then end - reached + after else skipped
    ]

-- `union_frames`
unfoldable pub union_frames : List (ℕ × ℕ) → ℕ
unfolding union_from ordered
union_frames intervals = union_from none (ordered intervals)
