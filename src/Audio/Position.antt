-- ===== src/Audio/Position.antt =====
-- Where a voice stands: the play cursor, the natural end, and what keeps the cursor.
use llm_vs_zombies.Base.{
  List-cases, Bool-cases, inl, inr, ℕ, ◌-◌, ◌*◌, ◌/◌, ◌%◌, ◌≤◌, ◌<◌, ◌≡◌, true, false, ◌↔◌, List,
  ◌∷◌, arith, ltb, if◌then◌else◌,
}
use Prim.Native.Nat.{min}
use native.Mathlib.Nat.{mod-eq_of_lt}
use llm_vs_zombies.Audio.Types.{Segment, Voice, segment, is_open}
use llm_vs_zombies.Audio.Mixer.{ceil_div, cursor, segment_end, before_end, position_at, playing_at}

lt-ceil_div : (t a b : ℕ) → 0 < b → (t < ceil_div a b) ↔ (t * b < a)
lt-ceil_div t a b h = (λ p. grind arith, λ p. grind arith)

div-lt : (a b c : ℕ) → 0 < b → (a / b < c) ↔ (a < c * b)
div-lt a b c h = (λ p. grind arith, λ p. grind arith)

ltb_of_iff : (a b c d : ℕ) → (a < b) ↔ (c < d) → ltb a b ≡ ltb c d
ltb_of_iff a b c d h = ground (arith, h)

-- The comparison that both sides of the natural end come down to: elapsed source samples, scaled by
-- the rate, against the samples that remain.
ends_iff :
    (t r pt num den : ℕ)
    → 0 < pt
    → 0 < num
    → 0 < den
    → ltb t (ceil_div (r * den) (num * pt)) ≡ ltb (t * pt * num / den) r
ends_iff t r pt num den hp hn hd =
    ltb_of_iff t (ceil_div (r * den) (num * pt)) (t * pt * num / den) r (
      λ p.
          (div-lt (t * pt * num) den r hd).1
            (rw (← same) ((lt-ceil_div t (r * den) (num * pt) pos).0 p)),
      λ p.
          (lt-ceil_div t (r * den) (num * pt) pos).1
            (rw same ((div-lt (t * pt * num) den r hd).0 p)),
    )
  where
    pos : 0 < num * pt
    pos = grind arith

    same : t * (num * pt) ≡ t * pt * num
    same = omega arith

-- What playback rests on: a positive rate and at least one sample to a tick.
pub record IsTimed {F : Type 0} (pt : ℕ) (s : Segment F) : Type 0 where
  pub ticking : 0 < pt
  pub rate_num : 0 < s.rate_num
  pub rate_den : 0 < s.rate_den

module _ {F : Type 0} (pt tick : ℕ) (v : Voice F) (s : Segment F) where
  -- The natural end is exact: the tick lies before it just where the cursor has not passed the buffer.
  pub before_end_iff :
      v.loop ≡ false
      → s.start_tick ≤ tick
      → IsTimed pt s
      → before_end tick (segment_end pt v s) ≡ ltb (cursor pt s tick) v.duration_samples
  unfolding segment_end cursor
  before_end_iff loop started timed =
      let r : ℕ = v.duration_samples - s.offset_samples in
      ground (
        arith,
        ends_iff (tick - s.start_tick) (v.duration_samples - s.offset_samples) pt s.rate_num
            s.rate_den timed.ticking timed.rate_num timed.rate_den,
      )

module _ {F : Type 0} (pt tick : ℕ) (v : Voice F) (s : Segment F) (older : List (Segment F)) where
  -- From its segment's start on, an open voice that does not loop, with a positive rate and a
  -- sample to a tick, plays exactly while its cursor has not passed the end of the buffer.
  pub playing_at_iff :
      v.segments ≡ s ∷ older
      → is_open v ≡ true
      → v.loop ≡ false
      → s.start_tick ≤ tick
      → IsTimed pt s
      → playing_at pt tick v ≡ ltb (cursor pt s tick) v.duration_samples
  unfolding playing_at
  playing_at_iff at opened loop started timed =
      ground (arith, before_end_iff pt tick v s loop started timed)

  -- The position of an open voice is its cursor: held at the end of the buffer, or, in a loop,
  -- taken round it.
  pub position_at-eq :
      v.segments ≡ s ∷ older
      → is_open v ≡ true
      → s.start_tick ≤ tick
      → IsTimed pt s
      → position_at pt tick v ≡ (
          if v.loop
          then cursor pt s tick % v.duration_samples
          else min (cursor pt s tick) v.duration_samples)
  unfolding position_at
  position_at-eq at opened started timed = elim (Bool-cases v.loop) [
    | inl looping ↦ ground arith
    | inr once ↦ ground (arith, before_end_iff pt tick v s once started timed)
  ]

-- At the first tick of a segment the cursor is the segment's offset.
pub cursor-start :
    {F : Type 0} (pt tick : ℕ) (s : Segment F)
    → s.start_tick ≡ tick
    → 0 < s.rate_den
    → cursor pt s tick ≡ s.offset_samples
unfolding cursor
cursor-start pt tick s e den = rw none_elapsed (rw product (rw quotient (omega arith)))
  where
    none_elapsed : tick - s.start_tick ≡ 0
    none_elapsed = omega arith

    product : 0 * pt * s.rate_num ≡ 0
    product = omega arith

    quotient : 0 / s.rate_den ≡ 0
    quotient = grind arith

module _ {F : Type 0} (pt tick : ℕ) (v : Voice F) (s : Segment F) (older : List (Segment F)) where
  -- The position at the first tick of a segment is the segment's offset, if that lies in the buffer.
  pub position_at-start :
      v.segments ≡ s ∷ older
      → is_open v ≡ true
      → s.start_tick ≡ tick
      → IsTimed pt s
      → s.offset_samples ≤ v.duration_samples
      → (v.loop ≡ true → s.offset_samples < v.duration_samples)
      → position_at pt tick v ≡ s.offset_samples
  position_at-start at opened e timed bound wrapped =
      rw (position_at-eq pt tick v s older at opened (omega arith) timed) (
        rw (cursor-start pt tick s e timed.rate_den) (elim (Bool-cases v.loop) [
          | inl looping ↦ rw looping (mod-eq_of_lt (wrapped looping))
          | inr once ↦ rw once (omega arith)
        ]))

-- No query answers a position past the end of the buffer.
pub position_at-le :
    {F : Type 0} (pt tick : ℕ) (v : Voice F)
    → 0 < v.duration_samples
    → position_at pt tick v ≤ v.duration_samples
unfolding position_at
position_at-le pt tick v h = elim (List-cases v.segments) [
  | inl empty ↦ rw (empty, segment) (omega arith)
  | inr (s, older, at) ↦ rw (at, segment) (ground arith)
]

-- A looping voice stands strictly inside its buffer.
pub position_at-lt :
    {F : Type 0} (pt tick : ℕ) (v : Voice F)
    → 0 < v.duration_samples
    → v.loop ≡ true
    → position_at pt tick v < v.duration_samples
unfolding position_at
position_at-lt pt tick v h looping = elim (List-cases v.segments) [
  | inl empty ↦ rw (empty, segment) (omega arith)
  | inr (s, older, at) ↦ rw (at, segment) (ground arith)
]
