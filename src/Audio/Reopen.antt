-- ===== src/Audio/Reopen.antt =====
-- `set_rate`, `set_volume` and `set_pan` change a voice without moving its play cursor.
use mathlib.Core.Path.{subst}
use llm_vs_zombies.Base.{
  sym, ℕ, ◌≤◌, ◌<◌, ◌≡◌, refl, ◌⊎◌, inl, inr, true, Option, none, some, List, ◌∷◌, arith, get_elem?,
  get_elem?-set_self, get_elem?-lt, ok, >>=-eq-ok, ok-injective, ℤ,
}
use llm_vs_zombies.Audio.Types.{Floats, Segment, Voice, is_open}
use llm_vs_zombies.Audio.Mixer.{TickMixer, spt, cursor, position_at, write_voice, rate_frequency}
use llm_vs_zombies.Audio.Writes.{
  positive, set_rate_at, reparameterise_at, number, pan_integer, segment_of, reopen, set_rate,
  reparameterise, set_volume, set_pan, clamp_gain,
}
use llm_vs_zombies.Audio.Position.{IsTimed, position_at-eq, cursor-start}

module _ (fl : Floats) (pt tick : ℕ) (v : Voice fl.F) (s next : Segment fl.F)
    (older : List (Segment fl.F)) where
  -- A segment that opens at the cursor of the one it replaces keeps the position.
  pub position_at-reopen :
      v.segments ≡ s ∷ older
      → is_open v ≡ true
      → s.start_tick ≤ tick
      → IsTimed pt s
      → IsTimed pt next
      → next.start_tick ≡ tick
      → next.offset_samples ≡ cursor pt s tick
      → next.end_tick ≡ none
      → (w : Voice fl.F) → w.segments ≡ (reopen fl tick next v).segments
      → w.loop ≡ v.loop
      → w.duration_samples ≡ v.duration_samples
      → w.stopped ≡ v.stopped
      → w.paused ≡ v.paused
      → position_at pt tick w ≡ position_at pt tick v
  position_at-reopen at opened started timed timed' start offset live w segs loop dur stopped
        paused =
      rw (position_at-eq pt tick w next _ segs (ground arith) (omega arith) timed') (
        rw (cursor-start pt tick next start timed'.rate_den)
          (rw (offset, loop, dur) (sym (position_at-eq pt tick v s older at opened started timed))))

module _ (fl : Floats) where
  open fl use {F}

  segment_of-eq :
      (tick : ℕ) (v : Voice F) (s : Segment F) (older : List (Segment F)) (r : Option (Segment F))
      → v.segments ≡ s ∷ older
      → segment_of fl tick v ≡ ok r
      → (r ≡ none) ⊎ ((r ≡ some s) × (is_open v ≡ true) × (s.start_tick ≤ tick))
  unfolding segment_of
  segment_of-eq tick v s older none at h = inl refl
  segment_of-eq tick v s older (some r) at h = inr (ground arith)

  positive-eq : (n : ℕ) {k : ℕ} → positive fl n ≡ ok k → (k ≡ n) × (0 < k)
  unfolding positive
  positive-eq n h = ground arith

  module _ (m : TickMixer F) (tick : ℕ) (v : Voice F) (s : Segment F) (older : List (Segment F))
      (found : get_elem? m.voices v.voice_id ≡ some v) (at : v.segments ≡ s ∷ older)
      (timed : IsTimed (spt m) s) where
    -- What an operation on one voice leaves at its place, seen through `current_position`.
    abbrev pub KeepsPosition : TickMixer F → Type 0
    KeepsPosition m' =
        (w : Voice F) × (get_elem? m'.voices v.voice_id ≡ some w)
        × (position_at (spt m') tick w ≡ position_at (spt m) tick v)

    -- the write of a reopened voice: the part that the three operations share
    write-KeepsPosition :
        (next : Segment F) (frequency : ℕ)
        → is_open v ≡ true
        → s.start_tick ≤ tick
        → IsTimed (spt m) next
        → next.start_tick ≡ tick
        → next.offset_samples ≡ cursor (spt m) s tick
        → next.end_tick ≡ none
        → KeepsPosition
            (write_voice m (record (reopen fl tick next v) { frequency_hz = frequency }))
    write-KeepsPosition next frequency opened started timed' start offset live =
        let w = record (reopen fl tick next v) { frequency_hz = frequency } in
        (
          w,
          get_elem?-set_self m.voices v.voice_id w (get_elem?-lt m.voices v.voice_id found),
          position_at-reopen fl (spt m) tick v s next older at opened started timed timed' start
              offset live w refl refl refl refl refl,
        )

    set_rate_at-KeepsPosition :
        (rate : ℕ × ℕ) (m' : TickMixer F) (r : Option (Segment F))
        → (r ≡ none) ⊎ ((r ≡ some s) × (is_open v ≡ true) × (s.start_tick ≤ tick))
        → set_rate_at fl m tick v rate r ≡ ok m'
        → KeepsPosition m'
    set_rate_at-KeepsPosition rate m' r (inl e) h =
        subst KeepsPosition (ok-injective (rw (e, set_rate_at) at h)) (v, found, refl)
    set_rate_at-KeepsPosition rate m' r (inr (e, opened, started)) h =
        let (num, en, h₁) = >>=-eq-ok (positive fl rate.0) _ (rw e at h) in
        let (den, ed, h₂) = >>=-eq-ok (positive fl rate.1) _ h₁ in
        subst KeepsPosition (ok-injective h₂) (
          write-KeepsPosition _ (rate_frequency num den) opened started
            (record {
              ticking = timed.ticking;
              rate_num = (positive-eq rate.0 en).1;
              rate_den = (positive-eq rate.1 ed).1;
            })
            refl refl refl)

    -- A `set_rate` that is accepted leaves the voice in its place of the table, and its position at
    -- that tick is the one before the call, where the segment is timed by a positive rate.
    pub set_rate-KeepsPosition :
        (rate : ℕ × ℕ) (m' : TickMixer F) → set_rate fl m tick v rate ≡ ok m' → KeepsPosition m'
    unfolding set_rate
    set_rate-KeepsPosition rate m' h =
        let (r, e, g) = >>=-eq-ok (segment_of fl tick v) _ h in
        set_rate_at-KeepsPosition rate m' r (segment_of-eq tick v s older r at e) g

    -- what `_reparameterise` may change: neither the timing of a segment nor its rate
    abbrev KeepsTiming : (Segment F → Segment F) → Type 0
    KeepsTiming change =
        (t : Segment F)
        → ((change t).start_tick ≡ t.start_tick)
          × ((change t).offset_samples ≡ t.offset_samples)
          × ((change t).end_tick ≡ t.end_tick)
          × ((change t).rate_num ≡ t.rate_num)
          × ((change t).rate_den ≡ t.rate_den)

    reparameterise_at-KeepsPosition :
        (change : Segment F → Segment F) (r : Option (Segment F))
        → KeepsTiming change
        → (r ≡ none) ⊎ ((r ≡ some s) × (is_open v ≡ true) × (s.start_tick ≤ tick))
        → KeepsPosition (reparameterise_at fl m tick v change r)
    reparameterise_at-KeepsPosition change r same (inl e) =
        rw (e, reparameterise_at) (v, found, refl)
    reparameterise_at-KeepsPosition change r same (inr (e, opened, started)) =
        let next = record s {
          start_tick = tick;
          offset_samples = cursor (spt m) s tick;
          end_tick = none;
        } in
        let (start, offset, live, num, den) = same next in
        rw (e, reparameterise_at)
          (write-KeepsPosition (change next) v.frequency_hz opened started
            (record {
              ticking = timed.ticking;
              rate_num = rw num timed.rate_num;
              rate_den = rw den timed.rate_den;
            })
            start offset live)

    reparameterise-KeepsPosition :
        (change : Segment F → Segment F) (m' : TickMixer F)
        → KeepsTiming change
        → reparameterise fl m tick v change ≡ ok m'
        → KeepsPosition m'
    unfolding reparameterise
    reparameterise-KeepsPosition change m' same h =
        let (r, e, g) = >>=-eq-ok (segment_of fl tick v) _ h in
        subst KeepsPosition (ok-injective g)
          (reparameterise_at-KeepsPosition change r same (segment_of-eq tick v s older r at e))

    -- Changing the volume does not move the play cursor.
    pub set_volume-KeepsPosition :
        (volume : F) (m' : TickMixer F) → set_volume fl m tick v volume ≡ ok m' → KeepsPosition m'
    unfolding set_volume
    set_volume-KeepsPosition volume m' h =
        let (level, e, g) = >>=-eq-ok (number fl volume) _ h in
        reparameterise-KeepsPosition (λ t. record t { volume = clamp_gain fl level }) m'
          (λ t. (refl, refl, refl, refl, refl)) g

    -- Changing the pan does not move the play cursor.
    pub set_pan-KeepsPosition :
        (pan : ℤ) (m' : TickMixer F) → set_pan fl m tick v pan ≡ ok m' → KeepsPosition m'
    unfolding set_pan
    set_pan-KeepsPosition pan m' h =
        let (shift, e, g) = >>=-eq-ok (pan_integer fl pan) _ h in
        reparameterise-KeepsPosition (λ t. record t { pan = shift }) m'
          (λ t. (refl, refl, refl, refl, refl)) g
