-- ===== src/Audio/Checked.antt =====
-- The `__post_init__` checks of `SoundResource`, `FoleyType` and `Soundscape` of virtual_audio.py,
-- without those of Python's types; a type's `pitch_range` is not kept.
use llm_vs_zombies.Base.{
  ℕ, zero, suc, ◌*◌, ◌%◌, ◌≤◌, ◌≡◌, refl, ◌==◌, negsuc, pos, ltb_ℤ, Bool, true, false, ◌||◌, not,
  Option, none, some, List, [], ◌∷◌, str_eq, Result, ok, ◌>>◌, raise_if, length, ltb, Dict, lookup,
  All, is_some, if◌then◌else◌, arith, >>=-eq-ok,
}
use native.Mathlib.Nat.{div-add-mod'}
use llm_vs_zombies.Audio.Types.{
  AudioError, bad_integer, bad_number, bad_text, bad_kind, bad_volume, bad_resources,
  unknown_resource, Floats, SoundResource, FoleyType, Soundscape, samples_per_tick,
}

abbrev Checks : Type 0
Checks = Result AudioError (Unit {0})

-- the source kind: a tone of a positive frequency, or a file with a path
abbrev check_source : (fl : Floats) → SoundResource fl.F → Checks
check_source fl s =
    if str_eq s.source_kind "tone"
    then (raise_if (not (fl.is_finite s.frequency_hz)) bad_number
        >> raise_if (not (fl.lt fl.zero s.frequency_hz)) bad_number)
    else raise_if (elim s.path [ none ↦ true | some p ↦ str_eq p "" ]) bad_text

-- `SoundResource.__post_init__`
unfoldable pub check_sound : (fl : Floats) → SoundResource fl.F → Checks
check_sound fl s = do
  raise_if (str_eq s.name "") bad_text
  raise_if (s.duration_samples == 0) bad_integer
  raise_if (not (str_eq s.source_kind "tone" || str_eq s.source_kind "file")) bad_kind
  check_source fl s
  raise_if (not (fl.is_finite s.base_volume)) bad_number
  raise_if (fl.lt s.base_volume fl.zero || fl.lt fl.one s.base_volume) bad_volume
  raise_if (ltb_ℤ s.pan (negsuc 9999) || ltb_ℤ (pos 10000) s.pan) bad_integer

-- `FoleyType.__post_init__`
unfoldable pub check_entry : FoleyType → Checks
check_entry e = raise_if (ltb 10 (length e.resources)) bad_resources

raise_if-passed : (b : Bool) (e : AudioError) {u : Unit {0}} → raise_if b e ≡ ok u → b ≡ false
raise_if-passed true e h = cc
raise_if-passed false e h = refl

positive_factor : (n t a : ℕ) → n * t ≡ a → (a == 0) ≡ false → 1 ≤ n
positive_factor zero t a h e = absurd (ground (arith, h, e))
positive_factor (suc n) t a h e = omega arith

module _ {F : Type 0} where
  unfoldable pub check_sound_keys : Dict (SoundResource F) → Checks
  check_sound_keys [] = ok tt
  check_sound_keys ((k, s) ∷ sounds) =
      raise_if (not (k == s.id)) bad_integer >> check_sound_keys sounds

  unfoldable pub check_variations : Dict (SoundResource F) → List (Option ℕ) → Checks
  check_variations sounds [] = ok tt
  check_variations sounds (none ∷ resources) = check_variations sounds resources
  check_variations sounds (some r ∷ resources) =
      raise_if (not (is_some (lookup r sounds))) unknown_resource
      >> check_variations sounds resources

  unfoldable pub check_types : Dict (SoundResource F) → Dict FoleyType → Checks
  unfolding check_variations
  check_types sounds [] = ok tt
  check_types sounds ((k, e) ∷ types) = do
    raise_if (not (k == e.type_id)) bad_integer
    check_variations sounds e.resources
    check_types sounds types

  -- `Soundscape.__post_init__`
  unfoldable pub check_soundscape : Soundscape F → Checks
  unfolding check_sound_keys check_types
  check_soundscape s = do
    raise_if (s.sample_rate == 0) bad_integer
    raise_if (s.ticks_per_second == 0) bad_integer
    raise_if (not (s.sample_rate % s.ticks_per_second == 0)) bad_integer
    raise_if (elim s.sounds [ [] ↦ true | _ ∷ _ ↦ false ]) bad_resources
    check_sound_keys s.sounds
    check_types s.sounds s.types

  -- a variation that names a sound of the table
  abbrev pub IsKnown : Dict (SoundResource F) → Option ℕ → Type 0
  IsKnown sounds none = Unit
  IsKnown sounds (some r) = is_some (lookup r sounds) ≡ true

  check_variations-IsKnown :
      (sounds : Dict (SoundResource F)) (resources : List (Option ℕ))
      → check_variations sounds resources ≡ ok tt
      → All (IsKnown sounds) resources
  unfolding check_variations
  check_variations-IsKnown sounds [] h = tt
  check_variations-IsKnown sounds (none ∷ resources) h =
      (tt, check_variations-IsKnown sounds resources h)
  check_variations-IsKnown sounds (some r ∷ resources) h =
      let (u, e, rest) =
        >>=-eq-ok (raise_if (not (is_some (lookup r sounds))) unknown_resource) _ h in
      (ground (arith, e), check_variations-IsKnown sounds resources rest)

  check_types-IsKnown :
      (sounds : Dict (SoundResource F)) (types : Dict FoleyType)
      → check_types sounds types ≡ ok tt
      → All (λ e. All (IsKnown sounds) (e.1).resources) types
  unfolding check_types
  check_types-IsKnown sounds [] h = tt
  check_types-IsKnown sounds ((k, e) ∷ types) h =
      let (u, first, h1) = >>=-eq-ok (raise_if (not (k == e.type_id)) bad_integer) _ h in
      let (v, known, rest) = >>=-eq-ok (check_variations sounds e.resources) _ h1 in
      (check_variations-IsKnown sounds e.resources known, check_types-IsKnown sounds types rest)

  -- A soundscape that passes its checks has at least one sample to a tick, whole ticks to a second,
  -- and a sound in its table for every variation that a type names.
  pub check_soundscape-IsKnown :
      (s : Soundscape F)
      → check_soundscape s ≡ ok tt
      → (1 ≤ samples_per_tick s)
        × (samples_per_tick s * s.ticks_per_second ≡ s.sample_rate)
        × All (λ e. All (IsKnown s.sounds) (e.1).resources) s.types
  unfolding check_soundscape
  check_soundscape-IsKnown s h =
      let (_, rate, h1) = >>=-eq-ok (raise_if (s.sample_rate == 0) bad_integer) _ h in
      let (_, ticks, h2) = >>=-eq-ok (raise_if (s.ticks_per_second == 0) bad_integer) _ h1 in
      let (_, whole, h3) =
        >>=-eq-ok (raise_if (not (s.sample_rate % s.ticks_per_second == 0)) bad_integer) _ h2 in
      let (_, _, h4) = >>=-eq-ok _ _ h3 in
      let (_, _, types) = >>=-eq-ok _ _ h4 in
      let no_rest : s.sample_rate % s.ticks_per_second ≡ 0 =
        ground (arith, raise_if-passed _ _ whole) in
      let exact : samples_per_tick s * s.ticks_per_second ≡ s.sample_rate =
        omega (arith, div-add-mod' s.sample_rate s.ticks_per_second, no_rest) in
      (
        positive_factor _ _ s.sample_rate exact (raise_if-passed _ _ rate),
        exact,
        check_types-IsKnown s.sounds s.types types,
      )
