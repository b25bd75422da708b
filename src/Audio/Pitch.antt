-- ===== src/Audio/Pitch.antt =====
-- `pitch_rate` and `frequency_hz` of virtual_audio.py, with the `math.gcd` that they call.
pub mod Reduced
use Prim.Native.Nat.{min, max}
use mathlib.Core.Logic.{dite}
use mathlib.Core.WellFounded
use mathlib.Core.WellFounded.{Acc}
use native.Mathlib.Decide.{dec_lt}
use llm_vs_zombies.Base.{
  ℕ, zero, suc, ◌*◌, ◌/◌, ◌%◌, ◌≤◌, ◌<◌, ◌≡◌, refl, Bool, true, false, Option, none, some, Result,
  ok, err, ◌>>=◌, arith, if◌then◌else◌, ◌==◌, not,
}
use llm_vs_zombies.Audio.Types.{AudioError, bad_integer, bad_number, overflow, Floats}

Acc-below : (k n : ℕ) → n < k → Acc ◌<◌ n
Acc-below zero n h = elim h [ ]
Acc-below (suc k) n h = Acc.intro n (λ m hm. Acc-below k m (omega arith))

-- one division at a time, until nothing remains
euclid : (divisor : ℕ) → Acc ◌<◌ divisor → ℕ → ℕ
euclid divisor (Acc.intro _ below) dividend =
    dite (dec_lt 0 divisor)
      (λ some_left. euclid (dividend % divisor) (below (dividend % divisor) (omega arith)) divisor)
      (λ none_left. dividend)

-- `math.gcd`, by Euclid's rule
unfoldable pub gcd : ℕ → ℕ → ℕ
unfolding euclid dec_lt Acc-below
gcd a b = euclid b (Acc-below (suc b) b (omega arith)) a

-- `min(max(frequency, MIN_FREQUENCY), MAX_FREQUENCY)`
abbrev pub clamp_frequency : ℕ → ℕ
clamp_frequency f = min (max f 100) 100000

abbrev pub reduced : ℕ → ℕ → ℕ × ℕ
reduced frequency base = (frequency / gcd frequency base, base / gcd frequency base)

module _ (fl : Floats) where
  open fl use {F, zero as float_zero, eq, is_finite, pitch_hz}

  -- `pitch_rate`
  unfoldable pub pitch_rate : ℕ → F → Result AudioError (ℕ × ℕ)
  unfolding gcd
  pitch_rate base steps =
      if base == 0
      then err bad_integer
      else if not (is_finite steps)
      then err bad_number
      else if eq steps float_zero
      then ok (1, 1)
      else elim (pitch_hz base steps) [
        | none ↦ err overflow
        | some f ↦ ok (reduced (clamp_frequency f) base)
      ]

-- `frequency_hz`
unfoldable pub frequency_hz : ℕ × ℕ → ℕ → ℕ
frequency_hz rate base = rate.0 * base / rate.1
