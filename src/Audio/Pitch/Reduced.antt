-- ===== src/Audio/Pitch/Reduced.antt =====
-- The playback rate of a pitch is a reduced fraction that gives back the clamped frequency.
use Prim.Native.Nat.{◌∣◌}
use mathlib.Core.Logic.{dif_pos, dif_neg}
use mathlib.Core.WellFounded.{Acc}
use native.Mathlib.Decide.{dec_lt}
use mathlib.Core.Path.{subst, ◌≡⟨◌⟩◌, ◌∎}
use native.Mathlib.Nat
use native.Mathlib.Bridge.{le_prop}
use llm_vs_zombies.Base.{
  ℕ, suc, ◌*◌, ◌/◌, ◌%◌, ◌≤◌, ◌<◌, ◌≡◌, false, some, ok, arith, ap, Option-cases, inl, inr, sym,
}
use llm_vs_zombies.Audio.Types.{Floats}
use llm_vs_zombies.Audio.Pitch.{
  gcd, Acc-below, euclid, reduced, clamp_frequency, pitch_rate, frequency_hz,
}

abbrev DividesBoth : ℕ → ℕ → ℕ → Type 0
DividesBoth d a b = (d ∣ a) × (d ∣ b)

euclid-DividesBoth : (b : ℕ) (w : Acc ◌<◌ b) (a : ℕ) → DividesBoth (euclid b w a) a b
unfolding euclid
euclid-DividesBoth b (Acc.intro _ below) a = elim (dec_lt 0 b) [
  | yes h ↦
      let (l, r) = euclid-DividesBoth (a % b) (below (a % b) (omega arith)) b in
      rw (dif_pos (dec_lt 0 b) le_prop h) ((Nat.dvd-mod_iff _ l).0 r, l)
  | no h ↦
      let nil : b ≡ 0 = omega arith in
      rw (dif_neg (dec_lt 0 b) h) (Nat.dvd_refl a, subst (◌∣◌ a) (sym nil) (Nat.dvd-zero a))
]

gcd-DividesBoth : (a b : ℕ) → DividesBoth (gcd a b) a b
unfolding gcd
gcd-DividesBoth a b = euclid-DividesBoth b (Acc-below (suc b) b (omega arith)) a

-- A rate made by dividing out a common divisor gives back the frequency.
scaled_back : (d f base : ℕ) → 0 < base → d ∣ f → d ∣ base → f / d * base / (base / d) ≡ f
scaled_back d f base h df db = rw product (Nat.mul-div_cancel f positive)
  where
    base_eq : base / d * d ≡ base
    base_eq = Nat.div-mul_cancel d db

    f_eq : f / d * d ≡ f
    f_eq = Nat.div-mul_cancel d df

    positive : 0 < base / d
    positive = grind (arith, base_eq)

    product : f / d * base ≡ f * (base / d)
    product =
        f / d * base
        ≡⟨ ap (λ n. f / d * n) (sym base_eq) ⟩ f / d * (base / d * d)
        ≡⟨ omega arith ⟩ f / d * d * (base / d)
        ≡⟨ ap (λ n. n * (base / d)) f_eq ⟩ f * (base / d) ∎

pitch_rate-reduced :
    (fl : Floats) (base : ℕ) (steps : fl.F) (rate : ℕ × ℕ)
    → pitch_rate fl base steps ≡ ok rate
    → fl.eq steps fl.zero ≡ false
    → (f : ℕ) × (fl.pitch_hz base steps ≡ some f)
      × (rate ≡ reduced (clamp_frequency f) base)
      × (0 < base)
unfolding pitch_rate
pitch_rate-reduced fl base steps rate h shifted = elim (Option-cases (fl.pitch_hz base steps)) [
  | inl e ↦ absurd (ground arith)
  | inr (f, e) ↦ (f, e, ground arith, ground arith)
]

frequency_hz-reduced : (f base : ℕ) → 0 < base → frequency_hz (reduced f base) base ≡ f
unfolding frequency_hz
frequency_hz-reduced f base h =
    let (l, r) = gcd-DividesBoth f base in scaled_back (gcd f base) f base h l r

-- A pitch other than zero that is accepted gives a rate whose frequency, at the base that it was made
-- for, is the frequency of the pitch clamped to 100..100000 Hz.
pub frequency_hz-pitch_rate :
    (fl : Floats) (base : ℕ) (steps : fl.F) (rate : ℕ × ℕ)
    → pitch_rate fl base steps ≡ ok rate
    → fl.eq steps fl.zero ≡ false
    → (f : ℕ) × (fl.pitch_hz base steps ≡ some f)
      × (frequency_hz rate base ≡ clamp_frequency f)
      × (100 ≤ frequency_hz rate base)
      × (frequency_hz rate base ≤ 100000)
frequency_hz-pitch_rate fl base steps rate h shifted =
    let (f, e, same, positive) = pitch_rate-reduced fl base steps rate h shifted in
    let back : frequency_hz rate base ≡ clamp_frequency f =
      rw same (frequency_hz-reduced (clamp_frequency f) base positive) in
    (f, e, back, omega (arith, back), omega (arith, back))
