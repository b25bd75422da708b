-- ===== src/Audio/Unobserved.antt =====
-- The observer never feeds back: a run with a `MixerObserver` and a run without one agree.
use llm_vs_zombies.Base.{
  ℕ, zero, suc, ◌+◌, ◌-◌, ◌==◌, ◌≡◌, refl, Bool, true, false, Option, none, some, List, [], ◌∷◌,
  Result, ok, err, ◌>>=◌, Option-cases, inl, inr, on_some, if◌then◌else◌,
}
use llm_vs_zombies.Audio.Types.{AudioError, Floats, Soundscape, FoleyType, PlayIntent}
use llm_vs_zombies.Audio.Device.{Device}
use llm_vs_zombies.Audio.Observer.{MixerObserver, observe_intent}
use llm_vs_zombies.Audio.Foley.{Slot, FoleyMachine, release_finished, cancel_paused}
use llm_vs_zombies.Audio.Entry
use llm_vs_zombies.Audio.Entry.{
  started, play_in_slot, play_free, play_admitted, stop_slot, stop_found, pause_types, game_pause,
  write_slot, mirror_stop, mirror_pause, is_foley_playing, mirror_intent, release_last,
}
use llm_vs_zombies.Audio.Stream.{
  Action, Query, FoleyTrace, perform, perform_all, run_ticks, run_stream,
}

-- Wherever `r` returns a value, `r'` returns it with `erase` applied.
pub record Mirrors {ℓ} {X : Type ℓ} (erase : X → X) (r r' : Result AudioError X) : Type ℓ where
  pub at : (x : X) → r ≡ ok x → r' ≡ ok (erase x)

module _ {ℓ} {X : Type ℓ} (erase : X → X) where
  pub Mirrors-ok : (x : X) → Mirrors erase (ok x) (ok (erase x))
  Mirrors-ok x = record { at = λ y h. cc }

  pub Mirrors-err : (e : AudioError) (r' : Result AudioError X) → Mirrors erase (err e) r'
  Mirrors-err e r' = record { at = λ y h. cc }

  pub Mirrors-if :
      (b : Bool) (r s r' s' : Result AudioError X)
      → Mirrors erase r r'
      → Mirrors erase s s'
      → Mirrors erase (if b then r else s) (if b then r' else s')
  Mirrors-if true r s r' s' h k = h
  Mirrors-if false r s r' s' h k = k

  pub Mirrors-option {κ} :
      {A : Type κ} (o : Option A) (r r' : Result AudioError X) (f f' : A → Result AudioError X)
      → Mirrors erase r r'
      → ((a : A) → Mirrors erase (f a) (f' a))
      → Mirrors erase (on_some o r f) (on_some o r' f')
  unfolding on_some
  Mirrors-option none r r' f f' h k = h
  Mirrors-option (some a) r r' f f' h k = k a

  -- The same first step on both sides.
  pub Mirrors-bind_same {κ} :
      {Y : Type κ} (r : Result AudioError Y) (f f' : Y → Result AudioError X)
      → ((y : Y) → Mirrors erase (f y) (f' y))
      → Mirrors erase (r >>= f) (r >>= f')
  unfolding ◌>>=◌
  Mirrors-bind_same (ok y) f f' k = k y
  Mirrors-bind_same (err e) f f' k = Mirrors-err e (err e)

  pub Mirrors-bind {κ} :
      {Y : Type κ} (erase' : Y → Y) (r r' : Result AudioError Y) (f f' : Y → Result AudioError X)
      → Mirrors erase' r r'
      → ((y : Y) → Mirrors erase (f y) (f' (erase' y)))
      → Mirrors erase (r >>= f) (r' >>= f')
  unfolding ◌>>=◌
  Mirrors-bind erase' (ok y) r' f f' h k = rw (h.at y refl) (k y)
  Mirrors-bind erase' (err e) r' f f' h k = Mirrors-err e (r' >>= f')

-- A trace without what an observer adds to it.
abbrev pub without_observer : {F : Type 0} → FoleyTrace F → FoleyTrace F
without_observer t = record t {
  intents = [];
  counters = record t.counters { mixer_queries = none; voices = none; dropped = none };
}

module _ (fl : Floats) {D : Type 0} where
  open fl use {F}

  abbrev pub unobserved : FoleyMachine F D → FoleyMachine F D
  unobserved m = record m { observer = none }

  abbrev pub unobserved_pair {ℓ} : {A : Type ℓ} → A × FoleyMachine F D → A × FoleyMachine F D
  unobserved_pair p = (p.0, unobserved p.1)

  module _ (dev : Device fl D) (clock : ℕ → ℕ) where
    release_finished-Mirrors :
        (tick : ℕ) (m : FoleyMachine F D)
        → Mirrors unobserved
            (release_finished fl dev tick m)
            (release_finished fl dev tick (unobserved m))
    unfolding release_finished
    release_finished-Mirrors tick m = Mirrors-bind_same _ _ _ _ (λ swept. Mirrors-ok _ _)

    mirror_intent-Mirrors :
        (i : PlayIntent F) (m : FoleyMachine F D)
        → Mirrors unobserved (mirror_intent fl i m) (ok (unobserved m))
    unfolding ◌>>=◌
    mirror_intent-Mirrors i m = elim (Option-cases m.observer) [
      | inl e ↦ rw (e, mirror_intent) (Mirrors-ok _ m)
      | inr (o, e) ↦ rw (e, mirror_intent) (mirrored (observe_intent fl o i))
    ]
      where
        mirrored :
            (r : Result AudioError (MixerObserver F))
            → Mirrors unobserved
                (r >>= λ o. ok (record m { observer = some o }))
                (ok (unobserved m))
        mirrored (ok o) = Mirrors-ok _ _
        mirrored (err e) = Mirrors-err _ e _

    started-Mirrors :
        (tick id : ℕ) (pitch : F) (entry : FoleyType) (variation i : ℕ) (s : Slot)
        (found : Option ℕ) (m : FoleyMachine F D)
        → Mirrors unobserved_pair
            (started fl dev clock tick id pitch entry variation i s found m)
            (started fl dev clock tick id pitch entry variation i s found (unobserved m))
    unfolding started
    started-Mirrors tick id pitch entry variation i s none m = Mirrors-ok _ _
    started-Mirrors tick id pitch entry variation i s (some v) m =
        Mirrors-bind_same _ _ _ _ λ pitched.
          Mirrors-bind_same _ _ _ _ λ leveled. Mirrors-bind_same _ _ _ _ λ running. Mirrors-ok _ _

    play_in_slot-Mirrors :
        (tick id : ℕ) (pitch : F) (entry : FoleyType) (i : ℕ) (s : Slot) (m : FoleyMachine F D)
        → Mirrors unobserved_pair
            (play_in_slot fl dev clock tick id pitch entry i s m)
            (play_in_slot fl dev clock tick id pitch entry i s (unobserved m))
    unfolding play_in_slot
    play_in_slot-Mirrors tick id pitch entry i s m = Mirrors-if _ _ _ _ _ _ (Mirrors-err _ _ _) (
        Mirrors-bind_same _ _ _ _ λ drawn. Mirrors-bind_same _ _ _ _ λ variation.
          Mirrors-bind_same _ _ _ _ λ resource_id. Mirrors-bind_same _ _ _ _ λ rate.
            Mirrors-bind _ unobserved _ _ _ _ (mirror_intent-Mirrors _ _) λ mirrored.
              Mirrors-bind_same _ _ _ _
                λ allocated. started-Mirrors tick id pitch entry variation i s allocated.0 _)

    play_free-Mirrors :
        (tick id : ℕ) (pitch : F) (entry : FoleyType) (m : FoleyMachine F D)
        → Mirrors unobserved_pair
            (play_free fl dev clock tick id pitch entry m)
            (play_free fl dev clock tick id pitch entry (unobserved m))
    unfolding play_free
    play_free-Mirrors tick id pitch entry m = Mirrors-option _ _ _ _ _ _ (Mirrors-ok _ _) λ i.
        Mirrors-option _ _ _ _ _ _ (Mirrors-err _ _ _)
          λ s. play_in_slot-Mirrors tick id pitch entry i s m

    play_admitted-Mirrors :
        (tick id : ℕ) (pitch : F) (entry : FoleyType) (m : FoleyMachine F D)
        → Mirrors unobserved_pair
            (play_admitted fl dev clock tick id pitch entry m)
            (play_admitted fl dev clock tick id pitch entry (unobserved m))
    unfolding play_admitted
    play_admitted-Mirrors tick id pitch entry m =
        Mirrors-if _ _ _ _ _ _
          (Mirrors-option _ _ _ _ _ _ (play_free-Mirrors tick id pitch entry m)
            λ i. Mirrors-option _ _ _ _ _ _ (Mirrors-err _ _ _) λ s. Mirrors-ok _ _)
          (play_free-Mirrors tick id pitch entry m)

    play-Mirrors :
        (tick id : ℕ) (pitch : F) (m : FoleyMachine F D)
        → Mirrors unobserved_pair
            (Entry.play fl dev clock tick id pitch m)
            (Entry.play fl dev clock tick id pitch (unobserved m))
    unfolding Entry.play
    play-Mirrors tick id pitch m = Mirrors-bind_same _ _ _ _ λ entry.
        Mirrors-bind _ unobserved _ _ _ _ (release_finished-Mirrors tick m) λ m'.
          Mirrors-bind_same _ _ _ _ λ slots.
            Mirrors-if _ _ _ _ _ _ (Mirrors-ok _ _) (play_admitted-Mirrors tick id pitch entry m')

    release_last-Mirrors :
        (tick id i : ℕ) (s : Slot) (m : FoleyMachine F D)
        → Mirrors unobserved
            (release_last fl dev clock tick id i s m)
            (release_last fl dev clock tick id i s (unobserved m))
    release_last-Mirrors tick id i s m = elim (Option-cases s.instance_id) [
      | inl e ↦ rw e (Mirrors-err _ _ _)
      | inr (instance_id, e) ↦ rw e (Mirrors-bind_same _ _ _ _ λ d'. Mirrors-ok _ _)
    ]

    stop_slot-Mirrors :
        (tick id i : ℕ) (s : Slot) (m : FoleyMachine F D)
        → Mirrors unobserved
            (stop_slot fl dev clock tick id i s m)
            (stop_slot fl dev clock tick id i s (unobserved m))
    unfolding stop_slot
    stop_slot-Mirrors tick id i s m =
        Mirrors-bind _ unobserved _ _ _ _
          (Mirrors-if _ (s.refcount - 1 == 0) _ _ _ _
            (release_last-Mirrors tick id i (record s { refcount = s.refcount - 1 }) m)
            (Mirrors-ok _ (write_slot fl id i (record s { refcount = s.refcount - 1 }) m)))
          λ m'. Mirrors-ok _ _

    stop_found-Mirrors :
        (tick id : ℕ) (m : FoleyMachine F D)
        → Mirrors unobserved
            (stop_found fl dev clock tick id m)
            (stop_found fl dev clock tick id (unobserved m))
    unfolding stop_found
    stop_found-Mirrors tick id m = Mirrors-bind_same _ _ _ _ λ slots.
        Mirrors-option _ _ _ _ _ _ (Mirrors-ok _ _)
          λ i. Mirrors-option _ _ _ _ _ _ (Mirrors-err _ _ _) λ s. stop_slot-Mirrors tick id i s m

    stop-Mirrors :
        (tick id : ℕ) (m : FoleyMachine F D)
        → Mirrors unobserved
            (Entry.stop fl dev clock tick id m)
            (Entry.stop fl dev clock tick id (unobserved m))
    unfolding Entry.stop
    stop-Mirrors tick id m =
        Mirrors-bind _ unobserved _ _ _ _ (release_finished-Mirrors tick m)
          λ m'. stop_found-Mirrors tick id (mirror_stop fl tick id m')

    pause_types-Mirrors :
        (tick : ℕ) (entering : Bool) (m : FoleyMachine F D)
        → Mirrors unobserved
            (pause_types fl dev clock tick entering m)
            (pause_types fl dev clock tick entering (unobserved m))
    unfolding pause_types
    pause_types-Mirrors tick entering m =
        Mirrors-bind _ unobserved _ _ _ _ (Mirrors-bind_same _ _ _ _ λ swept. Mirrors-ok _ _)
          λ m'. Mirrors-ok _ _

    game_pause-Mirrors :
        (tick : ℕ) (entering : Bool) (m : FoleyMachine F D)
        → Mirrors unobserved
            (game_pause fl dev clock tick entering m)
            (game_pause fl dev clock tick entering (unobserved m))
    unfolding game_pause
    game_pause-Mirrors tick entering m =
        Mirrors-bind _ unobserved _ _ _ _ (release_finished-Mirrors tick m)
          λ m'. pause_types-Mirrors tick entering (mirror_pause fl tick entering m')

    cancel_paused-Mirrors :
        (tick : ℕ) (m : FoleyMachine F D)
        → Mirrors unobserved
            (cancel_paused fl dev tick m)
            (cancel_paused fl dev tick (unobserved m))
    unfolding cancel_paused
    cancel_paused-Mirrors tick m =
        Mirrors-bind _ unobserved _ _ _ _ (release_finished-Mirrors tick m)
          λ m'. Mirrors-bind_same _ _ _ _ λ swept. Mirrors-ok _ _

    is_foley_playing-Mirrors :
        (tick id : ℕ) (m : FoleyMachine F D)
        → Mirrors unobserved_pair
            (is_foley_playing fl dev clock tick id m)
            (is_foley_playing fl dev clock tick id (unobserved m))
    unfolding is_foley_playing
    is_foley_playing-Mirrors tick id m =
        Mirrors-bind _ unobserved _ _ _ _ (release_finished-Mirrors tick m)
          λ m'. Mirrors-bind_same _ _ _ _ λ slots. Mirrors-ok _ _

    perform-Mirrors :
        (tick : ℕ) (a : Action F) (s : List Query × FoleyMachine F D)
        → Mirrors unobserved_pair
            (perform fl dev clock tick a s)
            (perform fl dev clock tick a (unobserved_pair s))
    unfolding perform
    perform-Mirrors tick (Action.play t id pitch) s =
        Mirrors-bind _ unobserved_pair _ _ _ _ (play-Mirrors tick id pitch s.1) λ r. Mirrors-ok _ _
    perform-Mirrors tick (Action.stop t id) s =
        Mirrors-bind _ unobserved _ _ _ _ (stop-Mirrors tick id s.1) λ r. Mirrors-ok _ _
    perform-Mirrors tick (Action.pause t entering) s =
        Mirrors-bind _ unobserved _ _ _ _ (game_pause-Mirrors tick entering s.1) λ r. Mirrors-ok _ _
    perform-Mirrors tick (Action.is_playing t id) s =
        Mirrors-bind _ unobserved_pair _ _ _ _ (is_foley_playing-Mirrors tick id s.1)
          λ r. Mirrors-ok _ _
    perform-Mirrors tick (Action.cancel_paused t) s =
        Mirrors-bind _ unobserved _ _ _ _ (cancel_paused-Mirrors tick s.1) λ r. Mirrors-ok _ _
    perform-Mirrors tick (Action.other t) s = Mirrors-err _ _ _

    perform_all-Mirrors :
        (tick : ℕ) (actions : List (Action F)) (s : List Query × FoleyMachine F D)
        → Mirrors unobserved_pair
            (perform_all fl dev clock tick actions s)
            (perform_all fl dev clock tick actions (unobserved_pair s))
    unfolding perform_all
    perform_all-Mirrors tick [] s = Mirrors-ok _ _
    perform_all-Mirrors tick (a ∷ actions) s =
        Mirrors-bind _ unobserved_pair _ _ _ _ (perform-Mirrors tick a s)
          (perform_all-Mirrors tick actions)

    run_ticks-Mirrors :
        (n tick : ℕ) (actions : List (Action F)) (s : List Query × FoleyMachine F D)
        → Mirrors
            (λ r. (r.0, unobserved_pair r.1))
            (run_ticks fl dev clock n tick actions s)
            (run_ticks fl dev clock n tick actions (unobserved_pair s))
    unfolding run_ticks
    run_ticks-Mirrors zero tick actions s = Mirrors-ok _ _
    run_ticks-Mirrors (suc n) tick actions s =
        Mirrors-bind _ unobserved_pair _ _ _ _ (perform_all-Mirrors tick _ s) λ s'.
          Mirrors-bind _ (λ r. (r.0, unobserved_pair r.1)) _ _ _ _
            (run_ticks-Mirrors n (tick + 1) actions s') λ rest. Mirrors-ok _ _

    -- When `run_stream` with an observer returns a trace, then without the observer it returns the
    -- same trace less what is the observer's own: no intents, and no counts of its mixer's queries,
    -- its voices and its dropped intents. The device keeps a state of its own, which is not the mixer
    -- of the observer; the device, the soundscape, the actions and the seed are arbitrary.
    pub run_stream_unobserved :
        (soundscape : Soundscape F) (actions : List (Action F)) (ticks seed : ℕ) (d : D)
        (o : MixerObserver F) (trace : FoleyTrace F)
        → run_stream fl dev clock soundscape actions ticks d (some o) seed ≡ ok trace
        → run_stream fl dev clock soundscape actions ticks d none seed ≡ ok (without_observer trace)
    unfolding run_stream
    run_stream_unobserved soundscape actions ticks seed d o trace =
        (Mirrors-bind_same without_observer _ _ _ λ _. Mirrors-bind_same without_observer _ _ _ λ _.
            Mirrors-bind without_observer (λ r. (r.0, unobserved_pair r.1)) _ _ _ _
              (run_ticks-Mirrors ticks 0 actions _) λ r. Mirrors-ok without_observer _).at
          trace
