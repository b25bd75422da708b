-- ===== src/Audio/Stream.antt =====
-- `run_stream`, `FoleyMachine.snapshot` and `compare_traces` of virtual_audio.py. Dictionaries of a
-- frame keep the order of the machine's tables, which comparison does not see.
use llm_vs_zombies.Base.{
  ℕ, zero, suc, ◌+◌, ◌==◌, ℤ, Bool, Option, List, [], ◌∷◌, ◌++◌, map, Result, ok, err, ◌>>=◌, ◌>>◌,
  raise_if, leb, Dict, any, keep, length, String, none, some,
}
use llm_vs_zombies.Audio.Types.{
  AudioError, outside_ticks, unknown_action, bad_integer, Floats, Soundscape,
}
use llm_vs_zombies.Audio.Device.{Device}
use llm_vs_zombies.Audio.Mixer.{Counters}
use llm_vs_zombies.Audio.Observer.{MixerObserver, AudioEvent}
use llm_vs_zombies.Audio.Foley.{Slot, FoleyMachine, Outcome, is_held, new_machine}
use llm_vs_zombies.Audio.Foley
use llm_vs_zombies.Audio.Entry
use llm_vs_zombies.Audio.Entry.{game_pause, is_foley_playing}

-- the tuples of an action sequence; `other` is a tuple of an unknown kind
pub data Action (F : Type 0) : Type 0 where
  play : (tick type_id : ℕ) (pitch : F) → Action F
  stop : (tick type_id : ℕ) → Action F
  pause : (tick : ℕ) (entering : Bool) → Action F
  is_playing : (tick type_id : ℕ) → Action F
  cancel_paused : (tick : ℕ) → Action F
  other : (tick : ℕ) → Action F

-- `Slot.signature`
pub record Signature : Type 0 where
  pub refcount : ℕ
  pub paused : Bool
  pub start_count : ℕ
  pub pause_offset : ℕ

pub record Frame : Type 0 where
  pub tick : ℕ
  pub app_update_count : ℕ
  pub rng_draws : ℕ
  pub slots : Dict (List Signature)
  pub last_variation : Dict ℤ
  pub playing : Dict Bool

pub record Query : Type 0 where
  pub tick : ℕ
  pub type_id : ℕ
  pub result : Bool

-- the `counters` of a trace; a key that the source leaves out is `none`
pub record TraceCounters : Type 0 where
  pub rng_draws : ℕ
  pub outcomes : ℕ
  pub mixer_queries : Option Counters
  pub voices : Option ℕ
  pub dropped : Option ℕ
  pub device_counters : Option (List (String × ℕ))

-- `FoleyTrace`; an intent is the event itself, and not its JSON form
pub record FoleyTrace (F : Type 0) : Type 0 where
  pub frames : List Frame
  pub events : List Outcome
  pub intents : List (AudioEvent F)
  pub queries : List Query
  pub counters : TraceCounters

abbrev pub signature : Slot → Signature
signature s = record {
  refcount = s.refcount;
  paused = s.paused;
  start_count = s.start_count;
  pause_offset = s.pause_offset;
}

abbrev pub signatures : Dict (List Slot) → Dict (List Signature)
signatures = map λ e. (e.0, map signature e.1)

abbrev pub playing_types : Dict (List Slot) → Dict Bool
playing_types = map λ e. (e.0, any is_held e.1)

module _ {F : Type 0} where
  abbrev pub action_tick : Action F → ℕ
  action_tick (Action.play tick id pitch) = tick
  action_tick (Action.stop tick id) = tick
  action_tick (Action.pause tick entering) = tick
  action_tick (Action.is_playing tick id) = tick
  action_tick (Action.cancel_paused tick) = tick
  action_tick (Action.other tick) = tick

  -- the loop that checks the ticks of the actions
  unfoldable pub check_actions : ℕ → List (Action F) → Result AudioError (Unit {0})
  check_actions ticks [] = ok tt
  check_actions ticks (a ∷ actions) =
      raise_if (leb ticks (action_tick a)) outside_ticks >> check_actions ticks actions

  -- `schedule.get(tick, [])`
  abbrev pub scheduled : ℕ → List (Action F) → List (Action F)
  scheduled tick = keep (λ a. action_tick a == tick)

module _ (fl : Floats) {D : Type 0} (dev : Device fl D) (clock : ℕ → ℕ) where
  open fl use {F}

  -- `FoleyMachine.snapshot`
  abbrev pub snapshot : ℕ → FoleyMachine F D → Frame
  snapshot tick m = record {
    tick = tick;
    app_update_count = clock tick;
    rng_draws = m.rng.draws;
    slots = signatures m.slots;
    last_variation = m.last_variation;
    playing = playing_types m.slots;
  }

  -- the dispatch on the kind of an action
  unfoldable pub perform :
      ℕ
      → Action F
      → List Query × FoleyMachine F D
      → Result AudioError (List Query × FoleyMachine F D)
  unfolding Entry.play Entry.stop game_pause is_foley_playing Foley.cancel_paused
  perform tick (Action.play _ id pitch) (queries, m) =
      Entry.play fl dev clock tick id pitch m >>= λ r. ok (queries, r.1)
  perform tick (Action.stop _ id) (queries, m) =
      Entry.stop fl dev clock tick id m >>= λ m'. ok (queries, m')
  perform tick (Action.pause _ entering) (queries, m) =
      game_pause fl dev clock tick entering m >>= λ m'. ok (queries, m')
  perform tick (Action.is_playing _ id) (queries, m) =
      is_foley_playing fl dev clock tick id m >>= λ r.
      let entry : Query = record { tick = tick; type_id = id; result = r.0 } in
      ok (queries ++ entry ∷ [], r.1)
  perform tick (Action.cancel_paused _) (queries, m) =
      Foley.cancel_paused fl dev tick m >>= λ m'. ok (queries, m')
  perform tick (Action.other _) (queries, m) = err unknown_action

  -- the actions of one tick
  unfoldable pub perform_all :
      ℕ
      → List (Action F)
      → List Query × FoleyMachine F D
      → Result AudioError (List Query × FoleyMachine F D)
  unfolding perform
  perform_all tick [] s = ok s
  perform_all tick (a ∷ actions) s = perform tick a s >>= perform_all tick actions

  -- `for tick in range(ticks)`: the frames, with the queries and the machine at the end
  unfoldable pub run_ticks :
      ℕ
      → ℕ
      → List (Action F)
      → List Query × FoleyMachine F D
      → Result AudioError (List Frame × (List Query × FoleyMachine F D))
  unfolding perform_all
  run_ticks zero tick actions s = ok ([], s)
  run_ticks (suc n) tick actions s = do
    s' ← perform_all tick (scheduled tick actions) s
    rest ← run_ticks n (tick + 1) actions s'
    ok (snapshot tick s'.1 ∷ rest.0, rest.1)

  -- the counters of the machine, its observer and its device at the end
  abbrev pub counters_of : FoleyMachine F D → TraceCounters
  counters_of m = record {
    rng_draws = m.rng.draws;
    outcomes = length m.outcomes;
    mixer_queries = elim m.observer [ none ↦ none | some o ↦ some o.mixer.counters ];
    voices = elim m.observer [ none ↦ none | some o ↦ some (length o.mixer.voices) ];
    dropped = elim m.observer [ none ↦ none | some o ↦ some (length o.dropped) ];
    device_counters = dev.counters m.device;
  }

  -- the events of the observer, if there is one
  abbrev pub intents_of : FoleyMachine F D → List (AudioEvent F)
  intents_of m = elim m.observer [ none ↦ [] | some o ↦ o.events ]

  -- `run_stream`
  unfoldable pub run_stream :
      Soundscape F
      → List (Action F)
      → ℕ
      → D
      → Option (MixerObserver F)
      → ℕ
      → Result AudioError (FoleyTrace F)
  unfolding check_actions run_ticks
  run_stream soundscape actions ticks device observer seed = do
    raise_if (ticks == 0) bad_integer
    check_actions ticks actions
    r ← run_ticks ticks 0 actions ([], new_machine fl soundscape device seed observer)
    ok (record {
      frames = r.0;
      events = ((r.1).1).outcomes;
      intents = intents_of (r.1).1;
      queries = (r.1).0;
      counters = counters_of (r.1).1;
    })
