-- ===== src/Audio/Foley.antt =====
-- `FoleyMachine` of virtual_audio.py: the state, the helpers and the entry points. The device and
-- the observer are states of their own: a machine whose observer mirrors into the device's mixer is
-- not modelled.
use llm_vs_zombies.Base.{
  ℕ, suc, ◌+◌, ◌*◌, ◌%◌, ◌^◌, ◌==◌, ℤ, pos, negsuc, eqb_ℤ, Bool, true, false, ◌&&◌, ◌||◌, not,
  Option, none, some, List, [], ◌∷◌, ◌++◌, Result, ok, err, ◌>>=◌, replicate, Dict, if◌then◌else◌,
}
use llm_vs_zombies.Audio.Types.{AudioError, bad_integer, assertion, Floats, Soundscape, FoleyType}
use llm_vs_zombies.Audio.Device.{Device}
use llm_vs_zombies.Audio.Observer.{MixerObserver}

pub record Slot : Type 0 where
  pub refcount : ℕ
  pub paused : Bool
  pub start_count : ℕ
  pub instance_id : Option ℕ
  pub pause_offset : ℕ

abbrev pub empty_slot : Slot
empty_slot = record {
  refcount = 0;
  paused = false;
  start_count = 0;
  instance_id = none;
  pause_offset = 0;
}

pub record ModelRandom : Type 0 where
  pub state : ℕ
  pub draws : ℕ

-- the outcomes that `_outcome` records, and those of `stop` and `game_pause`
pub data OutcomeKind : Type 0 where
  recent reuse no_slot no_instance played stopped pause unpause : OutcomeKind

pub record Outcome : Type 0 where
  pub tick : ℕ
  pub type_id : Option ℕ
  pub outcome : OutcomeKind
  pub variation : Option ℕ

pub record FoleyMachine (F D : Type 0) : Type 0 where
  pub soundscape : Soundscape F
  pub slots : Dict (List Slot)
  pub last_variation : Dict ℤ
  pub rng : ModelRandom
  pub outcomes : List Outcome
  pub device : D
  pub observer : Option (MixerObserver F)

-- `ModelRandom.rand`
unfoldable pub rand : ModelRandom → ℕ → Result AudioError (ℕ × ModelRandom)
rand r count =
    if count == 0
    then err bad_integer
    else let state = (1103515245 * r.state + 12345) % 2 ^ 32 in
      ok (state % count, record { state = state; draws = r.draws + 1 })

-- the index of the first slot that a test accepts
unfoldable pub find_slot : (Slot → Bool) → List Slot → Option ℕ
find_slot p [] = none
find_slot p (s ∷ slots) =
    let later = find_slot p slots in
    if p s then some 0 else elim later [ none ↦ none | some i ↦ some (suc i) ]

abbrev pub is_held : Slot → Bool
is_held s = not (s.refcount == 0)

-- the loop that collects the candidates: it ends at the first variation with no resource
unfoldable pub candidates_from : Bool → ℤ → ℕ → List (Option ℕ) → List ℕ
candidates_from dont_repeat last index [] = []
candidates_from dont_repeat last index (none ∷ resources) = []
candidates_from dont_repeat last index (some r ∷ resources) =
    let rest = candidates_from dont_repeat last (index + 1) resources in
    if dont_repeat && eqb_ℤ last (pos index) then rest else index ∷ rest

abbrev new_slots : Dict FoleyType → Dict (List Slot)
new_slots [] = []
new_slots ((id, e) ∷ types) = (id, replicate 8 empty_slot) ∷ new_slots types

abbrev new_variations : Dict FoleyType → Dict ℤ
new_variations [] = []
new_variations ((id, e) ∷ types) = (id, negsuc 0) ∷ new_variations types

module _ (fl : Floats) {D : Type 0} where
  open fl use {F}

  -- `FoleyMachine.__init__`
  abbrev pub new_machine : Soundscape F → D → ℕ → Option (MixerObserver F) → FoleyMachine F D
  new_machine s device seed observer = record {
    soundscape = s;
    slots = new_slots s.types;
    last_variation = new_variations s.types;
    rng = record { state = seed % 2 ^ 32; draws = 0 };
    outcomes = [];
    device = device;
    observer = observer;
  }

  module _ (dev : Device fl D) where
    -- the loop body of `release_finished`
    unfoldable pub release_slot : ℕ → Slot → D → Result AudioError (Slot × D)
    release_slot tick s d = if s.refcount == 0 || s.paused then ok (s, d) else elim s.instance_id [
      | none ↦ err assertion
      | some id ↦ dev.is_playing id tick d >>= λ answer.
          if answer.0
          then ok (s, answer.1)
          else dev.release id tick answer.1 >>= λ d'.
              ok (record s { instance_id = none; refcount = 0 }, d')
    ]

    -- the loop body of `cancel_paused`
    unfoldable pub cancel_slot : ℕ → Slot → D → Result AudioError (Slot × D)
    cancel_slot tick s d =
        if is_held s && s.paused
        then elim s.instance_id [
          | none ↦ err assertion
          | some id ↦
              dev.release id tick d >>= λ d'. ok (record s { instance_id = none; refcount = 0 }, d')
        ]
        else ok (s, d)

    -- the loop body of `game_pause` on a slot of a muted type
    unfoldable pub pause_slot : ℕ → Bool → Bool → Slot → D → Result AudioError (Slot × D)
    pause_slot tick entering loops s d = if s.refcount == 0 then ok (s, d) else elim s.instance_id [
      | none ↦ err assertion
      | some id ↦
          if entering
          then (do
            answer ← dev.position id tick d
            d' ← dev.stop id tick answer.1
            ok (record s { paused = true; pause_offset = answer.0 }, d'))
          else if s.paused
          then (do
            d' ← dev.play id loops tick d
            d'' ← dev.set_position id tick s.pause_offset d'
            ok (record s { paused = false }, d''))
          else ok (s, d)
    ]

  -- `for slot in slots`, with the device's state threaded through
  unfoldable pub each_slot :
      (Slot → D → Result AudioError (Slot × D)) → List Slot → D → Result AudioError (List Slot × D)
  each_slot body [] d = ok ([], d)
  each_slot body (s ∷ slots) d = do
    one ← body s d
    rest ← each_slot body slots one.1
    ok (one.0 ∷ rest.0, rest.1)

  -- `for type_id, slots in self.slots.items()`
  unfoldable pub each_type :
      (ℕ → Slot → D → Result AudioError (Slot × D))
      → Dict (List Slot)
      → D
      → Result AudioError (Dict (List Slot) × D)
  unfolding each_slot
  each_type body [] d = ok ([], d)
  each_type body ((id, slots) ∷ types) d = do
    one ← each_slot (body id) slots d
    rest ← each_type body types one.1
    ok ((id, one.0) ∷ rest.0, rest.1)

  -- a loop over every slot, written back to the machine
  abbrev pub sweep :
      (ℕ → Slot → D → Result AudioError (Slot × D))
      → FoleyMachine F D
      → Result AudioError (FoleyMachine F D)
  sweep body m = do
    swept ← each_type body m.slots m.device
    ok (record m { slots = swept.0; device = swept.1 })

  -- `release_finished`
  unfoldable pub release_finished :
      Device fl D → ℕ → FoleyMachine F D → Result AudioError (FoleyMachine F D)
  unfolding release_slot each_type
  release_finished dev tick = sweep (λ id. release_slot dev tick)

  -- `cancel_paused`
  unfoldable pub cancel_paused :
      Device fl D → ℕ → FoleyMachine F D → Result AudioError (FoleyMachine F D)
  unfolding release_finished cancel_slot
  cancel_paused dev tick m = do
    m' ← release_finished dev tick m
    sweep (λ id. cancel_slot dev tick) m'

  -- `_outcome`
  abbrev pub recorded : ℕ → Option ℕ → OutcomeKind → Option ℕ → FoleyMachine F D → FoleyMachine F D
  recorded tick type_id outcome variation m =
      let entry : Outcome = record {
        tick = tick;
        type_id = type_id;
        outcome = outcome;
        variation = variation;
      } in
      record m { outcomes = m.outcomes ++ entry ∷ [] }
