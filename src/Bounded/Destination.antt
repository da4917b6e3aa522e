-- ===== src/Bounded/Destination.antt =====
-- src/agent_control_plane/bounded.py: `LocalRefundDestination`, its file, its constructor and its
-- three methods.
-- The lock makes each method one step. The file is read whole, or reading it raises.
pub mod Laws
pub mod Once
use cognous_agent_control_pl.Base.{
  ℕ, ◌+◌, String, Bool, true, false, Option, none, some, List, [], ◌∷◌, Dict, get, put, leb,
  if◌then◌else◌,
}
use cognous_agent_control_pl.Base.Outcome.{
  Exn, runtime_error, timeout_error, Result, ok, raise, Exec, pure, throw, ◌>>=◌, ◌>>◌,
}
use cognous_agent_control_pl.Bounded.Models.{
  Value, Items, Fields, end, field, number, text, object, boolean, ObservedState, EffectObservation,
}
use cognous_agent_control_pl.Bounded.Documents.{Platform}

pub data CommittedState : Type 0 where
  applied partial : CommittedState

-- The `effect` dictionary that `apply` stores.
pub record Effect : Type 0 where
  pub effect_id : String
  pub grant_id : String
  pub target : String
  pub amount : ℕ
  pub unit : String
  pub payload : Dict Value
  pub state : CommittedState

pub record DestinationState : Type 0 where
  pub effects : Dict Effect
  pub grant_effect_counts : Dict ℕ

pub data DestinationFile : Type 0 where
  readable : DestinationState → DestinationFile
  unreadable : Exn → DestinationFile

abbrev pub empty_destination : DestinationState
empty_destination = record { effects = []; grant_effect_counts = [] }

-- `__init__`, by the file at the path: one that is there stays as it is.
unfoldable pub open_destination : Option DestinationFile → DestinationFile
open_destination none = readable empty_destination
open_destination (some f) = f

pub record ApplyCall : Type 0 where
  pub effect_id : String
  pub grant_id : String
  pub max_effects : ℕ
  pub target : String
  pub amount : ℕ
  pub unit : String
  pub payload : Dict Value
  pub lose_ack : Bool
  pub partial : Bool

pub record ApplyAck : Type 0 where
  pub duplicate : Bool
  pub effect : Effect

unfoldable pub load : Exec DestinationFile DestinationState
load (readable s) = (ok s, readable s)
load (unreadable e) = (raise e, unreadable e)

-- `os.replace` puts the whole new document in the place of the old one.
unfoldable pub write : DestinationState → Exec DestinationFile Unit
write s f = (ok tt, readable s)

-- `int(state["grant_effect_counts"].get(grant_id, 0))`
unfoldable pub count_of : Option ℕ → ℕ
count_of none = 0
count_of (some n) = n

unfoldable pub used : String → DestinationState → ℕ
unfolding count_of
used grant_id s = count_of (get grant_id s.grant_effect_counts)

unfoldable pub effect_of : ApplyCall → Effect
effect_of c = record {
  effect_id = c.effect_id;
  grant_id = c.grant_id;
  target = c.target;
  amount = c.amount;
  unit = c.unit;
  payload = c.payload;
  state = if c.partial then CommittedState.partial else CommittedState.applied;
}

unfoldable pub commit : ApplyCall → DestinationState → DestinationState
unfolding effect_of used
commit c s = record {
  effects = put c.effect_id (effect_of c) s.effects;
  grant_effect_counts = put c.grant_id (used c.grant_id s + 1) s.grant_effect_counts;
}

-- The end of `apply`, after the effect is committed.
unfoldable pub acknowledge : ApplyCall → Exec DestinationFile ApplyAck
unfolding effect_of
acknowledge c =
    if c.lose_ack
    then throw timeout_error "synthetic acknowledgement lost after commit"
    else pure (record { duplicate = false; effect = effect_of c })

-- `apply` after the load, by whether the effect is there.
unfoldable pub apply_new :
    ApplyCall → DestinationState → Option Effect → Exec DestinationFile ApplyAck
unfolding commit write acknowledge
apply_new c s (some e) = pure (record { duplicate = true; effect = e })
apply_new c s none =
    if leb c.max_effects (used c.grant_id s)
    then throw runtime_error "cumulative grant max_effects exhausted"
    else do write (commit c s); acknowledge c

unfoldable pub apply : ApplyCall → Exec DestinationFile ApplyAck
unfolding load apply_new
apply c = do s ← load; apply_new c s (get c.effect_id s.effects)

-- The members of a JSON object.
unfoldable pub fields_of : Dict Value → Fields
fields_of [] = end
fields_of ((k, v) ∷ d) = field k v (fields_of d)

unfoldable pub state_text : CommittedState → String
state_text CommittedState.applied = "applied"
state_text CommittedState.partial = "partial"

-- The dictionary of an effect, as `observe` and the acknowledgement copy it.
unfoldable pub effect_dict : Effect → Dict Value
unfolding fields_of state_text
effect_dict e =
    ("effect_id", text e.effect_id)
    ∷ ("grant_id", text e.grant_id)
    ∷ ("target", text e.target)
    ∷ ("amount", number e.amount)
    ∷ ("unit", text e.unit)
    ∷ ("payload", object (fields_of e.payload))
    ∷ ("state", text (state_text e.state))
    ∷ []

unfoldable pub ack_dict : ApplyAck → Dict Value
unfolding effect_dict
ack_dict a =
    ("duplicate", boolean a.duplicate) ∷ ("effect", object (fields_of (effect_dict a.effect))) ∷ []

unfoldable pub observed_state : CommittedState → ObservedState
observed_state CommittedState.partial = ObservedState.partial
observed_state CommittedState.applied = ObservedState.applied

module _ (platform : Platform) where
  -- `observe` after the load; `clock` is what `_now()` reads.
  unfoldable pub observation_of : String → ℕ → Option Effect → EffectObservation
  unfolding effect_dict observed_state
  observation_of effect_id clock none = record {
    effect_id = effect_id;
    observed_at = some (platform.isoformat clock);
    state = ObservedState.absent;
    destination_state = [];
  }
  observation_of effect_id clock (some e) = record {
    effect_id = effect_id;
    observed_at = some (platform.isoformat clock);
    state = observed_state e.state;
    destination_state = effect_dict e;
  }

  unfoldable pub observe : String → ℕ → Exec DestinationFile EffectObservation
  unfolding load observation_of
  observe effect_id clock = do
    s ← load
    pure (observation_of effect_id clock (get effect_id s.effects))

-- `snapshot`
unfoldable pub snapshot : Exec DestinationFile DestinationState
unfolding load
snapshot = load
