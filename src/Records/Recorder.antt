-- ===== src/Records/Recorder.antt =====
-- src/agent_control_plane/records.py: `RunRecorder`, with `create_frame` of frame.py and
-- `generate_replay_bundle` of replay.py. What the methods draw from `uuid4` and from the clock are
-- arguments of the calls.
pub mod Evaluate
pub mod Invariant
pub mod Calls
pub mod Valid
use cognous_agent_control_pl.Base.{
  ℕ, String, Bool, true, false, Option, none, some, List, [], ◌∷◌, ◌++◌, not, ◌==◌, any, get_or,
  if◌then◌else◌, Dict, ◌≡◌, ap,
}
use cognous_agent_control_pl.Base.Outcome.{
  runtime_error, value_error, Result, ok, raise, bind, Exec, pure, throw, lift, ◌>>=◌, ◌>>◌,
}
use cognous_agent_control_pl.Bounded.Models.{Value}
use cognous_agent_control_pl.Bounded.Documents.{Platform}
use cognous_agent_control_pl.Policy.Models.{
  Frame, ActionProposal, PolicyResult, PolicyEvaluationTrace, PolicyDecision, AuthorityRecord,
}
use cognous_agent_control_pl.Policy.Gate.{Canonical, evaluate, evaluate_with_trace}
use cognous_agent_control_pl.Records.Models.{
  BlockedAction, SourceType, RelianceRecord, RunRecord, ReplayBundle,
}

-- The attributes that `start_run` sets together, and no other method.
pub record Started : Type 0 where
  pub run_id : String
  pub task : String
  pub created_at : String
  pub frame : Frame

pub record RunRecorder : Type 0 where
  pub started : Option Started
  pub actions : List ActionProposal
  pub decisions : List PolicyDecision
  pub policy_traces : List PolicyEvaluationTrace
  pub authority_records : List AuthorityRecord
  pub reliance_records : List RelianceRecord
  pub blocked_actions : List BlockedAction
  pub completed : Bool
  pub final_output : Option String
  pub replay_bundle_id : Option String

-- `__init__`
abbrev pub new_recorder : RunRecorder
new_recorder = record {
  started = none;
  actions = [];
  decisions = [];
  policy_traces = [];
  authority_records = [];
  reliance_records = [];
  blocked_actions = [];
  completed = false;
  final_output = none;
  replay_bundle_id = none;
}

pub record StartCall : Type 0 where
  pub task : String
  pub actor : String
  pub environment : String
  pub allowed_tools : List String
  pub blocked_tools : List String
  pub policy_version : String
  pub run_uuid : String
  pub frame_uuid : String
  pub clock : String

unfoldable pub create_frame : StartCall → Frame
create_frame c = record {
  frame_id = c.frame_uuid;
  task = c.task;
  actor = c.actor;
  environment = c.environment;
  allowed_tools = c.allowed_tools;
  blocked_tools = c.blocked_tools;
  policy_version = c.policy_version;
  created_at = c.clock;
}

-- `start_run`: the lists of an earlier run are kept.
unfoldable pub start_run : StartCall → Exec RunRecorder String
unfolding create_frame
start_run c r = (
  ok c.run_uuid,
  record r {
    started = some (record {
      run_id = c.run_uuid;
      task = c.task;
      created_at = c.clock;
      frame = create_frame c;
    });
  },
)

-- `_require_started`, with the attributes that the caller then reads.
unfoldable pub require : Option Started → Exec RunRecorder Started
require none r = throw runtime_error "Run has not been started.  Call start_run() first." r
require (some s) r = pure s r

unfoldable pub require_started : Exec RunRecorder Started
unfolding require
require_started r = require r.started r

pub require_started_lem :
    (r : RunRecorder) (s : Started) → r.started ≡ some s → require_started r ≡ (ok s, r)
unfolding require_started
require_started_lem r s h = ap (λ o. require o r) h

pub record AuthorityCall : Type 0 where
  pub actor : String
  pub scope : List String
  pub source : String
  pub expires_at : Option String
  pub uuid : String
  pub clock : String

unfoldable pub add_authority_record : AuthorityCall → Exec RunRecorder AuthorityRecord
add_authority_record c = do
  s ← require_started
  let x : AuthorityRecord = record {
    authority_id = c.uuid;
    run_id = s.run_id;
    actor = c.actor;
    scope = c.scope;
    expires_at = c.expires_at;
    source = c.source;
    created_at = c.clock;
  }
  λ r. (ok x, record r { authority_records = r.authority_records ++ x ∷ [] })

pub record ProposeCall : Type 0 where
  pub tool_name : String
  pub action_type : String
  pub target : String
  pub payload : Option (Dict Value)
  pub reason : Option String
  pub uuid : String
  pub clock : String

unfoldable pub propose_action : ProposeCall → Exec RunRecorder ActionProposal
propose_action c = do
  s ← require_started
  let x : ActionProposal = record {
    action_id = c.uuid;
    run_id = s.run_id;
    tool_name = c.tool_name;
    action_type = c.action_type;
    target = c.target;
    payload = get_or [] c.payload;
    proposed_at = c.clock;
    reason = c.reason;
  }
  λ r. (ok x, record r { actions = r.actions ++ x ∷ [] })

pub record RelianceCall : Type 0 where
  pub source_name : String
  pub source_type : SourceType
  pub scope : String
  pub referenced_action_id : Option String
  pub uuid : String
  pub clock : String

unfoldable pub record_reliance : RelianceCall → Exec RunRecorder RelianceRecord
record_reliance c = do
  s ← require_started
  let x : RelianceRecord = record {
    reliance_id = c.uuid;
    run_id = s.run_id;
    source_name = c.source_name;
    source_type = c.source_type;
    scope = c.scope;
    referenced_action_id = c.referenced_action_id;
    created_at = c.clock;
  }
  λ r. (ok x, record r { reliance_records = r.reliance_records ++ x ∷ [] })

unfoldable pub complete_run : Option String → Exec RunRecorder Unit
complete_run final_output = do
  _ ← require_started
  λ r. (ok tt, record r { completed = true; final_output = final_output })

unfoldable pub record_of : Started → RunRecorder → RunRecord
record_of s r = record {
  run_id = s.run_id;
  task = s.task;
  created_at = s.created_at;
  frame = s.frame;
  actions = r.actions;
  decisions = r.decisions;
  policy_traces = r.policy_traces;
  authority_records = r.authority_records;
  reliance_records = r.reliance_records;
  blocked_actions = r.blocked_actions;
  completed = r.completed;
  final_output = r.final_output;
  replay_bundle_id = r.replay_bundle_id;
}

unfoldable pub to_run_record : Exec RunRecorder RunRecord
unfolding record_of
to_run_record = do s ← require_started; λ r. (ok (record_of s r), r)

pub to_run_record_lem :
    (r : RunRecorder) (s : Started) → r.started ≡ some s → to_run_record r ≡ (ok (record_of s r), r)
unfolding to_run_record
to_run_record_lem r s h = rw (require_started_lem r s h)
