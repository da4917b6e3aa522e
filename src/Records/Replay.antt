-- ===== src/Records/Replay.antt =====
-- src/agent_control_plane/replay.py: `generate_replay_bundle`.
use cognous_agent_control_pl.Base.{String}
use cognous_agent_control_pl.Records.Models.{RunRecord, ReplayBundle}

-- `generate_replay_bundle`, with the identifier and the time that it draws.
unfoldable pub generate_replay_bundle : String → String → RunRecord → ReplayBundle
generate_replay_bundle uuid clock r = record {
  replay_bundle_id = uuid;
  run_id = r.run_id;
  generated_at = clock;
  frame = r.frame;
  actions = r.actions;
  decisions = r.decisions;
  policy_traces = r.policy_traces;
  authority_records = r.authority_records;
  reliance_records = r.reliance_records;
  blocked_actions = r.blocked_actions;
  final_output = r.final_output;
}
