-- ===== src/Examples/Handovers.antt =====
-- A card whose worker fails, in a company with one manager.
use megacorps.Prelude.{true, false, none, some, [], ◌∷◌, ◌≡◌, refl, text}
use megacorps.Workflow.Status.{in_progress}
use megacorps.Recovery.Store.{
  dispatch, reworking, RecoveryState, CardRow, AgentRow, Store, is_settled,
  recovery_mutation_allowed, completion_condition,
}
use megacorps.Recovery.Owner.{
  candidates, boss_ids, cyclic, chain_fuel, clear_chain, may_own, owner_for,
}
use megacorps.Recovery.Ownership.{MayOwn, owner_for-MayOwn}
use megacorps.Recovery.Request.{
  Failure, source_run_current, request_allowed, next_owner, next_recovery, recovered_card,
  commit_recovery, request_card_recovery,
}
use megacorps.Recovery.Rounds.{
  IsHandedOn, request_card_recovery-IsHandedOn, request_card_recovery-replay,
}

abbrev pub worker : AgentRow
worker = record {
  id = 1;
  is_active = true;
  boss_id = some 2;
  department_id = none;
  position_id = none;
  slug = 0;
  role = none;
  is_busy = false;
}

-- The manager, below a director who is the company boss and owned the first round.
abbrev pub manager : AgentRow
manager = record {
  id = 2;
  is_active = true;
  boss_id = some 3;
  department_id = none;
  position_id = none;
  slug = 0;
  role = none;
  is_busy = false;
}

abbrev director : AgentRow
director = record {
  id = 3;
  is_active = true;
  boss_id = none;
  department_id = none;
  position_id = some 70;
  slug = 0;
  role = none;
  is_busy = false;
}

abbrev pub first_round : RecoveryState
first_round = record {
  mode = reworking;
  owner_id = some 3;
  original_assignee_id = some 1;
  original_reviewer_id = none;
  stage = dispatch;
  reason = text "timeout";
  round = 1;
  handled_event_keys = 900 ∷ [];
  visited_owner_ids = 3 ∷ [];
  source_message_id = none;
  source_assignee_id = none;
  source_reviewer_id = none;
  permission_blocked = false;
}

abbrev pub failing : CardRow
failing = record {
  id = 40;
  company_id = 8;
  deleted = false;
  column_status = some in_progress;
  assignee_id = some 1;
  reviewer_id = none;
  project_id = none;
  requires_approval = false;
  execution_lock_id = none;
  execution_locked_by = none;
  active_heartbeat_run_id = none;
  recovery = some first_round;
  repair_dispatch = none;
  repair_review = none;
  run_retry_state = record { review = none; message = none; message_review = none };
  next_run_at = none;
  completed_at = none;
  last_error = none;
  body = none;
  retry_count = 0;
  review_feedback = none;
  merge_gate_version = 1;
}

abbrev pub office : Store
office = record {
  card = some failing;
  agents = worker ∷ manager ∷ director ∷ [];
  departments = [];
  boss_positions = 70 ∷ [];
  approvals = [];
  task_runs = [];
  merge_intents = [];
  comments = [];
  recovery_notes = [];
  next_id = 500;
}

abbrev pub crash : Failure
crash = record {
  reason = text "crash";
  event_key = 901;
  actor_id = some 1;
  stage = dispatch;
  source_message_id = none;
  task_run_id = none;
  original_reviewer_id = none;
  permission_blocked = false;
  require_current_run_authority = false;
}

abbrev handed_over : CardRow
handed_over = recovered_card office failing crash (some 2)

manager_owns : owner_for office failing (some 1) (3 ∷ []) ≡ some 2
unfolding owner_for candidates boss_ids may_own clear_chain cyclic chain_fuel
manager_owns = refl

crash_is_handed_over : (request_card_recovery office failing crash).1 ≡ some handed_over
unfolding request_card_recovery commit_recovery recovered_card next_recovery next_owner
    request_allowed source_run_current completion_condition recovery_mutation_allowed owner_for
    candidates boss_ids may_own clear_chain cyclic chain_fuel
crash_is_handed_over = refl

owner_for-MayOwn_example : MayOwn office failing (some 1) (3 ∷ []) 2
owner_for-MayOwn_example = owner_for-MayOwn office failing (some 1) (3 ∷ []) 2 manager_owns

request_card_recovery-IsHandedOn_example :
    (card : CardRow) × ((office.card ≡ some card)
      × ((is_settled card.column_status ≡ false)
          × IsHandedOn office
              (request_card_recovery office failing crash).0
              card
              crash
              handed_over))
request_card_recovery-IsHandedOn_example =
    request_card_recovery-IsHandedOn office failing crash handed_over crash_is_handed_over

request_card_recovery-replay_example :
    request_card_recovery (request_card_recovery office failing crash).0 handed_over crash
    ≡ ((request_card_recovery office failing crash).0, none)
request_card_recovery-replay_example =
    request_card_recovery-replay office failing handed_over crash crash handed_over
      crash_is_handed_over refl
