-- ===== src/Workflow/Status.antt =====
-- packages/shared/src/index.ts: the card statuses, the actors, the actions and their two tables.
use megacorps.Prelude.{ℕ, ◌==◌, Bool, false, List, [], ◌∷◌, ◌||◌}

pub data CardStatus : Type 0 where
  todo in_progress in_review needs_review : CardStatus
  waiting_on_external waiting_on_client waiting_on_brainstorm : CardStatus
  done blocked cancelled : CardStatus

pub data CardActorType : Type 0 where
  user machine system agent_worker agent_reviewer agent_leader : CardActorType

pub data CardTransitionAction : Type 0 where
  claim submit_review request_help wait_external external_success : CardTransitionAction
  external_failure ask_client client_answered open_brainstorm : CardTransitionAction
  brainstorm_closed approve reject complete block cancel : CardTransitionAction
  release resume reopen manual_move : CardTransitionAction

-- A number for each constructor: JavaScript compares the spellings, which differ pairwise.
abbrev pub status_code : CardStatus → ℕ
status_code todo = 0
status_code in_progress = 1
status_code in_review = 2
status_code needs_review = 3
status_code waiting_on_external = 4
status_code waiting_on_client = 5
status_code waiting_on_brainstorm = 6
status_code done = 7
status_code blocked = 8
status_code cancelled = 9

abbrev pub actor_code : CardActorType → ℕ
actor_code user = 0
actor_code machine = 1
actor_code system = 2
actor_code agent_worker = 3
actor_code agent_reviewer = 4
actor_code agent_leader = 5

-- `a === b` on statuses and on actors.
abbrev pub status_eq : CardStatus → CardStatus → Bool
status_eq a b = status_code a == status_code b

abbrev pub actor_eq : CardActorType → CardActorType → Bool
actor_eq a b = actor_code a == actor_code b

unfoldable pub includes_status : List CardStatus → CardStatus → Bool
includes_status [] s = false
includes_status (t ∷ ts) s = status_eq t s || includes_status ts s

unfoldable pub includes_actor : List CardActorType → CardActorType → Bool
includes_actor [] s = false
includes_actor (t ∷ ts) s = actor_eq t s || includes_actor ts s

abbrev pub card_statuses : List CardStatus
card_statuses =
    todo ∷ in_progress ∷ in_review ∷ needs_review ∷ waiting_on_external ∷ waiting_on_client
    ∷ waiting_on_brainstorm ∷ done ∷ blocked ∷ cancelled ∷ []

abbrev pub card_transition_actions : List CardTransitionAction
card_transition_actions =
    claim ∷ submit_review ∷ request_help ∷ wait_external ∷ external_success ∷ external_failure
    ∷ ask_client ∷ client_answered ∷ open_brainstorm ∷ brainstorm_closed ∷ approve ∷ reject
    ∷ complete ∷ block ∷ cancel ∷ release ∷ resume ∷ reopen ∷ manual_move ∷ []

pub record CardTransitionDef : Type 0 where
  pub from : List CardStatus
  pub to : CardStatus
  pub allow : List CardActorType

-- The `allow` lists that the table repeats: workers, reviewers, leaders.
abbrev for_worker : List CardActorType
for_worker = machine ∷ system ∷ agent_worker ∷ agent_leader ∷ user ∷ []

abbrev for_reviewer : List CardActorType
for_reviewer = machine ∷ system ∷ agent_reviewer ∷ agent_leader ∷ user ∷ []

unfoldable pub card_transition_defs : CardTransitionAction → CardTransitionDef
card_transition_defs claim = record { from = todo ∷ []; to = in_progress; allow = for_worker }
card_transition_defs submit_review = record {
  from = in_progress ∷ [];
  to = in_review;
  allow = for_worker;
}
card_transition_defs request_help = record {
  from = in_progress ∷ blocked ∷ [];
  to = needs_review;
  allow = for_worker;
}
card_transition_defs wait_external = record {
  from = in_progress ∷ in_review ∷ [];
  to = waiting_on_external;
  allow = for_worker;
}
card_transition_defs external_success = record {
  from = waiting_on_external ∷ [];
  to = in_review;
  allow = for_reviewer;
}
card_transition_defs external_failure = record {
  from = waiting_on_external ∷ [];
  to = in_progress;
  allow = for_worker;
}
card_transition_defs ask_client = record {
  from = in_progress ∷ in_review ∷ [];
  to = waiting_on_client;
  allow = for_worker;
}
card_transition_defs client_answered = record {
  from = waiting_on_client ∷ [];
  to = in_progress;
  allow = user ∷ system ∷ [];
}
card_transition_defs open_brainstorm = record {
  from = in_progress ∷ [];
  to = waiting_on_brainstorm;
  allow = for_worker;
}
card_transition_defs brainstorm_closed = record {
  from = waiting_on_brainstorm ∷ [];
  to = in_progress;
  allow = system ∷ user ∷ [];
}
card_transition_defs approve = record {
  from = in_review ∷ needs_review ∷ [];
  to = done;
  allow = for_reviewer;
}
card_transition_defs reject = record {
  from = in_review ∷ needs_review ∷ [];
  to = todo;
  allow = for_reviewer;
}
card_transition_defs complete = record {
  from = in_progress ∷ in_review ∷ needs_review ∷ waiting_on_external ∷ cancelled ∷ [];
  to = done;
  allow = for_reviewer;
}
card_transition_defs block = record {
  from =
      todo ∷ in_progress ∷ in_review ∷ needs_review ∷ waiting_on_external ∷ waiting_on_client
      ∷ waiting_on_brainstorm ∷ [];
  to = blocked;
  allow = machine ∷ system ∷ agent_worker ∷ agent_reviewer ∷ agent_leader ∷ user ∷ [];
}
card_transition_defs cancel = record {
  from =
      todo ∷ in_progress ∷ in_review ∷ needs_review ∷ waiting_on_external ∷ waiting_on_client
      ∷ waiting_on_brainstorm ∷ blocked ∷ [];
  to = cancelled;
  allow = machine ∷ system ∷ agent_leader ∷ user ∷ [];
}
card_transition_defs release = record { from = in_progress ∷ []; to = todo; allow = for_worker }
card_transition_defs resume = record {
  from = blocked ∷ cancelled ∷ waiting_on_external ∷ waiting_on_client ∷ waiting_on_brainstorm ∷ [];
  to = todo;
  allow = machine ∷ system ∷ agent_leader ∷ user ∷ [];
}
card_transition_defs reopen = record {
  from = done ∷ [];
  to = todo;
  allow = agent_leader ∷ user ∷ [];
}
card_transition_defs manual_move = record {
  from = card_statuses;
  to = todo;
  allow = user ∷ system ∷ [];
}

unfoldable pub allowed_transitions : CardStatus → List CardStatus
allowed_transitions todo = in_progress ∷ blocked ∷ cancelled ∷ []
allowed_transitions in_progress =
    in_review ∷ needs_review ∷ waiting_on_external ∷ waiting_on_client ∷ waiting_on_brainstorm
    ∷ done ∷ blocked ∷ cancelled ∷ []
allowed_transitions in_review =
    waiting_on_external ∷ waiting_on_client ∷ done ∷ todo ∷ in_progress ∷ blocked ∷ cancelled ∷ []
allowed_transitions needs_review = todo ∷ in_progress ∷ done ∷ blocked ∷ cancelled ∷ []
allowed_transitions waiting_on_external =
    in_review ∷ in_progress ∷ done ∷ todo ∷ blocked ∷ cancelled ∷ []
allowed_transitions waiting_on_client = in_progress ∷ todo ∷ blocked ∷ cancelled ∷ []
allowed_transitions waiting_on_brainstorm = in_progress ∷ todo ∷ blocked ∷ cancelled ∷ []
allowed_transitions done = todo ∷ []
allowed_transitions blocked = todo ∷ cancelled ∷ []
allowed_transitions cancelled = todo ∷ done ∷ []
