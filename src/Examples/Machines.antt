-- ===== src/Examples/Machines.antt =====
-- One online machine, asked for two agents of the same company.
use megacorps.Prelude.{true, false, none, some, [], ◌∷◌, ◌≡◌, map, text}
use megacorps.Runners.Availability.{
  RuntimeRow, MachineRunnerRow, Registry, create_runtime_availability_cache,
}
use megacorps.Runners.Cached.{Probe, probe_all, answer_of, probe_all-eq-fresh}

abbrev claude : RuntimeRow
claude = record { id = 7; company_id = some 8; is_active = some true; name = text "claude-code" }

abbrev laptop : MachineRunnerRow
laptop = record {
  company_id = 8;
  is_deleted = false;
  status = text "online";
  last_heartbeat_at = some 100000;
  supported_runtimes = some (text "claude-code" ∷ []);
  runtime_statuses = none;
}

abbrev tables : Registry
tables = record { runtimes = claude ∷ []; runners = laptop ∷ [] }

abbrev probe : Probe
probe = record { company_id = 8; runtime_id = some 7; adapter_type = text "claude-code" }

probe_all-eq-fresh_example :
    probe_all 90000 tables 120000 (probe ∷ probe ∷ []) (some create_runtime_availability_cache)
    ≡ map (answer_of 90000 tables 120000) (probe ∷ probe ∷ [])
probe_all-eq-fresh_example = probe_all-eq-fresh 90000 tables 120000 (probe ∷ probe ∷ [])
