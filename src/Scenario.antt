-- ===== src/Scenario.antt =====
-- app/schemas/scenario_json.py and app/services/scenario_service.py: the checks on a scenario
-- definition, and the walk through its graph. Pydantic reports every broken field at once; the
-- model reports the first.
pub mod Graph
pub mod Rounds
pub mod Dict
pub mod Acyclic
pub mod Validate
pub mod Accepted
pub mod Branch
