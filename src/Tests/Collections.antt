-- ===== src/Tests/Collections.antt =====
-- The properties of the collections, at small maps and sets.
use einsof.Prelude.{ℕ, [], ◌∷◌, some, ◌==◌, if◌then◌else◌, ◌≡◌}
use einsof.Collections.VecMap.{VecMap}
use einsof.Collections.VecMap
use einsof.Collections.VecMap.Laws.{get-insert}
use einsof.Collections.VecSet.{VecSet}
use einsof.Tests.Scenario.{alice, bob}
use einsof.Types.{AgentId, ConfLevel, agent_id_eq, conf_level_eq}

abbrev ages : VecMap AgentId ℕ
ages = record { entries = (alice, 3) ∷ (bob, 5) ∷ [] }

abbrev levels : VecMap AgentId (VecSet ConfLevel)
levels = record { entries = (alice, record { items = ConfLevel.internal ∷ [] }) ∷ [] }

get-insert_example :
    VecMap.get_cloned (VecMap.insert ages alice 4) bob
    ≡ (if alice == bob then some 4 else VecMap.get_cloned ages bob)
get-insert_example = get-insert ages alice bob 4
