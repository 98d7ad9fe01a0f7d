-- ===== src/Control/Registry.antt =====
-- go-watch-file/internal/api/control_handlers.go, controlRegisterAgent: an agent that registers again.
use go_watch_file.Base.{ℕ, ◌≡◌, Bool, false, Option, none, some, List}
use go_watch_file.Base.Str.{Str}
use go_watch_file.Base.Trim.{trim_space}
use go_watch_file.Base.Assoc.{insert}
use go_watch_file.Control.Types.{AgentState, RegisterAgentRequest, Reply, done, refused}
use go_watch_file.Control.Db.{Handler, Db}

-- What stays of an agent that registers again: who it is, since when, its state and its heartbeats.
abbrev pub SameAgent : AgentState → AgentState → Type 0
SameAgent a b =
    (b.id ≡ a.id)
    × (b.created_at ≡ a.created_at)
    × (b.status ≡ a.status)
    × (b.heartbeat_count ≡ a.heartbeat_count)

-- What it says of itself, and when it was seen.
abbrev pub Described : RegisterAgentRequest → ℕ → AgentState → Type 0
Described req now b =
    (b.agent_key ≡ trim_space req.agent_key)
    × (b.hostname ≡ trim_space req.hostname)
    × (b.version ≡ trim_space req.version)
    × (b.ip ≡ trim_space req.ip)
    × (b.last_seen_at ≡ now)
    × (b.updated_at ≡ now)

-- The rows of the agents, if there is a store.
abbrev pub agent_rows_of : Option Db → Option (List (Str × AgentState))
agent_rows_of none = none
agent_rows_of (some d) = some d.agent_rows

abbrev pub put_agent :
    AgentState → Option (List (Str × AgentState)) → Option (List (Str × AgentState))
put_agent b none = none
put_agent b (some rows) = some (insert b.id b rows)

-- A refusal leaves the two maps and the rows as they are. Otherwise the agent stands in its own place,
-- in the map and in the rows.
abbrev pub Reregistered :
    RegisterAgentRequest → AgentState → ℕ → Handler → Handler → Reply (Bool × AgentState) → Type 0
Reregistered req a now h g (refused code text) =
    (g.agents ≡ h.agents)
    × (g.agent_key_idx ≡ h.agent_key_idx)
    × (agent_rows_of g.store ≡ agent_rows_of h.store)
Reregistered req a now h g (done (created, b)) =
    (created ≡ false)
    × SameAgent a b
    × Described req now b
    × (g.agents ≡ insert b.id b h.agents)
    × (g.agent_key_idx ≡ insert b.agent_key b.id h.agent_key_idx)
    × (agent_rows_of g.store ≡ put_agent b (agent_rows_of h.store))

abbrev Ends :
    RegisterAgentRequest → AgentState → ℕ → Handler → Handler × Reply (Bool × AgentState) → Type 0
Ends req a now h r = Reregistered req a now h r.0 r.1
