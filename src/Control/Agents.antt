-- ===== src/Control/Agents.antt =====
-- go-watch-file/internal/api/control_handlers.go: registration, heartbeat and drain of agents.
use go_watch_file.Base.{
  ℕ, ◌+◌, ◌%◌, ◌^◌, Bool, true, false, Option, none, some, [], ◌++◌, if◌then◌else◌,
}
use go_watch_file.Base.Str.{Str, bytes, text, is_empty, pad6}
use go_watch_file.Base.Trim.{trim_space}
use go_watch_file.Base.Assoc.{lookup, insert}
use go_watch_file.Control.Types.{
  AgentStatus, online, offline, draining, AgentState, RegisterAgentRequest, AgentHeartbeatRequest,
  Reply, done, refused, boolean, str, end, field,
}
use go_watch_file.Control.Db.{Handler, persist_agent, append_audit_log}

abbrev pub u64 : ℕ → ℕ
u64 n = n % 2 ^ 64

-- normalizeControlGroup
unfoldable pub normalize_group : Str → Str
normalize_group raw = if is_empty (trim_space raw) then bytes "default" else trim_space raw

-- nextControlAgentIDLocked, whose number is `controlNextAgentSeq` after the increment.
unfoldable pub agent_id_of : ℕ → Str
agent_id_of seq = bytes "agt-" ++ pad6 seq

-- The fields that registration sets on an agent, old or new.
unfoldable pub registered : RegisterAgentRequest → ℕ → AgentState → AgentState
unfolding normalize_group
registered req now a = record a {
  agent_key = trim_space req.agent_key;
  hostname = trim_space req.hostname;
  version = trim_space req.version;
  ip = trim_space req.ip;
  group_name = normalize_group (trim_space req.group_name);
  last_seen_at = now;
  updated_at = now;
}

abbrev blank_agent : Str → Str → ℕ → AgentState
blank_agent id key now = record {
  id = id;
  agent_key = key;
  hostname = [];
  version = [];
  ip = [];
  group_name = [];
  status = online;
  last_seen_at = 0;
  created_at = now;
  updated_at = 0;
  heartbeat_count = 0;
}

-- What is written once the agent is known: the row, the two maps, and the audit log.
unfoldable pub save_registered :
    Bool → AgentState → ℕ → Handler → Handler × Reply (Bool × AgentState)
save_registered created a now h =
    let (h', ok) = persist_agent a h in
    if ok
    then (
      append_audit_log a.agent_key (text "agent_register") (text "agent") a.id
          (field (text "hostname") (str a.hostname) (
            field (text "version") (str a.version) (
              field (text "ip") (str a.ip) (
                field (text "groupName") (str a.group_name)
                  (field (text "created") (boolean created) end)))))
          now
          (record h' {
            agents = insert a.id a h'.agents;
            agent_key_idx = insert a.agent_key a.id h'.agent_key_idx;
          }),
      done (created, a),
    )
    else (h', refused 500 "persist control agent failed")

-- `h.controlAgents[agentID]` gives the zero state for a key that is not there.
abbrev zero_agent : AgentState
zero_agent = blank_agent [] [] 0

abbrev pub agent_or_zero : Option AgentState → AgentState
agent_or_zero none = zero_agent
agent_or_zero (some a) = a

unfoldable pub register_keyed :
    Option Str → RegisterAgentRequest → ℕ → Handler → Handler × Reply (Bool × AgentState)
unfolding save_registered registered agent_id_of
register_keyed (some id) req now h =
    save_registered false (registered req now (agent_or_zero (lookup id h.agents))) now h
register_keyed none req now h =
    let seq = u64 (h.next_agent_seq + 1) in
    save_registered true
      (registered req now (blank_agent (agent_id_of seq) (trim_space req.agent_key) now)) now
      (record h { next_agent_seq = seq })

-- controlRegisterAgent; `none` is a body that is no JSON.
unfoldable pub register_agent :
    Option RegisterAgentRequest → ℕ → Handler → Handler × Reply (Bool × AgentState)
unfolding register_keyed
register_agent none now h = (h, refused 400 "invalid payload")
register_agent (some req) now h =
    let key = trim_space req.agent_key in
    if is_empty key
    then (h, refused 400 "agentKey is required")
    else register_keyed (lookup key h.agent_key_idx) req now h

abbrev or_keep : Str → Str → Str
or_keep new old = if is_empty (trim_space new) then old else trim_space new

-- An agent that was offline is back online.
abbrev pub wake : AgentStatus → AgentStatus
wake offline = online
wake online = online
wake draining = draining

unfoldable pub save_agent :
    Str → AgentState → (Handler → Handler) → Handler → Handler × Reply AgentState
save_agent key a after h =
    let (h', ok) = persist_agent a h in
    if ok
    then (after (record h' { agents = insert key a h'.agents }), done a)
    else (h', refused 500 "persist control agent failed")

-- controlHeartbeatAgent; a body that is no JSON is as one with empty fields.
unfoldable pub heartbeat_found :
    Option AgentState → AgentHeartbeatRequest → Str → ℕ → Handler → Handler × Reply AgentState
unfolding save_agent
heartbeat_found none req id now h = (h, refused 404 "agent not found")
heartbeat_found (some a) req id now h =
    save_agent id
      (record a {
        hostname = or_keep req.hostname a.hostname;
        version = or_keep req.version a.version;
        ip = or_keep req.ip a.ip;
        status = wake a.status;
        last_seen_at = now;
        updated_at = now;
        heartbeat_count = u64 (a.heartbeat_count + 1);
      })
      (λ h. h) h

unfoldable pub heartbeat_agent :
    AgentHeartbeatRequest → Str → ℕ → Handler → Handler × Reply AgentState
unfolding heartbeat_found
heartbeat_agent req id now h = heartbeat_found (lookup id h.agents) req id now h

-- controlDrainAgent
unfoldable pub drain_found : Option AgentState → Str → ℕ → Handler → Handler × Reply AgentState
unfolding save_agent
drain_found none id now h = (h, refused 404 "agent not found")
drain_found (some a) id now h =
    save_agent id (record a { status = draining; updated_at = now })
      (append_audit_log (text "console") (text "agent_drain") (text "agent") id
        (field (text "agentKey") (str a.agent_key)
          (field (text "groupName") (str a.group_name) end))
        now)
      h

unfoldable pub drain_agent : Str → ℕ → Handler → Handler × Reply AgentState
unfolding drain_found
drain_agent id now h = drain_found (lookup id h.agents) id now h
