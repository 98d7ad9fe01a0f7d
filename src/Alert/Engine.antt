-- ===== src/Alert/Engine.antt =====
-- go-watch-file/internal/alert/engine.go, types.go: `Engine.Evaluate` and what it calls, each call
-- under the mutex. Times are nanoseconds since the zero time, durations are not negative, and a
-- threshold of 0 stands for one that is not positive; `compileRules` is not modelled: `reset` takes
-- what it gives.
use go_watch_file.Base.{
  ℕ, ◌+◌, ◌%◌, ◌^◌, Bool, true, false, not, ◌&&◌, ◌||◌, Option, none, some, List, [], ◌∷◌, ◌++◌,
  if◌then◌else◌, ltb, leb, ◌==◌, length,
}
use go_watch_file.Base.Str.{Str, text, is_empty, to_lower, itoa}
use go_watch_file.Base.Trim.{trim_space}
use go_watch_file.Base.Assoc.{lookup, insert}
use go_watch_file.Alert.Types.{
  Level, ignore, system, DecisionStatus, sent, suppressed, recorded, rule_match, by_escalation,
  SuppressedBy, rule_window, escalation_window, CompiledRule, CompiledEscalation, DecisionResult,
  Engine,
}
use go_watch_file.Alert.Texts.{
  contains_any, truncate_message, format_duration, format_suppress_window,
}

abbrev max_decision_message : ℕ
max_decision_message = 240

-- `NewEngine`, on the rules that `compileRules` gives.
unfoldable pub new_engine : List CompiledRule → CompiledEscalation → Engine
new_engine rules escalation = record {
  rules = rules;
  escalation = escalation;
  last_alert = [];
  system_events = [];
  escalation_active = false;
  last_escalation_at = 0;
  suppression_enabled = true;
  seq = 0;
}

-- `Reset`; `none` are rules that do not compile, and the engine stays as it is.
unfoldable pub reset : Option (List CompiledRule × CompiledEscalation) → Engine → Engine × Bool
reset none e = (e, false)
reset (some (rules, escalation)) e = (
  record e {
    rules = rules;
    escalation = escalation;
    last_alert = [];
    system_events = [];
    escalation_active = false;
    last_escalation_at = 0;
  },
  true,
)

abbrev same_bool : Bool → Bool → Bool
same_bool true b = b
same_bool false b = not b

unfoldable pub set_suppression_enabled : Bool → Engine → Engine
set_suppression_enabled enabled e =
    if same_bool e.suppression_enabled enabled
    then e
    else record e { suppression_enabled = enabled; last_alert = []; last_escalation_at = 0 }

-- `matchRuleLocked`: the haystack of a rule, and the first rule that matches it.
unfoldable pub matches : CompiledRule → Str → Bool
matches rule line =
    let haystack = if rule.match_case then line else to_lower line in
    if not (contains_any haystack rule.keywords)
    then false
    else if ltb 0 (length rule.excludes) && contains_any haystack rule.excludes
    then false
    else true

unfoldable pub match_rule : List CompiledRule → Str → Option CompiledRule
match_rule [] line = none
match_rule (rule ∷ rules) line = if matches rule line then some rule else match_rule rules line

abbrev pub Verdict : Type 0
Verdict = DecisionStatus × Str × Option SuppressedBy

unfoldable pub suppress : Option ℕ → CompiledRule → ℕ → Engine → Engine × Verdict
suppress none rule now e =
    (record e { last_alert = insert rule.id now e.last_alert }, (sent, [], none))
suppress (some last) rule now e =
    if ltb now (last + rule.suppress_window)
    then (e, (suppressed, format_duration rule.suppress_window ++ text "内已告警", some rule_window))
    else (record e { last_alert = insert rule.id now e.last_alert }, (sent, [], none))

unfoldable pub apply_suppression : CompiledRule → ℕ → Engine → Engine × Verdict
unfolding suppress
apply_suppression rule now e =
    if not rule.notify
    then (e, (recorded, [], none))
    else if not e.suppression_enabled
    then (e, (sent, [], none))
    else if rule.suppress_window == 0
    then (record e { last_alert = insert rule.id now e.last_alert }, (sent, [], none))
    else suppress (lookup rule.id e.last_alert) rule now e

-- The events that are left when the leading ones older than the window are cut.
unfoldable pub cut_before : ℕ → ℕ → List ℕ → List ℕ
cut_before window now [] = []
cut_before window now (ts ∷ rest) =
    if leb now (ts + window) then ts ∷ rest else cut_before window now rest

unfoldable pub prune_system_events : ℕ → Engine → Engine
prune_system_events now e =
    if e.escalation.window == 0 || length e.system_events == 0
    then e
    else record e { system_events = cut_before e.escalation.window now e.system_events }

unfoldable pub append_system_event : ℕ → Engine → Engine
append_system_event now e =
    if e.escalation.window == 0
    then e
    else prune_system_events now (record e { system_events = e.system_events ++ (now ∷ []) })

-- `nextID`: the counter is an atomic uint64.
unfoldable pub next_id : Engine → Engine × Str
next_id e = let n = (e.seq + 1) % 2 ^ 64 in (record e { seq = n }, itoa n)

-- Whether an escalation is held back by the last one.
unfoldable pub escalation_held : ℕ → Engine → Bool
escalation_held now e =
    e.suppression_enabled
    && ltb 0 e.escalation.suppress_window
    && not (e.last_escalation_at == 0)
    && ltb now (e.last_escalation_at + e.escalation.suppress_window)

abbrev escalation_message : CompiledEscalation → Str
escalation_message c =
    if is_empty c.message
    then text "系统异常在" ++ format_duration c.window ++ text "内达到" ++ itoa c.threshold ++ text "次"
    else c.message

abbrev escalate : ℕ → Engine → Engine × DecisionResult
escalate now e =
    let held = escalation_held now e in
    let stamped =
      if held
      then e
      else if e.suppression_enabled
      then record e { last_escalation_at = now }
      else e in
    let (f, id) = next_id stamped in
    (
      f,
      record {
        id = id;
        rule_id = e.escalation.rule_id;
        rule = e.escalation.title;
        level = e.escalation.level;
        file = [];
        message = escalation_message e.escalation;
        at = now;
        status = if held then suppressed else sent;
        reason = if held then format_duration e.escalation.suppress_window ++ text "内已升级" else [];
        explain = record {
          decision_kind = by_escalation;
          notify = true;
          suppression_enabled = e.suppression_enabled;
          suppress_window = format_suppress_window e.escalation.suppress_window;
          suppressed_by = if held then some escalation_window else none;
          escalation_threshold = e.escalation.threshold;
          escalation_window = format_suppress_window e.escalation.window;
          escalation_count = length e.system_events;
        };
      },
    )

unfoldable pub maybe_escalate : ℕ → Engine → Engine × Option DecisionResult
maybe_escalate now e =
    if not e.escalation.enabled || e.escalation.threshold == 0
    then (e, none)
    else (let p = prune_system_events now e in
        if ltb (length p.system_events) p.escalation.threshold
        then (record p { escalation_active = false }, none)
        else if p.escalation_active
        then (p, none)
        else (let (f, d) = escalate now (record p { escalation_active = true }) in (f, some d)))

abbrev pub is_system : Level → Bool
is_system system = true
is_system _ = false

abbrev pub is_ignore : Level → Bool
is_ignore ignore = true
is_ignore _ = false

abbrev pub with_escalation : DecisionResult → Option DecisionResult → List DecisionResult
with_escalation d none = d ∷ []
with_escalation d (some x) = d ∷ x ∷ []

-- The decision of a rule that matched, with its verdict.
unfoldable pub rule_result : CompiledRule → Str → Str → Str → ℕ → Bool → Verdict → DecisionResult
rule_result rule id cleaned file now enabled (status, reason, held) = record {
  id = id;
  rule_id = rule.id;
  rule = rule.title;
  level = rule.level;
  file = file;
  message = truncate_message cleaned max_decision_message;
  at = now;
  status = status;
  reason = reason;
  explain = record {
    decision_kind = rule_match;
    notify = rule.notify;
    suppression_enabled = enabled;
    suppress_window = format_suppress_window rule.suppress_window;
    suppressed_by = held;
    escalation_threshold = 0;
    escalation_window = [];
    escalation_count = 0;
  };
}

-- `Evaluate` once a rule has matched the line.
unfoldable pub decide : CompiledRule → Str → Str → ℕ → Engine → Engine × List DecisionResult
decide rule cleaned file now e =
    let (a, id) = next_id e in
    let (b, verdict) = apply_suppression rule now a in
    let c = if is_system rule.level then append_system_event now b else b in
    let (d, escalation) = maybe_escalate now c in
    (
      d,
      with_escalation (rule_result rule id cleaned file now e.suppression_enabled verdict)
          escalation,
    )

unfoldable pub evaluate_matched :
    Option CompiledRule → Str → Str → ℕ → Engine → Engine × List DecisionResult
evaluate_matched none cleaned file now e = (e, [])
evaluate_matched (some rule) cleaned file now e =
    if is_ignore rule.level then (e, []) else decide rule cleaned file now e

unfoldable pub evaluate : Str → Str → ℕ → Engine → Engine × List DecisionResult
evaluate line file now e =
    let cleaned = trim_space line in
    if is_empty cleaned
    then (e, [])
    else evaluate_matched (match_rule e.rules cleaned) cleaned file now e
