-- ===== src/Alert/Times.antt =====
-- go-watch-file/internal/alert/engine.go, Engine.systemEvents: the events that the engine notes, when
-- lines come in the order of their times.
use go_watch_file.Base.{
  ℕ, ◌+◌, ◌≤◌, ◌≡◌, sym, subst, Bool, true, false, ◌||◌, Option, none, some, ◌⊎◌, inl, inr, List,
  [], ◌∷◌, ◌++◌, arith, if◌then◌else◌, if_elim, leb, ◌==◌, All, All-append, length,
}
use go_watch_file.Base.Str.{Str, is_empty}
use go_watch_file.Base.Trim.{trim_space}
use go_watch_file.Alert.Types.{Engine, CompiledRule, DecisionResult}
use go_watch_file.Alert.Engine.{
  cut_before, prune_system_events, append_system_event, maybe_escalate, next_id, apply_suppression,
  suppress, decide, evaluate_matched, evaluate, match_rule, is_ignore, is_system,
}
use go_watch_file.Alert.Escalation.{Ascending}
use go_watch_file.Alert.Run.{Line}

-- The noted events are in the order of their times, and none is after `now`.
abbrev pub Timed : ℕ → List ℕ → Type 0
Timed now ts = Ascending ts × All (λ t. t ≤ now) ts

later-Timed : (a b : ℕ) (ts : List ℕ) → a ≤ b → Timed a ts → Timed b ts
later-Timed a b [] le h = (tt, tt)
later-Timed a b (t ∷ ts) le (up, before) =
    let rest = later-Timed a b ts le (up.1, before.1) in (up, (omega (arith, le, before.0), rest.1))

cut_before-Timed :
    (window now at : ℕ) (ts : List ℕ) → Timed now ts → Timed now (cut_before window at ts)
unfolding cut_before
cut_before-Timed window now at [] h = h
cut_before-Timed window now at (t ∷ ts) h =
    if_elim (Timed now) (leb at (t + window)) (λ fresh. h)
      (λ stale. cut_before-Timed window now at ts (h.0.1, h.1.1))

append-Ascending : (now : ℕ) (ts : List ℕ) → Timed now ts → Ascending (ts ++ now ∷ [])
append-Ascending now [] h = (tt, tt)
append-Ascending now (t ∷ ts) (up, before) = (
  All-append (λ u. t ≤ u) ts (now ∷ []) up.0 (before.0, tt),
  append-Ascending now ts (up.1, before.1),
)

append-Timed : (now : ℕ) (ts : List ℕ) → Timed now ts → Timed now (ts ++ now ∷ [])
append-Timed now ts h =
    (append-Ascending now ts h, All-append (λ t. t ≤ now) ts (now ∷ []) h.1 (omega arith, tt))

abbrev Noted : ℕ → Engine → Type 0
Noted now e = Timed now e.system_events

prune-Noted : (now : ℕ) (e : Engine) → Noted now e → Noted now (prune_system_events now e)
unfolding prune_system_events
prune-Noted now e h =
    if_elim (Noted now) (e.escalation.window == 0 || length e.system_events == 0) (λ bare. h)
      (λ full. cut_before-Timed e.escalation.window now now e.system_events h)

append_system_event-Noted :
    (now : ℕ) (e : Engine) → Noted now e → Noted now (append_system_event now e)
unfolding append_system_event
append_system_event-Noted now e h =
    if_elim (Noted now) (e.escalation.window == 0) (λ off. h)
      (λ on.
        prune-Noted now (record e { system_events = e.system_events ++ now ∷ [] })
          (append-Timed now e.system_events h))

-- What else the engine does leaves the events alone.
maybe_escalate-events :
    (now : ℕ) (e : Engine)
    → ((maybe_escalate now e).0.system_events ≡ e.system_events)
      ⊎ ((maybe_escalate now e).0.system_events ≡ (prune_system_events now e).system_events)
unfolding maybe_escalate next_id
maybe_escalate-events now e = ground arith

maybe_escalate-Noted : (now : ℕ) (e : Engine) → Noted now e → Noted now (maybe_escalate now e).0
maybe_escalate-Noted now e h = elim (maybe_escalate-events now e) [
  | inl same ↦ subst (Timed now) (sym same) h
  | inr cut ↦ subst (Timed now) (sym cut) (prune-Noted now e h)
]

apply_suppression-events :
    (rule : CompiledRule) (now : ℕ) (e : Engine)
    → (apply_suppression rule now e).0.system_events ≡ e.system_events
unfolding apply_suppression suppress
apply_suppression-events rule now e = ground arith

system-Noted :
    (b : Bool) (now : ℕ) (e : Engine)
    → Noted now e
    → Noted now (if b then append_system_event now e else e)
system-Noted true now e h = append_system_event-Noted now e h
system-Noted false now e h = h

decide-Noted :
    (rule : CompiledRule) (cleaned file : Str) (now : ℕ) (e : Engine)
    → Noted now e
    → Noted now (decide rule cleaned file now e).0
unfolding decide next_id
decide-Noted rule cleaned file now e h =
    let a = (next_id e).0 in
    let b = (apply_suppression rule now a).0 in
    maybe_escalate-Noted now (if is_system rule.level then append_system_event now b else b) (
      system-Noted (is_system rule.level) now b
        (subst (Timed now) (sym (apply_suppression-events rule now a)) h))

matched-Noted :
    (o : Option CompiledRule) (cleaned file : Str) (now : ℕ) (e : Engine)
    → Noted now e
    → Noted now (evaluate_matched o cleaned file now e).0
unfolding evaluate_matched
matched-Noted none cleaned file now e h = h
matched-Noted (some rule) cleaned file now e h =
    if_elim (λ (r : Engine × List DecisionResult). Noted now r.0) (is_ignore rule.level)
      (λ ignored. h) (λ counts. decide-Noted rule cleaned file now e h)

evaluate-Noted :
    (line file : Str) (now : ℕ) (e : Engine) → Noted now e → Noted now (evaluate line file now e).0
unfolding evaluate
evaluate-Noted line file now e h =
    if_elim (λ (r : Engine × List DecisionResult). Noted now r.0) (is_empty (trim_space line))
      (λ blank. h)
      (λ full. matched-Noted (match_rule e.rules (trim_space line)) (trim_space line) file now e h)

-- The engine after lines, and the time of the last one.
unfoldable pub engine_after : List Line → Engine → Engine
engine_after [] e = e
engine_after (l ∷ ls) e = engine_after ls (evaluate l.text l.file l.at e).0

abbrev pub last_time : ℕ → List Line → ℕ
last_time now [] = now
last_time now (l ∷ ls) = last_time l.at ls

-- The lines come in the order of their times, none before `now`.
abbrev pub InOrder : ℕ → List Line → Type 0
InOrder now [] = Unit
InOrder now (l ∷ ls) = (now ≤ l.at) × InOrder l.at ls

-- If the noted events are in the order of their times and none is after `now`, and lines follow in the
-- order of their times, then after them the noted events are again in order and none is after the last
-- line.
pub engine_after-Timed :
    (ls : List Line) (now : ℕ) (e : Engine)
    → InOrder now ls
    → Timed now e.system_events
    → Timed (last_time now ls) (engine_after ls e).system_events
unfolding engine_after
engine_after-Timed [] now e order h = h
engine_after-Timed (l ∷ ls) now e (le, order) h =
    engine_after-Timed ls l.at (evaluate l.text l.file l.at e).0 order
      (evaluate-Noted l.text l.file l.at e (later-Timed now l.at e.system_events le h))
