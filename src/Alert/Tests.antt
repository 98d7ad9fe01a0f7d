-- ===== src/Alert/Tests.antt =====
-- go-watch-file/internal/alert: the engine, the state and the tailer on concrete lines.
use go_watch_file.Base.{
  ℕ, ◌≤◌, ◌≡◌, refl, true, false, not, ◌&&◌, List, [], ◌∷◌, ◌++◌, leb, length, arith,
}
use mathlib.Core.List.{map}
use go_watch_file.Base.Str.{Str, bytes}
use go_watch_file.Base.Trim.{trim_space}
use go_watch_file.Alert.Types.{
  system, fatal, DecisionStatus, CompiledRule, CompiledEscalation, Engine,
}
use go_watch_file.Alert.Engine.{new_engine, maybe_escalate}
use go_watch_file.Alert.Run.{Line, run}
use go_watch_file.Alert.Spacing.{run-Spaced}
use go_watch_file.Alert.Stamps.{Spaced}
use go_watch_file.Alert.Escalation.{recent, is_raised, maybe_escalate-Raises}
use go_watch_file.Alert.Times.{Timed, engine_after, engine_after-Timed}
use go_watch_file.Alert.State.{
  record_all, new_state, newest, alert_record, max_decision_records, count_status, count_in,
  record_all-Newest,
}
use go_watch_file.Alert.Tailer.{fresh_cursor, read_file, deliver}
use go_watch_file.Alert.Lines.{ended}
use go_watch_file.Alert.Growth.{poll_all_complete}
use go_watch_file.Alert.Polls.{Weather, stat_fails, read_fails, clear, look_at, poll_all, grown}

abbrev demo_rule : CompiledRule
demo_rule = record {
  id = bytes "r";
  title = bytes "panic";
  level = system;
  keywords = bytes "panic" ∷ [];
  excludes = [];
  match_case = true;
  suppress_window = 300;
  notify = true;
}

abbrev demo_escalation : CompiledEscalation
demo_escalation = record {
  enabled = true;
  level = fatal;
  threshold = 2;
  window = 100;
  suppress_window = 100;
  rule_id = bytes "system_spike";
  title = bytes "spike";
  message = bytes "spike";
}

abbrev demo_engine : Engine
unfolding new_engine
demo_engine = new_engine (demo_rule ∷ []) demo_escalation

abbrev line_at : ℕ → Line
line_at t = record { text = bytes "panic: x"; file = bytes "/l"; at = t }

abbrev demo_lines : List Line
demo_lines = line_at 10 ∷ line_at 20 ∷ line_at 400 ∷ []

run-Spaced_example : Spaced (bytes "r") 300 (run demo_lines demo_engine)
unfolding new_engine
run-Spaced_example =
    run-Spaced (bytes "r") 300 demo_lines demo_engine refl ((λ e. refl), tt) (omega arith)

-- Two events within the window, and none was raised yet.
abbrev busy_engine : Engine
unfolding new_engine
busy_engine = record demo_engine { system_events = 10 ∷ 60 ∷ 90 ∷ [] }

maybe_escalate-Raises_example :
    (is_raised (maybe_escalate 120 busy_engine).1
      ≡ (leb 2 (recent 100 120 (10 ∷ 60 ∷ 90 ∷ [])) && not false))
    × ((maybe_escalate 120 busy_engine).0.escalation_active
        ≡ leb 2 (recent 100 120 (10 ∷ 60 ∷ 90 ∷ [])))
unfolding new_engine
maybe_escalate-Raises_example =
    maybe_escalate-Raises 120 busy_engine refl (omega arith) (omega arith)
      ((omega arith, (omega arith, tt)), ((omega arith, tt), (tt, tt)))

record_all-Newest_example :
    ((record_all (run demo_lines demo_engine) new_state).records
      ≡ newest (map alert_record (run demo_lines demo_engine)))
    × (length (record_all (run demo_lines demo_engine) new_state).records ≤ max_decision_records)
    × ((x : DecisionStatus)
        → count_in x (record_all (run demo_lines demo_engine) new_state)
          ≡ count_status x (run demo_lines demo_engine))
record_all-Newest_example = record_all-Newest (run demo_lines demo_engine)

-- A line comes in two pieces, and a poll between them fails.
abbrev demo_polls : List (Str × Weather)
demo_polls =
    (bytes "a", clear)
    ∷ (b'b' ∷ b'\r' ∷ b'\n' ∷ bytes "c", read_fails)
    ∷ (bytes "d", stat_fails)
    ∷ []

poll_all_complete_example :
    (poll_all (bytes "/l") demo_polls [] fresh_cursor).1
      ++ (read_file false
          (bytes "/l")
          (look_at clear (grown demo_polls [] ++ b'\n' ∷ []))
          (poll_all (bytes "/l") demo_polls [] fresh_cursor).0).1
    ≡ deliver (ended (grown demo_polls [] ++ b'\n' ∷ []))
unfolding trim_space
poll_all_complete_example = poll_all_complete (bytes "/l") demo_polls (b'\n' ∷ []) refl

engine_after-Timed_example : Timed 400 (engine_after demo_lines demo_engine).system_events
unfolding new_engine
engine_after-Timed_example =
    engine_after-Timed demo_lines 0 demo_engine (omega arith, (omega arith, (omega arith, tt)))
      (tt, tt)
