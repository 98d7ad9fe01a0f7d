-- ===== src/Alert/Run.antt =====
-- go-watch-file/internal/alert/engine.go, manager.go: the engine over the lines that the tailer hands
-- it, each with its file and its time.
use go_watch_file.Base.{ℕ, List, [], ◌∷◌, ◌++◌}
use go_watch_file.Base.Str.{Str}
use go_watch_file.Alert.Types.{Engine, DecisionResult}
use go_watch_file.Alert.Engine.{evaluate}

pub record Line : Type 0 where
  pub text : Str
  pub file : Str
  pub at : ℕ

unfoldable pub run : List Line → Engine → List DecisionResult
run [] e = []
run (l ∷ ls) e = (evaluate l.text l.file l.at e).1 ++ run ls (evaluate l.text l.file l.at e).0
