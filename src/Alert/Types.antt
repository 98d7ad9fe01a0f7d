-- ===== src/Alert/Types.antt =====
-- go-watch-file/internal/alert/types.go, engine.go: the data of the rule engine.
use go_watch_file.Base.{ℕ, Bool, Option, List}
use go_watch_file.Base.Str.{Str}

pub data Level : Type 0 where
  ignore : Level
  business : Level
  system : Level
  fatal : Level

pub data DecisionStatus : Type 0 where
  sent : DecisionStatus
  suppressed : DecisionStatus
  recorded : DecisionStatus

pub data DecisionKind : Type 0 where
  rule_match : DecisionKind
  by_escalation : DecisionKind

pub data SuppressedBy : Type 0 where
  rule_window : SuppressedBy
  escalation_window : SuppressedBy

pub record DecisionExplain : Type 0 where
  pub decision_kind : DecisionKind
  pub notify : Bool
  pub suppression_enabled : Bool
  pub suppress_window : Str
  pub suppressed_by : Option SuppressedBy
  pub escalation_threshold : ℕ
  pub escalation_window : Str
  pub escalation_count : ℕ

pub record CompiledRule : Type 0 where
  pub id : Str
  pub title : Str
  pub level : Level
  pub keywords : List Str
  pub excludes : List Str
  pub match_case : Bool
  pub suppress_window : ℕ
  pub notify : Bool

pub record CompiledEscalation : Type 0 where
  pub enabled : Bool
  pub level : Level
  pub threshold : ℕ
  pub window : ℕ
  pub suppress_window : ℕ
  pub rule_id : Str
  pub title : Str
  pub message : Str

pub record DecisionResult : Type 0 where
  pub id : Str
  pub rule_id : Str
  pub rule : Str
  pub level : Level
  pub file : Str
  pub message : Str
  pub at : ℕ
  pub status : DecisionStatus
  pub reason : Str
  pub explain : DecisionExplain

pub record Engine : Type 0 where
  pub rules : List CompiledRule
  pub escalation : CompiledEscalation
  pub last_alert : List (Str × ℕ)
  pub system_events : List ℕ
  pub escalation_active : Bool
  pub last_escalation_at : ℕ
  pub suppression_enabled : Bool
  pub seq : ℕ
