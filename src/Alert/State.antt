-- ===== src/Alert/State.antt =====
-- go-watch-file/internal/alert/state.go: the record of the decisions and their counts (`Record`). The
-- analysis and the knowledge trace of a record, which other operations add, are left out.
use go_watch_file.Base.{
  ℕ, ◌+◌, ◌-◌, ◌≤◌, ◌≡◌, refl, sym, ap, ◌∙◌, subst, List, [], ◌∷◌, ◌++◌, arith, if◌then◌else◌,
  if_elim, ltb, length, drop, length-append, length-drop,
}
use mathlib.Core.List.{map, append-nil, append_assoc}
use go_watch_file.Base.Str.{Str}
use go_watch_file.Base.Newest.{drop-drop, drop-append}
use go_watch_file.Alert.Types.{
  Level, DecisionStatus, sent, suppressed, recorded, DecisionExplain, DecisionResult,
}

unfoldable pub max_decision_records : ℕ
max_decision_records = 200

pub record AlertRecord : Type 0 where
  pub id : Str
  pub at : ℕ
  pub level : Level
  pub rule : Str
  pub message : Str
  pub file : Str
  pub status : DecisionStatus
  pub reason : Str
  pub explain : DecisionExplain

pub record Stats : Type 0 where
  pub sent_count : ℕ
  pub suppressed_count : ℕ
  pub recorded_count : ℕ

pub record State : Type 0 where
  pub records : List AlertRecord
  pub stats : Stats

unfoldable pub new_state : State
new_state = record {
  records = [];
  stats = record { sent_count = 0; suppressed_count = 0; recorded_count = 0 };
}

unfoldable pub alert_record : DecisionResult → AlertRecord
alert_record d = record {
  id = d.id;
  at = d.at;
  level = d.level;
  rule = d.rule;
  message = d.message;
  file = d.file;
  status = d.status;
  reason = d.reason;
  explain = d.explain;
}

unfoldable pub counted : DecisionStatus → Stats → Stats
counted sent s = record s { sent_count = s.sent_count + 1 }
counted suppressed s = record s { suppressed_count = s.suppressed_count + 1 }
counted recorded s = record s { recorded_count = s.recorded_count + 1 }

-- `Record`.
unfoldable pub record_result : DecisionResult → State → State
unfolding max_decision_records
record_result d s =
    let all = s.records ++ (alert_record d ∷ []) in
    record {
      records =
          if ltb max_decision_records (length all)
          then drop (length all - max_decision_records) all
          else all;
      stats = counted d.status s.stats;
    }

unfoldable pub record_all : List DecisionResult → State → State
record_all [] s = s
record_all (d ∷ ds) s = record_all ds (record_result d s)

abbrev has_status : DecisionStatus → DecisionStatus → ℕ
has_status sent sent = 1
has_status suppressed suppressed = 1
has_status recorded recorded = 1
has_status _ _ = 0

-- How many decisions have the status.
abbrev pub count_status : DecisionStatus → List DecisionResult → ℕ
count_status s [] = 0
count_status s (d ∷ ds) = has_status s d.status + count_status s ds

-- The newest of the records, at most as many as are kept.
abbrev pub newest {ℓ} : {A : Type ℓ} → List A → List A
newest xs = drop (length xs - max_decision_records) xs

module _ {ℓ} {A : Type ℓ} where
  -- Keeping the newest of what is kept and of what comes is keeping the newest of all.
  newest-newest : (xs ys : List A) → newest (newest xs ++ ys) ≡ newest (xs ++ ys)
  unfolding max_decision_records
  newest-newest xs ys =
      let k = length xs - 200 in
      let cut : drop k xs ++ ys ≡ drop k (xs ++ ys) = sym (drop-append k xs ys (omega arith)) in
      ap newest cut
      ∙ drop-drop _ k (xs ++ ys)
      ∙ ap (λ n. drop n (xs ++ ys)) (omega (arith, length-drop k (xs ++ ys), length-append xs ys))

  newest-bound : (xs : List A) → length (newest xs) ≤ max_decision_records
  unfolding max_decision_records
  newest-bound xs = omega (arith, length-drop (length xs - 200) xs)

  cut-newest :
      (xs : List A)
      → (if ltb max_decision_records (length xs)
          then drop (length xs - max_decision_records) xs
          else xs)
        ≡ newest xs
  unfolding max_decision_records
  cut-newest xs =
      if_elim (λ r. r ≡ newest xs) (ltb 200 (length xs)) (λ over. refl)
        (λ within.
          let none_cut : 0 ≡ length xs - 200 = ground (arith, within) in
          ap (λ n. drop n xs) none_cut)

record_all-from :
    (ds : List DecisionResult) (olds : List AlertRecord) (s : State)
    → s.records ≡ newest olds
    → (record_all ds s).records ≡ newest (olds ++ map alert_record ds)
unfolding record_all record_result
record_all-from [] olds s e = e ∙ ap newest (sym (append-nil olds))
record_all-from (d ∷ ds) olds s e =
    record_all-from ds (olds ++ (alert_record d ∷ [])) (record_result d s) (
      cut-newest (s.records ++ (alert_record d ∷ []))
      ∙ ap (λ r. newest (r ++ (alert_record d ∷ []))) e
      ∙ newest-newest olds (alert_record d ∷ []))
    ∙ ap newest (append_assoc olds (alert_record d ∷ []) (map alert_record ds))

-- The counts of a state, for each status.
abbrev pub of_stats : DecisionStatus → Stats → ℕ
of_stats sent c = c.sent_count
of_stats suppressed c = c.suppressed_count
of_stats recorded c = c.recorded_count

abbrev pub count_in : DecisionStatus → State → ℕ
count_in x s = of_stats x s.stats

counted-of_stats :
    (x y : DecisionStatus) (c : Stats) → of_stats x (counted y c) ≡ of_stats x c + has_status x y
unfolding counted
counted-of_stats sent sent c = refl
counted-of_stats sent suppressed c = omega arith
counted-of_stats sent recorded c = omega arith
counted-of_stats suppressed sent c = omega arith
counted-of_stats suppressed suppressed c = refl
counted-of_stats suppressed recorded c = omega arith
counted-of_stats recorded sent c = omega arith
counted-of_stats recorded suppressed c = omega arith
counted-of_stats recorded recorded c = refl

record_result-count_in :
    (x : DecisionStatus) (d : DecisionResult) (s : State)
    → count_in x (record_result d s) ≡ count_in x s + has_status x d.status
unfolding record_result
record_result-count_in x d s = counted-of_stats x d.status s.stats

record_all-count_in :
    (x : DecisionStatus) (ds : List DecisionResult) (s : State)
    → count_in x (record_all ds s) ≡ count_in x s + count_status x ds
unfolding record_all
record_all-count_in x [] s = omega arith
record_all-count_in x (d ∷ ds) s =
    omega (arith, record_all-count_in x ds (record_result d s), record_result-count_in x d s)

-- After any decisions, the state shows the newest 200 of them in their order, no more, and for each
-- status the number of all the decisions that had it.
pub record_all-Newest :
    (ds : List DecisionResult)
    → ((record_all ds new_state).records ≡ newest (map alert_record ds))
      × (length (record_all ds new_state).records ≤ max_decision_records)
      × ((x : DecisionStatus) → count_in x (record_all ds new_state) ≡ count_status x ds)
unfolding new_state max_decision_records
record_all-Newest ds =
    let same = record_all-from ds [] new_state refl in
    (
      same,
      subst (λ r. length r ≤ max_decision_records) (sym same) (newest-bound (map alert_record ds)),
      λ x. record_all-count_in x ds new_state ∙ from_zero x,
    )
  where
    from_zero : (x : DecisionStatus) → count_in x new_state + count_status x ds ≡ count_status x ds
    from_zero sent = omega arith
    from_zero suppressed = omega arith
    from_zero recorded = omega arith
