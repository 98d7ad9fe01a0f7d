-- ===== src/Alert/Escalation.antt =====
-- go-watch-file/internal/alert/engine.go, pruneSystemEventsLocked, maybeEscalateLocked: when the
-- engine raises an escalation.
use go_watch_file.Base.{
  ℕ, ◌+◌, ◌≤◌, ◌<◌, ◌≡◌, refl, Bool, true, false, not, ◌&&◌, ◌||◌, Option, none, some, List, [],
  ◌∷◌, inl, inr, arith, if◌then◌else◌, if_elim, Bool-cases, leb, ◌==◌, All, length,
}
use go_watch_file.Alert.Types.{Engine, DecisionResult}
use go_watch_file.Alert.Engine.{cut_before, prune_system_events, maybe_escalate, next_id}

-- Times that never go down.
abbrev pub Ascending : List ℕ → Type 0
Ascending [] = Unit
Ascending (t ∷ ts) = All (λ u. t ≤ u) ts × Ascending ts

-- How many of the times are within the window before `now`.
abbrev pub recent : ℕ → ℕ → List ℕ → ℕ
recent window now [] = 0
recent window now (t ∷ ts) = (if leb now (t + window) then 1 else 0) + recent window now ts

recent-All :
    (window now t : ℕ) (ts : List ℕ)
    → now ≤ t + window
    → All (λ u. t ≤ u) ts
    → recent window now ts ≡ length ts
recent-All window now t [] le later = refl
recent-All window now t (u ∷ ts) le later =
    ground (arith, later.0, recent-All window now t ts le later.1)

-- In times that never go down, the cut leaves exactly the recent ones.
cut_before-recent :
    (window now : ℕ) (ts : List ℕ)
    → Ascending ts
    → length (cut_before window now ts) ≡ recent window now ts
unfolding cut_before
cut_before-recent window now [] up = refl
cut_before-recent window now (t ∷ ts) up = elim (Bool-cases (leb now (t + window))) [
  | inl fresh ↦
      let rest = recent-All window now t ts (ground (arith, fresh)) up.0 in
      ground (arith, fresh, rest)
  | inr stale ↦ ground (arith, stale, cut_before-recent window now ts up.1)
]

prune-recent :
    (now : ℕ) (e : Engine)
    → 0 < e.escalation.window
    → Ascending e.system_events
    → length (prune_system_events now e).system_events
      ≡ recent e.escalation.window now e.system_events
unfolding prune_system_events
prune-recent now e pos up =
    if_elim
      (λ (f : Engine). length f.system_events ≡ recent e.escalation.window now e.system_events)
      (e.escalation.window == 0 || length e.system_events == 0)
      (λ bare. none_left e.system_events (ground (arith, bare, pos)))
      (λ full. cut_before-recent e.escalation.window now e.system_events up)
  where
    none_left : (ts : List ℕ) → length ts ≡ 0 → length ts ≡ recent e.escalation.window now ts
    none_left [] h = refl
    none_left (t ∷ ts) h = absurd (omega (arith, h))

abbrev pub is_raised : Option DecisionResult → Bool
is_raised none = false
is_raised (some d) = true

-- What the pruning leaves alone.
prune-rest :
    (now : ℕ) (e : Engine)
    → ((prune_system_events now e).escalation ≡ e.escalation)
      × ((prune_system_events now e).escalation_active ≡ e.escalation_active)
unfolding prune_system_events
prune-rest now e = ground arith

-- If escalation is enabled with a threshold and a window that are not 0, and the noted events are in
-- the order of their times: an escalation is raised exactly if at least the threshold of them are
-- within the window before `now` and none was raised since this was last not so; afterwards the
-- engine notes whether it is so.
pub maybe_escalate-Raises :
    (now : ℕ) (e : Engine)
    → e.escalation.enabled ≡ true
    → 0 < e.escalation.threshold
    → 0 < e.escalation.window
    → Ascending e.system_events
    → (is_raised (maybe_escalate now e).1 ≡ (
        leb e.escalation.threshold (recent e.escalation.window now e.system_events)
        && not e.escalation_active))
      × ((maybe_escalate now e).0.escalation_active
          ≡ leb e.escalation.threshold (recent e.escalation.window now e.system_events))
unfolding maybe_escalate next_id
maybe_escalate-Raises now e on some_threshold pos up =
    let left = prune-recent now e pos up in
    let rest = prune-rest now e in ground (arith, left, rest)
