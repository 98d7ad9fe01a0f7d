-- ===== src/Alert/Stamps.antt =====
-- go-watch-file/internal/alert/engine.go, applySuppressionLocked: the time of the last alert of a rule,
-- and what each call of the engine does to it.
use go_watch_file.Base.{
  ℕ, ◌+◌, ◌≤◌, ◌<◌, ◌≡◌, ◌≢◌, refl, sym, ◌∙◌, subst, true, not, Option, none, some, List, [], ◌∷◌,
  ◌⊎◌, inl, inr, arith, if_elim, Bool-cases, ltb, ◌==◌, All,
}
use go_watch_file.Base.Str.{Str, str_eq, str_eq_iff, str_eq_refl}
use go_watch_file.Base.Assoc.{lookup, insert, lookup-insert}
use go_watch_file.Alert.Types.{
  DecisionStatus, sent, SuppressedBy, rule_match, by_escalation, CompiledRule, DecisionResult,
  Engine,
}
use go_watch_file.Alert.Engine.{
  match_rule, suppress, apply_suppression, append_system_event, prune_system_events, next_id,
  maybe_escalate,
}

-- A decision that the rule `k` made and that is sent.
abbrev pub Alerted : Str → DecisionResult → Type 0
Alerted k d = (d.explain.decision_kind ≡ rule_match) × (d.rule_id ≡ k) × (d.status ≡ sent)

-- Two sent alerts of the rule have at least the window between them.
abbrev pub Spaced : Str → ℕ → List DecisionResult → Type 0
Spaced k w [] = Unit
Spaced k w (d ∷ ds) = (Alerted k d → All (λ x. Alerted k x → d.at + w ≤ x.at) ds) × Spaced k w ds

-- Every rule with the id has this window.
abbrev pub Windowed : Str → ℕ → List CompiledRule → Type 0
Windowed k w rules = All (λ (r : CompiledRule). r.id ≡ k → r.suppress_window ≡ w) rules

-- What the alerts of the rule rest on while lines are read: the setting and the rules stay.
abbrev pub Set : Str → ℕ → Engine → Type 0
Set k w e = (e.suppression_enabled ≡ true) × Windowed k w e.rules

-- The last alert of the rule is not before `t`.
abbrev pub Since : Str → ℕ → Engine → Type 0
Since k t e = (last : ℕ) × (lookup k e.last_alert ≡ some last) × (t ≤ last)

-- What the suppression reads is the same.
abbrev pub Alike : Engine → Engine → Type 0
Alike e f =
    (f.suppression_enabled ≡ e.suppression_enabled)
    × (f.rules ≡ e.rules)
    × (f.last_alert ≡ e.last_alert)

pub next_id-Alike : (e : Engine) → Alike e (next_id e).0
unfolding next_id
next_id-Alike e = (refl, refl, refl)

pub prune-Alike : (now : ℕ) (e : Engine) → Alike e (prune_system_events now e)
unfolding prune_system_events
prune-Alike now e = ground arith

pub append-Alike : (now : ℕ) (e : Engine) → Alike e (append_system_event now e)
unfolding append_system_event prune_system_events
append-Alike now e = ground arith

-- An escalation is no alert of a rule.
abbrev pub Raised : Option DecisionResult → Type 0
Raised none = Unit
Raised (some d) = d.explain.decision_kind ≡ by_escalation

pub maybe_escalate-Alike :
    (now : ℕ) (e : Engine) → Alike e (maybe_escalate now e).0 × Raised (maybe_escalate now e).1
unfolding maybe_escalate prune_system_events next_id
maybe_escalate-Alike now e = ground arith

pub match_rule-Windowed :
    (k : Str) (w : ℕ) (rules : List CompiledRule) (line : Str) (r : CompiledRule)
    → Windowed k w rules
    → match_rule rules line ≡ some r
    → r.id ≡ k
    → r.suppress_window ≡ w
unfolding match_rule
match_rule-Windowed k w [] line r h e same = cc
match_rule-Windowed k w (x ∷ rules) line r h e same =
    ground (arith, h.0, match_rule-Windowed k w rules line r h.1)

-- With the suppression on, either nothing is sent and nothing is written, or the time is written and
-- the last alert is at least the window ago.
abbrev pub Stamped : CompiledRule → ℕ → Engine → Engine → DecisionStatus → Type 0
Stamped rule now e f status =
    ((f ≡ e) × (status ≢ sent))
    ⊎ ((f.suppression_enabled ≡ true)
        × (f.rules ≡ e.rules)
        × (f.last_alert ≡ insert rule.id now e.last_alert)
        × (0 < rule.suppress_window
            → (last : ℕ) → lookup rule.id e.last_alert ≡ some last
            → last + rule.suppress_window ≤ now))

pub some_eq : (a b : ℕ) → ◌≡◌ {A = Option ℕ} (some a) (some b) → a ≡ b
some_eq a b e = cc

abbrev pub Ruled :
    CompiledRule → ℕ → Engine → Engine × (DecisionStatus × Str × Option SuppressedBy) → Type 0
Ruled rule now e r = Stamped rule now e r.0 r.1.0

pub suppress-Stamped :
    (o : Option ℕ) (rule : CompiledRule) (now : ℕ) (e : Engine)
    → e.suppression_enabled ≡ true
    → lookup rule.id e.last_alert ≡ o
    → Ruled rule now e (suppress o rule now e)
unfolding suppress
suppress-Stamped none rule now e on l = inr (on, refl, refl, λ pos last l'. cc)
suppress-Stamped (some a) rule now e on l =
    if_elim (Ruled rule now e) (ltb now (a + rule.suppress_window)) (λ soon. inl (refl, λ x. cc))
      (λ late. inr (
        on,
        refl,
        refl,
        λ pos last l'. let same = some_eq a last (sym l ∙ l') in ground (arith, same, late),
      ))

pub apply_suppression-Stamped :
    (rule : CompiledRule) (now : ℕ) (e : Engine)
    → e.suppression_enabled ≡ true
    → Ruled rule now e (apply_suppression rule now e)
unfolding apply_suppression
apply_suppression-Stamped rule now e on =
    if_elim (Ruled rule now e) (not rule.notify) (λ mute. inl (refl, λ x. cc))
      (λ loud.
        if_elim (Ruled rule now e) (not e.suppression_enabled) (λ off. ground arith)
          (λ still.
            if_elim (Ruled rule now e) (rule.suppress_window == 0)
              (λ bare. inr (on, refl, refl, λ pos last l. ground arith))
              (λ windowed. suppress-Stamped (lookup rule.id e.last_alert) rule now e on refl)))

abbrev pub Held : Str → ℕ → CompiledRule → ℕ → Engine → Engine → DecisionStatus → Type 0
Held k w rule now e f status =
    Set k w f
    × ((t : ℕ) → Since k t e → Since k t f)
    × ((t : ℕ) → Since k t e → rule.id ≡ k → status ≡ sent → t + w ≤ now)
    × (rule.id ≡ k → status ≡ sent → Since k now f)

pub Stamped-Held :
    (k : Str) (w : ℕ) (rule : CompiledRule) (now : ℕ) (e f : Engine) (status : DecisionStatus)
    → Set k w e
    → (rule.id ≡ k → rule.suppress_window ≡ w)
    → 0 < w
    → Stamped rule now e f status
    → Held k w rule now e f status
Stamped-Held k w rule now e f status set same pos (inl (eq, unsent)) = (
  subst (Set k w) (sym eq) set,
  λ t since. subst (Since k t) (sym eq) since,
  λ t since id s. absurd (unsent s),
  λ id s. absurd (unsent s),
)
Stamped-Held k w rule now e f status set same pos (inr (on, rs, l, ago)) =
    ((on, subst (Windowed k w) (sym rs) set.1), later, apart, stamped)
  where
    ours : rule.id ≡ k → lookup k f.last_alert ≡ some now
    ours id = rw (l, lookup-insert, id, str_eq_refl) refl

    apart : (t : ℕ) → Since k t e → rule.id ≡ k → status ≡ sent → t + w ≤ now
    apart t (last, at, le) id s =
        let far = ago (rw (same id) pos) last (rw id at) in omega (arith, same id)

    stamped : rule.id ≡ k → status ≡ sent → Since k now f
    stamped id s = (now, ours id, omega arith)

    later : (t : ℕ) → Since k t e → Since k t f
    later t (last, at, le) = elim (Bool-cases (str_eq rule.id k)) [
      | inl hit ↦
          let id = (str_eq_iff rule.id k).0 hit in
          let far = ago (rw (same id) pos) last (rw id at) in (now, ours id, omega (arith, same id))
      | inr miss ↦ (last, rw l (lookup-insert rule.id k now e.last_alert ∙ rw miss at), le)
    ]
