-- ===== src/Alert/Spacing.antt =====
-- go-watch-file/internal/alert/engine.go, applySuppressionLocked: the alerts of one rule that are
-- sent keep the rule's window between them.
use go_watch_file.Base.{
  ℕ, ◌+◌, ◌≤◌, ◌<◌, ◌≡◌, refl, sym, ap, ◌∙◌, subst, Bool, true, false, Option, none, some, List, [],
  ◌∷◌, ◌++◌, if◌then◌else◌, if_elim, All, All-append,
}
use go_watch_file.Base.Str.{Str, is_empty}
use go_watch_file.Base.Trim.{trim_space}
use go_watch_file.Base.Assoc.{lookup}
use go_watch_file.Alert.Types.{by_escalation, CompiledRule, DecisionResult, Engine}
use go_watch_file.Alert.Engine.{
  match_rule, apply_suppression, append_system_event, next_id, maybe_escalate, rule_result, decide,
  evaluate_matched, evaluate, is_system, is_ignore, with_escalation,
}
use go_watch_file.Alert.Run.{Line, run}
use go_watch_file.Alert.Stamps.{
  Alerted, Spaced, Windowed, Set, Since, Alike, append-Alike, Raised, maybe_escalate-Alike,
  match_rule-Windowed, apply_suppression-Stamped, Held, Stamped-Held,
}

-- What one line does to the alerts of the rule.
abbrev Steady : Str → ℕ → Engine → Engine × List DecisionResult → Type 0
Steady k w e r =
    Set k w r.0
    × ((t : ℕ) → Since k t e → Since k t r.0)
    × ((t : ℕ) → Since k t e → All (λ x. Alerted k x → t + w ≤ x.at) r.1)
    × Spaced k w r.1
    × All (λ x. Alerted k x → Since k x.at r.0) r.1

Alike-Set : (k : Str) (w : ℕ) (e f : Engine) → Alike e f → Set k w e → Set k w f
Alike-Set k w e f (a, b, c) (on, ws) = (a ∙ on, subst (Windowed k w) (sym b) ws)

Alike-Since : (k : Str) (t : ℕ) (e f : Engine) → Alike e f → Since k t e → Since k t f
Alike-Since k t e f (a, b, c) (last, l, le) = (last, ap (lookup k) c ∙ l, le)

Alike-trans : (e f g : Engine) → Alike e f → Alike f g → Alike e g
Alike-trans e f g (a, b, c) (a', b', c') = (a' ∙ a, b' ∙ b, c' ∙ c)

system-Alike :
    (b : Bool) (now : ℕ) (e : Engine) → Alike e (if b then append_system_event now e else e)
system-Alike true now e = append-Alike now e
system-Alike false now e = (refl, refl, refl)

-- The decision of the rule, and after it an escalation if there is one.
with_escalation-Steady :
    (k : Str) (w : ℕ) (rule : CompiledRule) (now : ℕ) (e f g : Engine) (x : DecisionResult)
    (o : Option DecisionResult)
    → x.at ≡ now
    → x.rule_id ≡ rule.id
    → Held k w rule now e f x.status
    → Alike f g
    → Raised o
    → Steady k w e (g, with_escalation x o)
with_escalation-Steady k w rule now e f g x o at id (set, later, apart, stamped) alike raised = (
  Alike-Set k w f g alike set,
  λ t since. Alike-Since k t f g alike (later t since),
  far o raised,
  spaced o raised,
  since o raised,
)
  where
    other : (d : DecisionResult) → d.explain.decision_kind ≡ by_escalation → ¬ Alerted k d
    other d e (m, r, st) = cc

    one : (t : ℕ) → Since k t e → Alerted k x → t + w ≤ x.at
    one t s (m, r, st) = subst (λ n. t + w ≤ n) (sym at) (apart t s (sym id ∙ r) st)

    far :
        (p : Option DecisionResult)
        → Raised p
        → (t : ℕ) → Since k t e
        → All (λ y. Alerted k y → t + w ≤ y.at) (with_escalation x p)
    far none r t s = (one t s, tt)
    far (some d) r t s = (one t s, (λ al. absurd (other d r al), tt))

    spaced : (p : Option DecisionResult) → Raised p → Spaced k w (with_escalation x p)
    spaced none r = (λ al. tt, tt)
    spaced (some d) r = (λ al. (λ al'. absurd (other d r al'), tt), (λ al. tt, tt))

    new : Alerted k x → Since k x.at g
    new (m, r, st) =
        subst (λ n. Since k n g) (sym at) (Alike-Since k now f g alike (stamped (sym id ∙ r) st))

    since :
        (p : Option DecisionResult)
        → Raised p
        → All (λ y. Alerted k y → Since k y.at g) (with_escalation x p)
    since none r = (new, tt)
    since (some d) r = (new, (λ al. absurd (other d r al), tt))

decide-Steady :
    (k : Str) (w : ℕ) (rule : CompiledRule) (cleaned file : Str) (now : ℕ) (e : Engine)
    → Set k w e
    → (rule.id ≡ k → rule.suppress_window ≡ w)
    → 0 < w
    → Steady k w e (decide rule cleaned file now e)
unfolding decide rule_result next_id
decide-Steady k w rule cleaned file now e set same pos =
    let a = (next_id e).0 in
    let b = (apply_suppression rule now a).0 in
    let c = if is_system rule.level then append_system_event now b else b in
    let m = maybe_escalate-Alike now c in
    let held =
      Stamped-Held k w rule now a b (apply_suppression rule now a).1.0 set same pos
        (apply_suppression-Stamped rule now a set.0) in
    with_escalation-Steady k w rule now a b (maybe_escalate now c).0 _ (maybe_escalate now c).1 refl
      refl held
      (Alike-trans b c (maybe_escalate now c).0 (system-Alike (is_system rule.level) now b) m.0) m.1

nothing-Steady : (k : Str) (w : ℕ) (e : Engine) → Set k w e → Steady k w e (e, [])
nothing-Steady k w e set = (set, λ t since. since, λ t since. tt, tt, tt)

matched-Steady :
    (k : Str) (w : ℕ) (o : Option CompiledRule) (cleaned file : Str) (now : ℕ) (e : Engine)
    → Set k w e
    → match_rule e.rules cleaned ≡ o
    → 0 < w
    → Steady k w e (evaluate_matched o cleaned file now e)
unfolding evaluate_matched
matched-Steady k w none cleaned file now e set m pos = nothing-Steady k w e set
matched-Steady k w (some rule) cleaned file now e set m pos =
    if_elim (Steady k w e) (is_ignore rule.level) (λ ignored. nothing-Steady k w e set)
      (λ counts.
        decide-Steady k w rule cleaned file now e set
          (match_rule-Windowed k w e.rules cleaned rule set.1 m) pos)

evaluate-Steady :
    (k : Str) (w : ℕ) (line file : Str) (now : ℕ) (e : Engine)
    → Set k w e
    → 0 < w
    → Steady k w e (evaluate line file now e)
unfolding evaluate
evaluate-Steady k w line file now e set pos =
    if_elim (Steady k w e) (is_empty (trim_space line)) (λ blank. nothing-Steady k w e set)
      (λ full.
        matched-Steady k w (match_rule e.rules (trim_space line)) (trim_space line) file now e set
          refl pos)

run-After :
    (k : Str) (w t : ℕ) (ls : List Line) (e : Engine)
    → Set k w e
    → 0 < w
    → Since k t e
    → All (λ x. Alerted k x → t + w ≤ x.at) (run ls e)
unfolding run
run-After k w t [] e set pos since = tt
run-After k w t (l ∷ ls) e set pos since =
    let (set', later, far, spaced, news) = evaluate-Steady k w l.text l.file l.at e set pos in
    All-append _ (evaluate l.text l.file l.at e).1 _ (far t since)
      (run-After k w t ls (evaluate l.text l.file l.at e).0 set' pos (later t since))

Spaced-append :
    (k : Str) (w : ℕ) (xs ys : List DecisionResult)
    → Spaced k w xs
    → Spaced k w ys
    → All (λ x. Alerted k x → All (λ y. Alerted k y → x.at + w ≤ y.at) ys) xs
    → Spaced k w (xs ++ ys)
Spaced-append k w [] ys sx sy cross = sy
Spaced-append k w (x ∷ xs) ys (far, sx) sy (here, cross) =
    (λ al. All-append _ xs ys (far al) (here al), Spaced-append k w xs ys sx sy cross)

afterwards :
    (k : Str) (w : ℕ) (ls : List Line) (e : Engine) (xs : List DecisionResult)
    → Set k w e
    → 0 < w
    → All (λ x. Alerted k x → Since k x.at e) xs
    → All (λ x. Alerted k x → All (λ y. Alerted k y → x.at + w ≤ y.at) (run ls e)) xs
afterwards k w ls e [] set pos news = tt
afterwards k w ls e (x ∷ xs) set pos (n, news) =
    (λ al. run-After k w x.at ls e set pos (n al), afterwards k w ls e xs set pos news)

-- While the suppression is on, if every rule with the id `k` has the window `w`, not 0: over any
-- lines, any two alerts of the rule that are sent are at least the window apart, the later in the
-- order of the lines the later in time.
pub run-Spaced :
    (k : Str) (w : ℕ) (ls : List Line) (e : Engine)
    → e.suppression_enabled ≡ true
    → Windowed k w e.rules
    → 0 < w
    → Spaced k w (run ls e)
unfolding run
run-Spaced k w [] e on ws pos = tt
run-Spaced k w (l ∷ ls) e on ws pos =
    let ((on', ws'), later, far, spaced, news) =
      evaluate-Steady k w l.text l.file l.at e (on, ws) pos in
    let g = (evaluate l.text l.file l.at e).0 in
    Spaced-append k w (evaluate l.text l.file l.at e).1 _ spaced (run-Spaced k w ls g on' ws' pos)
      (afterwards k w ls g _ (on', ws') pos news)
