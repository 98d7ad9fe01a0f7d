-- ===== src/Kb/Status.antt =====
-- go-watch-file/internal/kb/service.go: the statuses of an article and the moves between them.
use go_watch_file.Base.{
  ◌≡◌, refl, sym, ap, ◌∙◌, Bool, true, false, inl, inr, arith, Bool-cases, if_elim, if◌then◌else◌,
  ◌⊎◌, ◌≢◌, ◌||◌,
}
use go_watch_file.Base.Str.{Str, bytes, str_eq, str_eq→eq, is_empty}
use go_watch_file.Base.Trim.Lower.{lower-trim_idem, is_plain, lower-trim_plain}
use go_watch_file.Kb.Types.{status_draft, status_reviewing, status_published, status_archived}
use go_watch_file.Kb.Normal.{
  lower_trim, normalize_article_status, normalize_article_status_or_draft, is_kb_action_allowed,
}
use go_watch_file.Kb.Writes.{next_status}

pub lower_trim_idem : (s : Str) → lower_trim (lower_trim s) ≡ lower_trim s
unfolding lower_trim
lower_trim_idem s = lower-trim_idem s

-- The tests of normalizeArticleStatus on a text in lower case.
abbrev pick : Str → Str
pick s =
    if is_empty s
    then status_draft
    else if str_eq s status_draft
    then status_draft
    else if str_eq s status_reviewing || str_eq s (bytes "pending_review")
    then status_reviewing
    else if str_eq s status_published
    then status_published
    else if str_eq s status_archived
    then status_archived
    else s

pick_lem : (raw : Str) → normalize_article_status_or_draft raw ≡ pick (lower_trim raw)
unfolding normalize_article_status_or_draft normalize_article_status
pick_lem raw = ground arith

abbrev Known : Str → Str → Type 0
Known s p =
    (p ≡ status_draft)
    ⊎ ((p ≡ status_reviewing) ⊎ ((p ≡ status_published) ⊎ ((p ≡ status_archived) ⊎ (p ≡ s))))

pick-Known : (s : Str) → Known s (pick s)
pick-Known s =
    if_elim (Known s) (is_empty s) (λ _. inl refl)
      (λ _.
        if_elim (Known s) (str_eq s status_draft) (λ _. inl refl)
          (λ _.
            if_elim (Known s) (str_eq s status_reviewing || str_eq s (bytes "pending_review"))
              (λ _. inr (inl refl))
              (λ _.
                if_elim (Known s) (str_eq s status_published) (λ _. inr (inr (inl refl)))
                  (λ _.
                    if_elim (Known s) (str_eq s status_archived) (λ _. inr (inr (inr (inl refl))))
                      (λ _. inr (inr (inr (inr refl))))))))

plain_word : (s : Str) → is_plain s ≡ true → lower_trim s ≡ s
unfolding lower_trim
plain_word s h = lower-trim_plain s h

lower_trim-pick : (s : Str) → lower_trim s ≡ s → lower_trim (pick s) ≡ pick s
unfolding is_plain
lower_trim-pick s e = elim (pick-Known s) [
  | inl p ↦ rw p (plain_word status_draft refl)
  | inr (inl p) ↦ rw p (plain_word status_reviewing refl)
  | inr (inr (inl p)) ↦ rw p (plain_word status_published refl)
  | inr (inr (inr (inl p))) ↦ rw p (plain_word status_archived refl)
  | inr (inr (inr (inr p))) ↦ ap lower_trim p ∙ e ∙ sym p
]

pick_idem : (s : Str) → pick (pick s) ≡ pick s
unfolding str_eq
pick_idem s = elim (pick-Known s) [
  | inl p ↦ ap pick p ∙ sym p
  | inr (inl p) ↦ ap pick p ∙ sym p
  | inr (inr (inl p)) ↦ ap pick p ∙ sym p
  | inr (inr (inr (inl p))) ↦ ap pick p ∙ sym p
  | inr (inr (inr (inr p))) ↦ ap pick p
]

-- Normalising a status twice is normalising it once.
pub status_idem :
    (raw : Str)
    → normalize_article_status_or_draft (normalize_article_status_or_draft raw)
      ≡ normalize_article_status_or_draft raw
status_idem raw =
    pick_lem _
    ∙ ap (λ s. pick (lower_trim s)) (pick_lem raw)
    ∙ ap pick (lower_trim-pick (lower_trim raw) (lower_trim_idem raw))
    ∙ pick_idem (lower_trim raw)
    ∙ sym (pick_lem raw)

-- The moves that isKBActionAllowed allows.
pub data Move : Str → Str → Str → Type 0 where
  submit : Move (bytes "submit") status_draft status_reviewing
  approve : Move (bytes "approve") status_reviewing status_published
  reject : Move (bytes "reject") status_reviewing status_draft
  archive_draft : Move (bytes "archive") status_draft status_archived
  archive_reviewing : Move (bytes "archive") status_reviewing status_archived
  archive_published : Move (bytes "archive") status_published status_archived

-- The tests of isKBActionAllowed on what it has normalised.
abbrev allowed : Str → Str → Bool
allowed s a =
    if str_eq a (bytes "submit")
    then str_eq s status_draft
    else if str_eq a (bytes "approve") || str_eq a (bytes "reject")
    then str_eq s status_reviewing
    else if str_eq a (bytes "archive")
    then str_eq s status_draft || str_eq s status_reviewing || str_eq s status_published
    else false

allowed_lem :
    (s a : Str)
    → normalize_article_status_or_draft s ≡ s
    → lower_trim a ≡ a
    → is_kb_action_allowed s a ≡ allowed s a
unfolding is_kb_action_allowed
allowed_lem s a es ea = rw (es, ea) refl

along : (a b s p : Str) → a ≡ b → s ≡ p → Move b p (next_status b p) → Move a s (next_status a s)
along a b s p ea es m = rw (ea, es) m

archive-Move :
    (s : Str)
    → (str_eq s status_draft || str_eq s status_reviewing || str_eq s status_published) ≡ true
    → Move (bytes "archive") s (next_status (bytes "archive") s)
unfolding next_status str_eq
archive-Move s h = elim (Bool-cases (str_eq s status_draft)) [
  | inl e ↦ rw (str_eq→eq s _ e) archive_draft
  | inr n ↦ elim (Bool-cases (str_eq s status_reviewing)) [
    | inl e ↦ rw (str_eq→eq s _ e) archive_reviewing
    | inr m ↦ rw (str_eq→eq s status_published (ground arith)) archive_published
  ]
]

allowed-Move : (s a : Str) → allowed s a ≡ true → Move a s (next_status a s)
unfolding next_status str_eq
allowed-Move s a h = elim (Bool-cases (str_eq a (bytes "submit"))) [
  | inl e ↦
      along a (bytes "submit") s status_draft (str_eq→eq a _ e) (str_eq→eq s _ (rw e at h)) submit
  | inr n ↦ elim (Bool-cases (str_eq a (bytes "approve"))) [
    | inl e ↦
        along a (bytes "approve") s status_reviewing (str_eq→eq a _ e)
          (str_eq→eq s _ (ground arith)) approve
    | inr n2 ↦ elim (Bool-cases (str_eq a (bytes "reject"))) [
      | inl e ↦
          along a (bytes "reject") s status_reviewing (str_eq→eq a _ e)
            (str_eq→eq s _ (ground arith)) reject
      | inr n3 ↦ elim (Bool-cases (str_eq a (bytes "archive"))) [
        | inl e ↦ rw (str_eq→eq a _ e) (archive-Move s (ground arith))
        | inr n4 ↦ absurd (ground arith)
      ]
    ]
  ]
]

-- What isKBActionAllowed lets through is a move of the diagram.
pub is_kb_action_allowed-Move :
    (raw a : Str)
    → lower_trim a ≡ a
    → is_kb_action_allowed (normalize_article_status_or_draft raw) a ≡ true
    → let s = normalize_article_status_or_draft raw in Move a s (next_status a s)
is_kb_action_allowed-Move raw a ea h =
    allowed-Move _ a (sym (allowed_lem _ a (status_idem raw) ea) ∙ h)

-- Every move goes to another status.
pub Move-other : (a s s' : Str) → Move a s s' → str_eq s' s ≡ false
unfolding str_eq
Move-other a s s' submit = refl
Move-other a s s' approve = refl
Move-other a s s' reject = refl
Move-other a s s' archive_draft = refl
Move-other a s s' archive_reviewing = refl
Move-other a s s' archive_published = refl

plain_status : (s : Str) → is_plain s ≡ true → pick s ≡ s → normalize_article_status_or_draft s ≡ s
plain_status s p e = pick_lem s ∙ ap pick (plain_word s p) ∙ e

pub draft_status : normalize_article_status_or_draft status_draft ≡ status_draft
unfolding is_plain str_eq
draft_status = plain_status status_draft refl refl

pub Move-normal : (a s s' : Str) → Move a s s' → normalize_article_status_or_draft s' ≡ s'
unfolding is_plain str_eq
Move-normal a s s' submit = plain_status status_reviewing refl refl
Move-normal a s s' approve = plain_status status_published refl refl
Move-normal a s s' reject = plain_status status_draft refl refl
Move-normal a s s' archive_draft = plain_status status_archived refl refl
Move-normal a s s' archive_reviewing = plain_status status_archived refl refl
Move-normal a s s' archive_published = plain_status status_archived refl refl

-- Only an approval publishes.
pub Move-published :
    (a s s' : Str) → Move a s s' → str_eq s' status_published ≡ true → a ≡ bytes "approve"
unfolding str_eq
Move-published a s s' submit e = absurd cc
Move-published a s s' approve e = refl
Move-published a s s' reject e = absurd cc
Move-published a s s' archive_draft e = absurd cc
Move-published a s s' archive_reviewing e = absurd cc
Move-published a s s' archive_published e = absurd cc

-- Nothing leaves the archive.
pub Move-not_archived : (a s s' : Str) → Move a s s' → str_eq s status_archived ≡ false
unfolding str_eq
Move-not_archived a s s' submit = refl
Move-not_archived a s s' approve = refl
Move-not_archived a s s' reject = refl
Move-not_archived a s s' archive_draft = refl
Move-not_archived a s s' archive_reviewing = refl
Move-not_archived a s s' archive_published = refl

pub draft-not_published : status_draft ≢ status_published
unfolding str_eq
draft-not_published e = let f : true ≡ false = ap (str_eq status_draft) e in absurd cc
