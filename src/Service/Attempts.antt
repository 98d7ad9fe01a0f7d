-- ===== src/Service/Attempts.antt =====
-- go-watch-file/internal/service/file_service.go: the attempts to upload a file. `Step` is what the context, the client
-- of the object store and the wait say at an attempt.
use go_watch_file.Base.{
  ℕ, zero, suc, ◌+◌, ◌≤◌, ◌<◌, ◌≡◌, refl, sym, subst, Bool, true, false, List, [], ◌∷◌,
  if◌then◌else◌, ◌&&◌, ◌⊎◌, inl, inr, length, arith,
}
use go_watch_file.Base.Str.{Str}
use go_watch_file.Service.Retry.{is_positive}

pub data UploadError : Type 0 where
  refused : Str → UploadError
  cancelled : UploadError

-- The result of UploadFile.
pub data Outcome : Type 0 where
  uploaded : Str → Outcome
  failed : UploadError → Outcome

pub record Step : Type 0 where
  pub cancelled_before : Bool
  pub outcome : Outcome
  pub cancelled_in_wait : Bool

-- The result, with how often UploadFile was called and recordRetryAttempt.
pub record Tried : Type 0 where
  pub result : Outcome
  pub calls : ℕ
  pub retries : ℕ

abbrev pub once : Outcome → Tried
once o = record { result = o; calls = 1; retries = 0 }

abbrev pub after_retry : Tried → Tried
after_retry t = record t { calls = 1 + t.calls; retries = 1 + t.retries }

-- An attempt that another one may follow after the wait d.
abbrev pub attempt : Outcome → ℕ → Bool → Tried → Tried
attempt (uploaded url) d ended rest = once (uploaded url)
attempt (failed e) d ended rest =
    if is_positive d && ended
    then (record { result = failed cancelled; calls = 1; retries = 1 })
    else after_retry rest

abbrev pub unless_cancelled : Bool → Tried → Tried
unless_cancelled true t = record { result = failed cancelled; calls = 0; retries = 0 }
unless_cancelled false t = t

-- The loop of uploadFileWithRetry: an attempt before each wait, and one at the end.
unfoldable pub try_upload : List ℕ → (ℕ → Step) → Tried
try_upload [] steps = unless_cancelled (steps 0).cancelled_before (once (steps 0).outcome)
try_upload (d ∷ ds) steps =
    let rest = try_upload ds (λ i. steps (suc i)) in
    unless_cancelled (steps 0).cancelled_before
      (attempt (steps 0).outcome d (steps 0).cancelled_in_wait rest)

-- uploadFileWithRetry, with a client; `plan` is what buildUploadRetryPlan gives.
unfoldable pub upload_file_with_retry : Bool → List ℕ → (ℕ → Step) → Tried
unfolding try_upload
upload_file_with_retry enabled plan steps =
    let tried = try_upload plan steps in if enabled then tried else once (steps 0).outcome

abbrev pub IsFailure : Outcome → Type 0
IsFailure (uploaded url) = ⊥
IsFailure (failed e) = Unit

-- The context ends before the attempt or in the wait after it.
abbrev pub Cancels : Step → Type 0
Cancels s = (s.cancelled_before ≡ true) ⊎ (s.cancelled_in_wait ≡ true)

-- What a result says: the URL of the first attempt that succeeded, or the failure of all the attempts,
-- or that the context ended.
abbrev pub Tells : (ℕ → Step) → ℕ → ℕ → Outcome → Type 0
Tells steps n calls (uploaded url) =
    (k : ℕ) × (k ≤ n)
    × (calls ≡ suc k)
    × ((steps k).outcome ≡ uploaded url)
    × ((j : ℕ) → j < k → IsFailure (steps j).outcome)
Tells steps n calls (failed e) =
    ((calls ≡ suc n)
      × ((steps n).outcome ≡ failed e)
      × ((j : ℕ) → j ≤ n → IsFailure (steps j).outcome))
    ⊎ ((e ≡ cancelled) × ((k : ℕ) × (k ≤ n) × Cancels (steps k)))

abbrev pub IsTold : (ℕ → Step) → ℕ → Tried → Type 0
IsTold steps n t = (t.calls ≤ suc n) × (t.retries ≤ n) × Tells steps n t.calls t.result

unless-IsTold :
    (steps : ℕ → Step) (n : ℕ) (b : Bool) (t : Tried)
    → (steps 0).cancelled_before ≡ b
    → IsTold steps n t
    → IsTold steps n (unless_cancelled b t)
unless-IsTold steps n true t e h = (omega arith, omega arith, inr (refl, (0, omega arith, inl e)))
unless-IsTold steps n false t e h = h

once-IsTold :
    (steps : ℕ → Step) (n : ℕ) (url : Str)
    → (steps 0).outcome ≡ uploaded url
    → IsTold steps n (once (uploaded url))
once-IsTold steps n url e =
    (omega arith, omega arith, (0, omega arith, refl, e, λ j h. absurd (omega arith)))

only_below : (P : ℕ → Type 0) → P 0 → (j : ℕ) → j ≤ 0 → P j
only_below P z zero h = z
only_below P z (suc j) h = absurd (omega arith)

shift_upto :
    (P : ℕ → Type 0) (n : ℕ) → P 0 → ((j : ℕ) → j ≤ n → P (suc j)) → (j : ℕ) → j ≤ suc n → P j
shift_upto P n z s zero h = z
shift_upto P n z s (suc j) h = s j (omega arith)

shift_below :
    (P : ℕ → Type 0) (k : ℕ) → P 0 → ((j : ℕ) → j < k → P (suc j)) → (j : ℕ) → j < suc k → P j
shift_below P k z s zero h = z
shift_below P k z s (suc j) h = s j (omega arith)

last-IsTold : (steps : ℕ → Step) (o : Outcome) → (steps 0).outcome ≡ o → IsTold steps 0 (once o)
last-IsTold steps (uploaded url) e = once-IsTold steps 0 url e
last-IsTold steps (failed err) e = (
  omega arith,
  omega arith,
  inl (refl, e, only_below (λ j. IsFailure (steps j).outcome) (subst IsFailure (sym e) tt)),
)

later-Tells :
    (steps : ℕ → Step) (n calls : ℕ) (o : Outcome)
    → IsFailure (steps 0).outcome
    → Tells (λ i. steps (suc i)) n calls o
    → Tells steps (suc n) (1 + calls) o
later-Tells steps n calls (uploaded url) f (k, small, count, here, before) = (
  suc k,
  omega arith,
  omega arith,
  here,
  shift_below (λ j. IsFailure (steps j).outcome) k f before,
)
later-Tells steps n calls (failed e) f (inl (count, last, all)) =
    inl (omega arith, last, shift_upto (λ j. IsFailure (steps j).outcome) n f all)
later-Tells steps n calls (failed e) f (inr (same, (k, small, ends))) =
    inr (same, (suc k, omega arith, ends))

attempt-IsTold :
    (steps : ℕ → Step) (n d : ℕ) (o : Outcome) (rest : Tried)
    → (steps 0).outcome ≡ o
    → IsTold (λ i. steps (suc i)) n rest
    → IsTold steps (suc n) (attempt o d (steps 0).cancelled_in_wait rest)
attempt-IsTold steps n d (uploaded url) rest e h = once-IsTold steps (suc n) url e
attempt-IsTold steps n d (failed err) rest e h =
    by_wait (is_positive d && (steps 0).cancelled_in_wait) refl
  where
    by_wait :
        (b : Bool)
        → (is_positive d && (steps 0).cancelled_in_wait) ≡ b
        → IsTold steps (suc n) (
            if b
            then (record { result = failed cancelled; calls = 1; retries = 1 })
            else after_retry rest)
    by_wait true c = (omega arith, omega arith, inr (refl, (0, omega arith, inr (ground arith))))
    by_wait false c = (
      omega (arith, h.0),
      omega (arith, h.1),
      later-Tells steps n rest.calls rest.result (subst IsFailure (sym e) tt) h.2,
    )

try_upload-IsTold :
    (plan : List ℕ) (steps : ℕ → Step) → IsTold steps (length plan) (try_upload plan steps)
unfolding try_upload
try_upload-IsTold [] steps =
    unless-IsTold steps 0 (steps 0).cancelled_before _ refl
      (last-IsTold steps (steps 0).outcome refl)
try_upload-IsTold (d ∷ ds) steps =
    unless-IsTold steps (suc (length ds)) (steps 0).cancelled_before _ refl (
      attempt-IsTold steps (length ds) d (steps 0).outcome _ refl
        (try_upload-IsTold ds (λ i. steps (suc i))))

-- With retries, UploadFile is called at most once more than the plan has waits, and the result is the
-- URL of the first attempt that succeeded, the error of the last one after all of them failed, or the
-- end of the context, which then came in one of those attempts.
pub upload_file_with_retry-IsTold :
    (plan : List ℕ) (steps : ℕ → Step)
    → IsTold steps (length plan) (upload_file_with_retry true plan steps)
unfolding upload_file_with_retry
upload_file_with_retry-IsTold plan steps = try_upload-IsTold plan steps
