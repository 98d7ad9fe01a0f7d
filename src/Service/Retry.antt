-- ===== src/Service/Retry.antt =====
-- go-watch-file/internal/service/file_service.go: the plan of the waits between attempts. A duration is its 64 bits,
-- so that it is positive below 2^63; what time.ParseDuration gives is `none` on an error.
use go_watch_file.Base.{
  ℕ, zero, suc, ◌-◌, ◌*◌, ◌%◌, ◌^◌, ◌≤◌, ◌<◌, ◌≡◌, refl, Bool, true, false, Option, none, some,
  List, [], ◌∷◌, ◌++◌, if◌then◌else◌, ◌==◌, ◌&&◌, ltb, leb, length, All, All-append, length-append,
  arith,
}
use go_watch_file.Base.Str.{Str, is_empty}
use go_watch_file.Base.Trim.{trim_space}
use go_watch_file.Paths.Split.{fields}
use go_watch_file.Paths.Matcher.{is_list_separator}

abbrev pub second : ℕ
second = 1000000000

abbrev pub default_retry_delays : List ℕ
default_retry_delays = second ∷ 2 * second ∷ 5 * second ∷ []

abbrev pub max_retry_delay : ℕ
max_retry_delay = 60 * second

abbrev pub is_positive : ℕ → Bool
is_positive d = ltb 0 d && ltb d (2 ^ 63)

-- resolveUploadRetryMaxAttempts
unfoldable pub resolve_max_attempts : ℕ → ℕ
resolve_max_attempts n = if n == 0 then 4 else if ltb 20 n then 20 else n

-- The loop of parseUploadRetryDelays.
unfoldable pub collect_delays : (Str → Option ℕ) → List Str → List ℕ
collect_delays parse [] = []
collect_delays parse (part ∷ parts) =
    let rest = collect_delays parse parts in
    let trimmed = trim_space part in
    let more : List ℕ = elim (parse trimmed) [
      | none ↦ rest
      | some d ↦ if is_positive d then d ∷ rest else rest
    ] in
    if is_empty trimmed then rest else more

abbrev pub or_default : List ℕ → List ℕ
or_default [] = default_retry_delays
or_default (d ∷ ds) = d ∷ ds

-- parseUploadRetryDelays
unfoldable pub parse_retry_delays : (Str → Option ℕ) → Str → List ℕ
unfolding collect_delays fields is_list_separator
parse_retry_delays parse raw =
    let trimmed = trim_space raw in
    if is_empty trimmed
    then default_retry_delays
    else or_default (collect_delays parse (fields is_list_separator [] trimmed))

-- The first loop of buildUploadRetryPlan.
unfoldable pub first_delays : ℕ → List ℕ → List ℕ
first_delays need [] = []
first_delays zero (d ∷ ds) = []
first_delays (suc n) (d ∷ ds) =
    let skipped = first_delays (suc n) ds in
    let taken = d ∷ first_delays n ds in if is_positive d then taken else skipped

-- What follows the wait `last`: twice as long, a minute at most.
unfoldable pub doubled : ℕ → ℕ
doubled last =
    let next = (last * 2) % 2 ^ 64 in
    if is_positive next && ltb max_retry_delay next then max_retry_delay else next

-- The last loop: as many waits as are still needed.
unfoldable pub pad_delays : ℕ → ℕ → List ℕ
unfolding doubled
pad_delays zero last = []
pad_delays (suc n) last = doubled last ∷ pad_delays n (doubled last)

abbrev pub last_delay : ℕ → List ℕ → ℕ
last_delay d [] = d
last_delay d (e ∷ es) = last_delay e es

abbrev pub plan_from : List ℕ → List ℕ
plan_from [] = second ∷ []
plan_from (d ∷ ds) = d ∷ ds

-- buildUploadRetryPlan
unfoldable pub build_retry_plan : (Str → Option ℕ) → Str → ℕ → List ℕ
unfolding resolve_max_attempts parse_retry_delays first_delays pad_delays
build_retry_plan parse raw attempts =
    let most = resolve_max_attempts attempts in
    let need = most - 1 in
    let plan = plan_from (first_delays need (parse_retry_delays parse raw)) in
    if leb most 1 then [] else plan ++ pad_delays (need - length plan) (last_delay 0 plan)

-- A wait that is positive and at most m.
abbrev pub Within : ℕ → ℕ → Type 0
Within m d = (1 ≤ d) × (d ≤ m)

doubled-Within : (m d : ℕ) → max_retry_delay ≤ m → m < 2 ^ 62 → Within m d → Within m (doubled d)
unfolding doubled
doubled-Within m d h k w = ground (arith, w.0, w.1)

pad_delays-Within :
    (m n d : ℕ) → max_retry_delay ≤ m → m < 2 ^ 62 → Within m d → All (Within m) (pad_delays n d)
unfolding pad_delays
pad_delays-Within m zero d h k w = tt
pad_delays-Within m (suc n) d h k w =
    let next = doubled-Within m d h k w in (next, pad_delays-Within m n (doubled d) h k next)

length-pad_delays : (n d : ℕ) → length (pad_delays n d) ≡ n
unfolding pad_delays
length-pad_delays zero d = refl
length-pad_delays (suc n) d = omega (arith, length-pad_delays n (doubled d))

last_delay-Within :
    (m d : ℕ) (ds : List ℕ) → Within m d → All (Within m) ds → Within m (last_delay d ds)
last_delay-Within m d [] w a = w
last_delay-Within m d (e ∷ es) w a = last_delay-Within m e es a.0 a.1

if-Within :
    (m : ℕ) (b : Bool) (xs ys : List ℕ)
    → All (Within m) ys
    → (b ≡ true → All (Within m) xs)
    → All (Within m) (if b then xs else ys)
if-Within m true xs ys h k = k refl
if-Within m false xs ys h k = h

first_delays-Within :
    (m n : ℕ) (ds : List ℕ) → All (λ d. d ≤ m) ds → All (Within m) (first_delays n ds)
unfolding first_delays
first_delays-Within m n [] a = tt
first_delays-Within m zero (d ∷ ds) a = tt
first_delays-Within m (suc n) (d ∷ ds) a =
    if-Within m (is_positive d) _ _ (first_delays-Within m (suc n) ds a.1)
      (λ p. ((ground arith, a.0), first_delays-Within m n ds a.1))

length-first_delays : (n : ℕ) (ds : List ℕ) → length (first_delays n ds) ≤ n
unfolding first_delays
length-first_delays n [] = omega arith
length-first_delays zero (d ∷ ds) = omega arith
length-first_delays (suc n) (d ∷ ds) =
    ground (arith, length-first_delays n ds, length-first_delays (suc n) ds)

plan_from-Within :
    (m : ℕ) (ds : List ℕ)
    → max_retry_delay ≤ m
    → All (Within m) ds
    → All (Within m) (plan_from ds) × Within m (last_delay 0 (plan_from ds))
plan_from-Within m [] h a = (((omega arith, omega arith), tt), (omega arith, omega arith))
plan_from-Within m (d ∷ ds) h a = (a, last_delay-Within m d ds a.0 a.1)

length-plan_from : (n : ℕ) (ds : List ℕ) → 1 ≤ n → length ds ≤ n → length (plan_from ds) ≤ n
length-plan_from n [] h k = h
length-plan_from n (d ∷ ds) h k = k

-- The waits of a plan, and how many they are.
abbrev pub IsPlan : ℕ → ℕ → List ℕ → Type 0
IsPlan m n plan = (length plan ≡ n) × All (Within m) plan

padded-IsPlan :
    (m need : ℕ) (ds : List ℕ)
    → max_retry_delay ≤ m
    → m < 2 ^ 62
    → 1 ≤ need
    → length ds ≤ need
    → All (Within m) ds
    → IsPlan m need
        (plan_from ds ++ pad_delays (need - length (plan_from ds)) (last_delay 0 (plan_from ds)))
padded-IsPlan m need ds h k n l a =
    let rest = need - length (plan_from ds) in
    let last = last_delay 0 (plan_from ds) in
    let within = plan_from-Within m ds h a in
    (
      omega (
        arith,
        length-append (plan_from ds) (pad_delays rest last),
        length-pad_delays rest last,
        length-plan_from need ds n l,
      ),
      All-append (Within m) (plan_from ds) (pad_delays rest last) within.0
          (pad_delays-Within m rest last h k within.1),
    )

most_positive : (n : ℕ) → 1 ≤ resolve_max_attempts n
unfolding resolve_max_attempts
most_positive n = ground arith

most_bounded : (n : ℕ) → resolve_max_attempts n ≤ 20
unfolding resolve_max_attempts
most_bounded n = ground arith

-- Whatever the setting, a plan has one wait less than there are attempts, of which there are 1 to 20;
-- each wait is positive, and none is longer than a bound m of the configured ones of at least a minute,
-- m being below 2^62 nanoseconds.
pub build_retry_plan-IsPlan :
    (parse : Str → Option ℕ) (raw : Str) (attempts m : ℕ)
    → max_retry_delay ≤ m
    → m < 2 ^ 62
    → All (λ d. d ≤ m) (parse_retry_delays parse raw)
    → (1 ≤ resolve_max_attempts attempts)
      × (resolve_max_attempts attempts ≤ 20)
      × IsPlan m (resolve_max_attempts attempts - 1) (build_retry_plan parse raw attempts)
unfolding build_retry_plan
build_retry_plan-IsPlan parse raw attempts m h k a = (
  most_positive attempts,
  most_bounded attempts,
  by_need (leb (resolve_max_attempts attempts) 1) refl,
)
  where
    by_need :
        (b : Bool)
        → leb (resolve_max_attempts attempts) 1 ≡ b
        → IsPlan m (resolve_max_attempts attempts - 1) (build_retry_plan parse raw attempts)
    by_need true e = rw e (ground arith, tt)
    by_need false e =
        let need = resolve_max_attempts attempts - 1 in
        let ds = first_delays need (parse_retry_delays parse raw) in
        rw e (
          padded-IsPlan m need ds h k (ground arith) (length-first_delays need _)
            (first_delays-Within m need _ a))
