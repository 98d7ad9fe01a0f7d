-- ===== src/Alert/Texts.antt =====
-- go-watch-file/internal/alert/engine.go: the helpers on texts and durations.
use go_watch_file.Base.{
  ℕ, zero, suc, ◌+◌, ◌-◌, ◌*◌, ◌/◌, Bool, true, false, ◌||◌, List, [], ◌∷◌, ◌++◌, if◌then◌else◌,
  leb, ◌==◌, length, take,
}
use go_watch_file.Base.Str.{Str, text, bytes, is_empty, contains, itoa}

unfoldable pub contains_any : Str → List Str → Bool
contains_any haystack [] = false
contains_any haystack (keyword ∷ ks) =
    if is_empty keyword
    then contains_any haystack ks
    else if contains haystack keyword
    then true
    else contains_any haystack ks

unfoldable pub truncate_message : Str → ℕ → Str
truncate_message message limit =
    if limit == 0 || leb (length message) limit
    then message
    else if leb limit 3
    then take limit message
    else take (limit - 3) message ++ bytes "..."

abbrev second : ℕ
second = 1000000000

abbrev minute : ℕ
minute = 60 * second

abbrev hour : ℕ
hour = 60 * minute

-- `Duration.Round` to a multiple of an even `m`, half of it rounding up.
abbrev round : ℕ → ℕ → ℕ
round d m = (d + m / 2) / m * m

abbrev at_least_one : ℕ → ℕ
at_least_one zero = 1
at_least_one (suc n) = suc n

unfoldable pub format_duration : ℕ → Str
format_duration d =
    if d == 0
    then text "0秒"
    else if leb hour d
    then itoa (at_least_one (round d minute / hour)) ++ text "小时"
    else if leb minute d
    then itoa (at_least_one (round d second / minute)) ++ text "分钟"
    else itoa (at_least_one (round d second / second)) ++ text "秒"

unfoldable pub format_suppress_window : ℕ → Str
format_suppress_window window = if window == 0 then [] else format_duration window
