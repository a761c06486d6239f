-- ===== src/Sweep/Prefix.antt =====
-- `SweepAttempt::trial_prefix` of crates/nanoeval/src/sweep.rs and `trial_name` of
-- crates/nanoeval/src/evaluator.rs: the directory names of attempts.
use Prim.Native.String.{◌++◌}
use nanoeval.Task.{Task}
use nanoeval.Sweep.Identity.{AgentId}
use nanoeval.Prelude.{
  ℕ, Bool, Option, String, code, false, if◌then◌else◌, ltb, none, some, suc, zero, ◌%◌, ◌/◌, ◌==◌,
  ◌||◌,
}
use nanoeval.Sweep.{SweepAttempt}

-- `name.rsplit('/').next()`: what follows the last slash
has_slash : String → Bool
has_slash String.[] = false
has_slash (String.◌∷◌ c s) = code c == b'/' || has_slash s

unfoldable pub short_name : String → String
unfolding has_slash
short_name String.[] = ""
short_name (String.◌∷◌ c s) =
    let rest = short_name s in
    if has_slash s then rest else if code c == b'/' then s else String.◌∷◌ c s

digit : ℕ → String
digit n =
    if n == 0
    then "0"
    else if n == 1
    then "1"
    else if n == 2
    then "2"
    else if n == 3
    then "3"
    else if n == 4
    then "4"
    else if n == 5
    then "5"
    else if n == 6
    then "6"
    else if n == 7
    then "7"
    else if n == 8
    then "8"
    else "9"

-- Decimal digits; a number has fewer digits than its successor says.
decimal_from : ℕ → ℕ → String
unfolding digit
decimal_from zero n = ""
decimal_from (suc fuel) n =
    let front = decimal_from fuel (n / 10) in if ltb n 10 then digit n else front ++ digit (n % 10)

unfoldable pub decimal : ℕ → String
unfolding decimal_from
decimal n = decimal_from (suc n) n

-- `{:03}`
unfoldable pub decimal3 : ℕ → String
unfolding decimal
decimal3 n =
    if ltb n 10 then "00" ++ decimal n else if ltb n 100 then "0" ++ decimal n else decimal n

unfoldable pub trial_prefix : {B : Type 0} → SweepAttempt B → String
unfolding short_name decimal3
trial_prefix attempt =
    short_name attempt.task.name
    ++ ("__" ++ (attempt.agent.id.text ++ ("__" ++ decimal3 attempt.trial)))

-- The coordinate that `trial_name` is given, if any.
pub record SweepCoordinate : Type 0 where
  pub agent : AgentId
  pub trial : ℕ

-- `trial_name`, over the first eight hexadecimal digits of the attempt's identifier
unfoldable pub trial_name : Task → String → Option SweepCoordinate → String
unfolding short_name decimal3
trial_name task compact_id (some coordinate) =
    short_name task.name
    ++ ("__"
        ++ (coordinate.agent.text ++ ("__" ++ (decimal3 coordinate.trial ++ ("__" ++ compact_id)))))
trial_name task compact_id none = short_name task.name ++ ("__" ++ compact_id)
