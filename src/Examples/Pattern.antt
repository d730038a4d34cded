-- ===== src/Examples/Pattern.antt =====
-- A pattern with a group, a counted repetition, a class and an escape.
use serpe.Base.{codes, ◌≡◌, ◌≤◌, true, valid_string, bytes_beq}
use serpe.Tools.Pattern.{validate_portable_pattern, max_regex_expanded}
use serpe.Tools.Pattern.Total.{validate_portable_pattern-IsSound}

validate_portable_pattern-IsSound_example :
    (32 ≤ max_regex_expanded) × (valid_string (codes "(ab|c){2,3}[a-z]+\\.") ≡ true)
unfolding validate_portable_pattern bytes_beq
validate_portable_pattern-IsSound_example =
    validate_portable_pattern-IsSound (codes "(ab|c){2,3}[a-z]+\\.")
