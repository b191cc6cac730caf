-- ===== src/Engine/Errors.antt =====
-- internal/core/scanner/probe/errors.go, and the counting of errors of worker.go and progress.go. An
-- error is the list of the errors that errors.Is finds in it; wrapping puts two lists together.
pub mod Classes
use bgscan.Base.{
  ℕ, ◌+◌, Bool, true, false, not, ◌||◌, ◌==◌, List, [], ◌∷◌, ◌++◌, Option, none, some,
  if◌then◌else◌,
}

-- The errors that the code compares with; net_timeout is any net.Error whose Timeout() is true, and
-- other any that nothing is compared with.
pub data Cause : Type 0 where
  timeout : Cause
  refused : Cause
  unreachable : Cause
  bad_response : Cause
  deadline_exceeded : Cause
  os_deadline_exceeded : Cause
  net_timeout : Cause
  econnrefused : Cause
  ehostunreach : Cause
  enetunreach : Cause
  eof : Cause
  unexpected_eof : Cause
  canceled : Cause
  result_limit : Cause
  writer_fatal : Cause
  other : ℕ → Cause

abbrev pub Error : Type 0
Error = List Cause

abbrev pub number : Cause → ℕ
number timeout = 0
number refused = 1
number unreachable = 2
number bad_response = 3
number deadline_exceeded = 4
number os_deadline_exceeded = 5
number net_timeout = 6
number econnrefused = 7
number ehostunreach = 8
number enetunreach = 9
number eof = 10
number unexpected_eof = 11
number canceled = 12
number result_limit = 13
number writer_fatal = 14
number (other n) = n + 15

-- errors.Is.
abbrev pub is_error : Cause → Error → Bool
is_error c [] = false
is_error c (d ∷ err) = (number c == number d) || is_error c err

-- NormalizeErr of an error that is not nil.
unfoldable pub normalize_err : Error → Error
normalize_err err =
    if is_error timeout err
      || is_error refused err
      || is_error unreachable err
      || is_error bad_response err
    then err
    else if is_error deadline_exceeded err
        || is_error os_deadline_exceeded err
        || is_error net_timeout err
    then timeout ∷ err
    else if is_error econnrefused err
    then refused ∷ err
    else if is_error ehostunreach err || is_error enetunreach err
    then unreachable ∷ err
    else err

pub record ErrorStats : Type 0 where
  pub timeouts : ℕ
  pub unreachables : ℕ
  pub refusals : ℕ
  pub bad_responses : ℕ
  pub closes : ℕ
  pub others : ℕ

abbrev pub no_errors : ErrorStats
no_errors = record {
  timeouts = 0;
  unreachables = 0;
  refusals = 0;
  bad_responses = 0;
  closes = 0;
  others = 0;
}

-- ErrorStats.Total.
abbrev pub total_errors : ErrorStats → ℕ
total_errors s = s.timeouts + s.unreachables + s.refusals + s.bad_responses + s.closes + s.others

-- errStats.count, with its result.
unfoldable pub count_error : Error → ErrorStats → ErrorStats × Bool
count_error err s =
    if is_error timeout err
    then (record s { timeouts = s.timeouts + 1 }, true)
    else if is_error unreachable err
    then (record s { unreachables = s.unreachables + 1 }, true)
    else if is_error refused err
    then (record s { refusals = s.refusals + 1 }, true)
    else if is_error bad_response err
    then (record s { bad_responses = s.bad_responses + 1 }, true)
    else if is_error eof err || is_error unexpected_eof err
    then (record s { closes = s.closes + 1 }, true)
    else (record s { others = s.others + 1 }, false)

-- logIPError, without the log.
unfoldable pub log_ip_error : Error → ErrorStats → ErrorStats
unfolding count_error
log_ip_error err s =
    if is_error canceled err || is_error result_limit err
    then s
    else let counted : ErrorStats × Bool = count_error err s in counted.0

-- terminating.
abbrev pub terminating : Error → Bool
terminating err = is_error result_limit err || is_error writer_fatal err
