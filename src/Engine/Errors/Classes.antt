-- ===== src/Engine/Errors/Classes.antt =====
-- internal/core/scanner/probe/errors.go and engine/worker.go: what NormalizeErr and the counters make
-- of an error.
use bgscan.Base.{ℕ, ◌+◌, ◌≡◌, Bool, not, ◌&&◌, ◌||◌, if◌then◌else◌, arith}
use bgscan.Engine.Errors.{
  timeout, refused, unreachable, bad_response, deadline_exceeded, os_deadline_exceeded, net_timeout,
  ehostunreach, enetunreach, eof, unexpected_eof, Error, is_error, ErrorStats, total_errors,
  count_error,
}

-- The errors that a probe is expected to fail with.
abbrev pub is_expected : Error → Bool
is_expected err =
    is_error timeout err
    || is_error refused err
    || is_error unreachable err
    || is_error bad_response err

abbrev pub is_eof : Error → Bool
is_eof err = is_error eof err || is_error unexpected_eof err

abbrev pub is_deadline : Error → Bool
is_deadline err =
    is_error deadline_exceeded err || is_error os_deadline_exceeded err || is_error net_timeout err

abbrev pub is_no_route : Error → Bool
is_no_route err = is_error ehostunreach err || is_error enetunreach err

-- The counters that an error belongs to, in the order of the tests.
abbrev pub is_unreached : Error → Bool
is_unreached err = not (is_error timeout err) && is_error unreachable err

abbrev pub is_refusal : Error → Bool
is_refusal err = not (is_error timeout err || is_error unreachable err) && is_error refused err

abbrev pub is_bad : Error → Bool
is_bad err =
    not (is_error timeout err || is_error unreachable err || is_error refused err)
    && is_error bad_response err

abbrev pub one_if : Bool → ℕ
one_if b = if b then 1 else 0

-- Every error raises the total by one, and of the six counters exactly the one of its class: the
-- first of timeout, unreachable, refused, bad response and end of the input that it has in it, or
-- else the others. count reports true exactly when it is not the others' one.
pub count_error-total :
    (err : Error) (s : ErrorStats)
    → let t = (count_error err s).0 in
      (total_errors t ≡ total_errors s + 1)
      × ((count_error err s).1 ≡ (is_expected err || is_eof err))
      × (t.timeouts ≡ s.timeouts + one_if (is_error timeout err))
      × (t.unreachables ≡ s.unreachables + one_if (is_unreached err))
      × (t.refusals ≡ s.refusals + one_if (is_refusal err))
      × (t.bad_responses ≡ s.bad_responses + one_if (is_bad err))
      × (t.closes ≡ s.closes + one_if (not (is_expected err) && is_eof err))
      × (t.others ≡ s.others + one_if (not (is_expected err || is_eof err)))
unfolding count_error
count_error-total err s = (
  ground arith,
  ground arith,
  ground arith,
  ground arith,
  ground arith,
  ground arith,
  ground arith,
  ground arith,
)
