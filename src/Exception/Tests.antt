-- ===== src/Exception/Tests.antt =====
-- Runs of the exceptions of libparted/exception.c.
use parted.Prelude.{◌≡◌, some}
use parted.Prelude.Run.{done, ◌>>=◌}
use parted.Exception.{
  error, Exceptions, start, option_ok, option_cancel, exception_set_handler, exception_throw,
  exception_fetch_all, exception_leave_all, exception_rethrow,
}
use parted.Exception.Protocol.{
  Reachable, Step, answer, exception_throw-IsAnswer, exception_rethrow-throw,
}

-- A handler that always agrees, and a caller that fetches.
abbrev agreeing : Exceptions
unfolding exception_set_handler
agreeing = exception_set_handler (some (λ e. option_ok)) start

abbrev fetched : Exceptions
unfolding exception_fetch_all
fetched = exception_fetch_all agreeing

fetched-Reachable : Reachable fetched
unfolding exception_set_handler agreeing exception_fetch_all fetched
fetched-Reachable =
    Reachable.then_step agreeing fetched
      (Reachable.then_step start agreeing Reachable.at_start
        (Step.sets_handler (some (λ e. option_ok)) start))
      (Step.fetches agreeing)

exception_throw-IsAnswer_example :
    exception_throw error option_cancel fetched
    ≡ done (answer (record { type = error; options = option_cancel }) fetched)
exception_throw-IsAnswer_example =
    exception_throw-IsAnswer error option_cancel fetched fetched-Reachable

exception_rethrow-throw_example :
    (exception_throw error option_cancel (exception_fetch_all fetched)
      >>= (λ r. exception_leave_all r.1 >>= exception_rethrow))
    ≡ exception_throw error option_cancel fetched
exception_rethrow-throw_example =
    exception_rethrow-throw error option_cancel fetched fetched-Reachable
