-- ===== src/Exception.antt =====
-- Exceptions: libparted/exception.c and the types of include/parted/exception.in.h. The text of an
-- exception is left out. A handler does not throw itself.
pub mod Protocol
pub mod Options
mod Tests
use parted.Prelude.{
  ℕ, zero, suc, ◌+◌, ◌-◌, ◌^◌, Bool, true, false, ◌||◌, ltb, leb, ◌==◌, Option, none, some,
  if◌then◌else◌,
}
use parted.Prelude.Int.{ℤ, pos, negsuc}
use parted.Prelude.Run.{Run, done, fault, ped_assert, ◌>>=◌, ◌>>◌}

pub data PedExceptionType : Type 0 where
  information : PedExceptionType
  warning : PedExceptionType
  error : PedExceptionType
  fatal : PedExceptionType
  bug : PedExceptionType
  no_feature : PedExceptionType

-- `options` holds a bit for each way in which the exception can be resolved.
pub record PedException : Type 0 where
  pub type : PedExceptionType
  pub options : ℕ

abbrev pub option_unhandled : ℕ
option_unhandled = 0

abbrev pub option_ok : ℕ
option_ok = 8

abbrev pub option_ignore : ℕ
option_ignore = 32

abbrev pub option_cancel : ℕ
option_cancel = 64

abbrev pub PedExceptionHandler : Type 0
PedExceptionHandler = PedException → ℕ

-- The variables of the module. `ex` is NULL if there is none.
pub record Exceptions : Type 0 where
  pub ped_exception : Bool
  pub ex : Option PedException
  pub ex_fetch_count : ℕ
  pub ex_handler : PedExceptionHandler

unfoldable pub default_handler : PedExceptionHandler
default_handler e =
    if e.options == option_ok || (e.options == option_cancel || e.options == option_ignore)
    then e.options
    else option_unhandled

abbrev pub start : Exceptions
start = record {
  ped_exception = false;
  ex = none;
  ex_fetch_count = 0;
  ex_handler = default_handler;
}

unfoldable pub exception_set_handler : Option PedExceptionHandler → Exceptions → Exceptions
exception_set_handler none s = record s { ex_handler = default_handler }
exception_set_handler (some handler) s = record s { ex_handler = handler }

unfoldable pub exception_get_handler : Exceptions → PedExceptionHandler
exception_get_handler s = s.ex_handler

-- `ex->message` is read.
abbrev pub the_exception : Option PedException → Run PedException
the_exception none = fault
the_exception (some e) = done e

unfoldable pub exception_catch : Exceptions → Run Exceptions
exception_catch s =
    if s.ped_exception
    then the_exception s.ex >>= (λ _. done (record s { ped_exception = false; ex = none }))
    else done s

-- The option, and the variables afterwards.
unfoldable pub do_throw : Exceptions → Run (ℕ × Exceptions)
unfolding exception_catch
do_throw s =
    if ltb 0 s.ex_fetch_count
    then done (option_unhandled, record s { ped_exception = true })
    else (the_exception s.ex >>= (λ e.
        exception_catch (record s { ped_exception = true }) >>= (λ s'. done (s.ex_handler e, s'))))

-- An exception that is still there is caught first.
abbrev pub catch_old : Option PedException → Exceptions → Run Exceptions
catch_old none s = done s
catch_old (some e) s = exception_catch s

unfoldable pub exception_throw : PedExceptionType → ℕ → Exceptions → Run (ℕ × Exceptions)
unfolding do_throw
exception_throw ex_type ex_opts s = do
  s' ← catch_old s.ex s
  do_throw (record s' { ex = some (record { type = ex_type; options = ex_opts }) })

unfoldable pub exception_rethrow : Exceptions → Run (ℕ × Exceptions)
exception_rethrow s = do_throw s

unfoldable pub exception_fetch_all : Exceptions → Exceptions
exception_fetch_all s = record s { ex_fetch_count = suc s.ex_fetch_count }

unfoldable pub exception_leave_all : Exceptions → Run Exceptions
exception_leave_all s = do
  ped_assert (ltb 0 s.ex_fetch_count)
  done (record s { ex_fetch_count = s.ex_fetch_count - 1 })

-- The loop of `ped_log2` from `x` on, with the rounds that are left.
unfoldable pub log2_from : ℕ → ℕ → ℕ → ℕ
log2_from zero x n = x
log2_from (suc rounds) x n =
    let rest = log2_from rounds (suc x) n in if leb (2 ^ x) n then rest else x

-- An int has 31 bits and a sign, so the loop ends by 31.
unfoldable pub log2 : ℕ → Run ℕ
unfolding log2_from
log2 n = do ped_assert (ltb 0 n); done (log2_from 31 0 n - 1)
