-- ===== src/Exception/Protocol.antt =====
-- What the calls of libparted/exception.c promise to their callers.
use mathlib.Core.Bool.{false≢true}
use parted.Prelude.{
  subst, if◌then◌else◌, sym, ℕ, suc, ◌-◌, ◌≡◌, refl, ap, ◌∙◌, Bool, true, false, ltb, Option, none,
  some, inl, inr, Bool-cases, arith,
}
use parted.Prelude.Run.{Run, done, Returns, ◌>>=◌}
use parted.Exception.{
  PedExceptionType, PedException, PedExceptionHandler, Exceptions, start, option_unhandled,
  exception_set_handler, exception_catch, do_throw, exception_throw, exception_rethrow,
  exception_fetch_all, exception_leave_all,
}

abbrev pub is_there : Option PedException → Bool
is_there none = false
is_there (some e) = true

-- The flag tells of the exception.
abbrev pub IsConsistent : Exceptions → Type 0
IsConsistent s = s.ped_exception ≡ is_there s.ex

-- One call. An exception is thrown again only while it is there.
pub data Step : Exceptions → Exceptions → Type 0 where
  sets_handler :
      (handler : Option PedExceptionHandler) (s : Exceptions)
      → Step s (exception_set_handler handler s)
  catches : (s s' : Exceptions) → exception_catch s ≡ done s' → Step s s'
  throws :
      (ex_type : PedExceptionType) (ex_opts option : ℕ) (s s' : Exceptions)
      → exception_throw ex_type ex_opts s ≡ done (option, s')
      → Step s s'
  rethrows :
      (option : ℕ) (s s' : Exceptions)
      → is_there s.ex ≡ true
      → exception_rethrow s ≡ done (option, s')
      → Step s s'
  fetches : (s : Exceptions) → Step s (exception_fetch_all s)
  leaves : (s s' : Exceptions) → exception_leave_all s ≡ done s' → Step s s'

-- The states that calls lead to from the start of the program.
pub data Reachable : Exceptions → Type 0 where
  at_start : Reachable start
  then_step : (s s' : Exceptions) → Reachable s → Step s s' → Reachable s'

-- The state without an exception.
abbrev pub resolved : Exceptions → Exceptions
resolved s = record s { ped_exception = false; ex = none }

abbrev pub thrown : PedException → Exceptions → Exceptions
thrown e s = record s { ped_exception = true; ex = some e }

catch_fields :
    (flag : Bool) (ex : Option PedException) (count : ℕ) (handler : PedExceptionHandler)
    → flag ≡ is_there ex
    → exception_catch
        (record { ped_exception = flag; ex = ex; ex_fetch_count = count; ex_handler = handler })
      ≡ done (record {
        ped_exception = false;
        ex = none;
        ex_fetch_count = count;
        ex_handler = handler;
      })
unfolding exception_catch
catch_fields true (some e) count handler consistent = refl
catch_fields false none count handler consistent = refl
catch_fields true none count handler consistent = absurd (false≢true (sym consistent))
catch_fields false (some e) count handler consistent = absurd (false≢true consistent)

catch-resolved : (s : Exceptions) → IsConsistent s → exception_catch s ≡ done (resolved s)
catch-resolved s consistent =
    catch_fields s.ped_exception s.ex s.ex_fetch_count s.ex_handler consistent

-- What a throw comes to.
abbrev pub answer : PedException → Exceptions → ℕ × Exceptions
answer e s =
    if ltb 0 s.ex_fetch_count then (option_unhandled, thrown e s) else (s.ex_handler e, resolved s)

do_throw-answer :
    (e : PedException) (s : Exceptions) → s.ex ≡ some e → do_throw s ≡ done (answer e s)
unfolding do_throw exception_catch
do_throw-answer e s there = elim (Bool-cases (ltb 0 s.ex_fetch_count)) [
  | inl fetched ↦ rw (fetched, there) refl
  | inr free ↦ rw (free, there) refl
]

-- An exception that is still there when another one is thrown is forgotten.
throw_fields :
    (ex_type : PedExceptionType) (ex_opts : ℕ) (flag : Bool) (ex : Option PedException) (count : ℕ)
    (handler : PedExceptionHandler)
    → flag ≡ is_there ex
    → exception_throw ex_type ex_opts
        (record { ped_exception = flag; ex = ex; ex_fetch_count = count; ex_handler = handler })
      ≡ done (
          answer
            (record { type = ex_type; options = ex_opts })
            (record {
              ped_exception = flag;
              ex = ex;
              ex_fetch_count = count;
              ex_handler = handler;
            }))
unfolding exception_throw
throw_fields ex_type ex_opts flag none count handler consistent =
    do_throw-answer (record { type = ex_type; options = ex_opts })
      (record {
        ped_exception = flag;
        ex = some (record { type = ex_type; options = ex_opts });
        ex_fetch_count = count;
        ex_handler = handler;
      })
      refl
throw_fields ex_type ex_opts flag (some e) count handler consistent =
    rw (catch_fields flag (some e) count handler consistent) (
      do_throw-answer (record { type = ex_type; options = ex_opts })
        (record {
          ped_exception = false;
          ex = some (record { type = ex_type; options = ex_opts });
          ex_fetch_count = count;
          ex_handler = handler;
        })
        refl)

pub exception_throw-answer :
    (ex_type : PedExceptionType) (ex_opts : ℕ) (s : Exceptions)
    → IsConsistent s
    → exception_throw ex_type ex_opts s
      ≡ done (answer (record { type = ex_type; options = ex_opts }) s)
exception_throw-answer ex_type ex_opts s consistent =
    throw_fields ex_type ex_opts s.ped_exception s.ex s.ex_fetch_count s.ex_handler consistent

answer-IsConsistent : (e : PedException) (s : Exceptions) → IsConsistent (answer e s).1
answer-IsConsistent e s = elim (Bool-cases (ltb 0 s.ex_fetch_count)) [
  | inl fetched ↦ rw fetched refl
  | inr free ↦ rw free refl
]

-- The states after calls that return.
after :
    {A : Type 0} (state : A → Exceptions) (m : Run A) (expected found : A)
    → m ≡ done expected
    → m ≡ done found
    → IsConsistent (state expected)
    → IsConsistent (state found)
after state m expected found e f consistent =
    subst (λ r. Returns r (λ a. IsConsistent (state a))) (sym e ∙ f) consistent

the_one : (ex : Option PedException) → is_there ex ≡ true → (e : PedException) × (ex ≡ some e)
the_one none there = absurd (false≢true there)
the_one (some e) there = (e, refl)

leave_thrown :
    (e : PedException) (s : Exceptions)
    → exception_leave_all (thrown e (exception_fetch_all s)) ≡ done (thrown e s)
unfolding exception_leave_all exception_fetch_all
leave_thrown e s =
    let fetched : ltb 0 (suc s.ex_fetch_count) ≡ true = ground arith in
    let same : suc s.ex_fetch_count - 1 ≡ s.ex_fetch_count = omega arith in rw (fetched, same) refl

throw_fetched :
    (ex_type : PedExceptionType) (ex_opts : ℕ) (s : Exceptions)
    → IsConsistent s
    → exception_throw ex_type ex_opts (exception_fetch_all s)
      ≡ done (
        option_unhandled,
        thrown (record { type = ex_type; options = ex_opts }) (exception_fetch_all s),
      )
unfolding exception_fetch_all
throw_fetched ex_type ex_opts s consistent =
    let fetched : ltb 0 (suc s.ex_fetch_count) ≡ true = ground arith in
    exception_throw-answer ex_type ex_opts (exception_fetch_all s) consistent ∙ rw fetched refl

Step-IsConsistent : (s s' : Exceptions) → Step s s' → IsConsistent s → IsConsistent s'
unfolding exception_set_handler exception_rethrow exception_fetch_all exception_leave_all
Step-IsConsistent s s' (Step.sets_handler none _) consistent = consistent
Step-IsConsistent s s' (Step.sets_handler (some handler) _) consistent = consistent
Step-IsConsistent s s' (Step.catches _ _ e) consistent =
    after (λ a. a) _ _ s' (catch-resolved s consistent) e refl
Step-IsConsistent s s' (Step.throws ex_type ex_opts option _ _ e) consistent =
    after (λ a. a.1) _ _ (option, s') (exception_throw-answer ex_type ex_opts s consistent) e
      (answer-IsConsistent _ s)
Step-IsConsistent s s' (Step.rethrows option _ _ there e) consistent =
    let (old, is_old) = the_one s.ex there in
    after (λ a. a.1) _ _ (option, s') (do_throw-answer old s is_old) e (answer-IsConsistent old s)
Step-IsConsistent s s' (Step.fetches _) consistent = consistent
Step-IsConsistent s s' (Step.leaves _ _ e) consistent = ground arith

rethrow_thrown :
    (e : PedException) (s : Exceptions) → exception_rethrow (thrown e s) ≡ done (answer e s)
unfolding exception_rethrow
rethrow_thrown e s = do_throw-answer e (thrown e s) refl

-- Every state that calls lead to from the start of the program is consistent.
pub Reachable-IsConsistent : (s : Exceptions) → Reachable s → IsConsistent s
Reachable-IsConsistent s (Reachable.at_start) = refl
Reachable-IsConsistent s' (Reachable.then_step s _ r step) =
    Step-IsConsistent s s' step (Reachable-IsConsistent s r)

-- In every state that calls lead to, throwing an exception returns. While someone fetches
-- exceptions, it is unhandled and stays there; otherwise the handler is asked, and no exception is
-- left. Nothing else changes.
pub exception_throw-IsAnswer :
    (ex_type : PedExceptionType) (ex_opts : ℕ) (s : Exceptions)
    → Reachable s
    → exception_throw ex_type ex_opts s
      ≡ done (answer (record { type = ex_type; options = ex_opts }) s)
exception_throw-IsAnswer ex_type ex_opts s r =
    exception_throw-answer ex_type ex_opts s (Reachable-IsConsistent s r)

-- In every state that calls lead to, throwing an exception while one fetches it, leaving it, and
-- throwing it again comes to the same as throwing it at once.
pub exception_rethrow-throw :
    (ex_type : PedExceptionType) (ex_opts : ℕ) (s : Exceptions)
    → Reachable s
    → (exception_throw ex_type ex_opts (exception_fetch_all s)
        >>= (λ r. exception_leave_all r.1 >>= exception_rethrow))
      ≡ exception_throw ex_type ex_opts s
exception_rethrow-throw ex_type ex_opts s r =
    let e : PedException = record { type = ex_type; options = ex_opts } in
    let consistent : IsConsistent s = Reachable-IsConsistent s r in
    ap (λ m. m >>= (λ r. exception_leave_all r.1 >>= exception_rethrow))
      (throw_fetched ex_type ex_opts s consistent)
    ∙ ap (λ m. m >>= exception_rethrow) (leave_thrown e s)
    ∙ rethrow_thrown e s
    ∙ sym (exception_throw-answer ex_type ex_opts s consistent)
