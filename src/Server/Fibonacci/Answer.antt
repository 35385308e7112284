-- ===== src/Server/Fibonacci/Answer.antt =====
-- What fibonacciHandler answers.
use learning_crossplane_e2e.Prelude.{
  ℕ, suc, ◌+◌, ◌⊎◌, ◌%◌, ◌≤◌, ◌<◌, String, List, ◌∷◌, ◌≡◌, refl, ap, ◌∙◌, arith, ltb, inl, inr,
  Bool-cases,
}
use learning_crossplane_e2e.Strconv.{
  word_mod, sign_bit, itoa, atoi, Parsed, number, syntax_error, range_error,
}
use learning_crossplane_e2e.Strconv.RoundTrip.{atoi-itoa}
use learning_crossplane_e2e.Server.Errors.{status_ok}
use learning_crossplane_e2e.Server.State.{
  State, Event, Outcome, Services, Request, ended, done, run, record_event, span_start, span_end,
  text_response,
}
use learning_crossplane_e2e.Server.Responses.{responses, AnswersOnce}
use learning_crossplane_e2e.Server.Fibonacci.{
  stack_depth, calculate_fibonacci, answer, fibonacci_handler,
}
use learning_crossplane_e2e.Server.Fibonacci.Value.{
  fib, fib_small, calculate_fibonacci-Computed, calculate_fibonacci_negative,
}

-- The handler's run: it returns, and `body` with status 200 is the last thing before its span ends.
pub record Answers (body : String) (o : Outcome (Unit {0})) : Type 0 where
  pub past : List Event
  pub final : State
  pub returns : o ≡ done tt final
  pub newest : final.trace ≡ span_end ∷ text_response status_ok body ∷ past

-- The handler's run where the parsed number is computed.
handler_number :
    (svc : Services) (req : Request) (s t : State) (n value : ℕ)
    → atoi (req.query "number") ≡ number n
    → calculate_fibonacci (stack_depth svc.extra_stack) n (record_event (span_start "fibonacci") s)
      ≡ done value t
    → fibonacci_handler svc req s
      ≡ done tt (record_event span_end (record_event (text_response status_ok (itoa value)) t))
unfolding fibonacci_handler run
handler_number svc req s t n value p q = rw (p, q)

number-Answers :
    (svc : Services) (req : Request) (s t : State) (n value : ℕ)
    → n < word_mod
    → req.query "number" ≡ itoa n
    → calculate_fibonacci (stack_depth svc.extra_stack) n (record_event (span_start "fibonacci") s)
      ≡ done value t
    → Answers (itoa value) (fibonacci_handler svc req s)
number-Answers svc req s t n value small e q = record {
  past = _;
  final = _;
  returns = handler_number svc req s t n value (ap atoi e ∙ atoi-itoa n small) q;
  newest = refl;
}

stack_depth-bound : (extra : ℕ) → 10000 ≤ stack_depth extra
unfolding stack_depth
stack_depth-bound extra = omega arith

-- A request for the n-th number with n at most 92 is answered with the n-th Fibonacci number, in
-- decimal, and status 200.
pub fibonacci_handler-Answers :
    (svc : Services) (req : Request) (s : State) (n : ℕ)
    → n ≤ 92
    → req.query "number" ≡ itoa n
    → Answers (itoa (fib n)) (fibonacci_handler svc req s)
fibonacci_handler-Answers svc req s n small e =
    let computed =
      calculate_fibonacci-Computed (stack_depth svc.extra_stack) n
        (record_event (span_start "fibonacci") s) (omega (arith, stack_depth-bound svc.extra_stack))
        (omega arith) in
    let exact : fib n % word_mod ≡ fib n = omega (arith, fib_small n small) in
    number-Answers svc req s computed.final n (fib n) (omega arith) e
      (computed.value ∙ ap (λ v. done v computed.final) exact)

-- A negative number is answered with the same number and status 200.
pub fibonacci_handler_negative :
    (svc : Services) (req : Request) (s : State) (n : ℕ)
    → sign_bit ≤ n
    → n < word_mod
    → req.query "number" ≡ itoa n
    → Answers (req.query "number") (fibonacci_handler svc req s)
unfolding stack_depth
fibonacci_handler_negative svc req s n large small e =
    let (t, q, _) =
      calculate_fibonacci_negative (svc.extra_stack + 9999) n
        (record_event (span_start "fibonacci") s) large in
    rw e (number-Answers svc req s t n n small e q)

number-AnswersOnce :
    (svc : Services) (req : Request) (s t : State) (n value : ℕ)
    → atoi (req.query "number") ≡ number n
    → calculate_fibonacci (stack_depth svc.extra_stack) n (record_event (span_start "fibonacci") s)
      ≡ done value t
    → responses t.trace ≡ responses s.trace
    → AnswersOnce s (fibonacci_handler svc req s)
number-AnswersOnce svc req s t n value p q silent = record {
  final = _;
  returns = handler_number svc req s t n value p q;
  once = ap suc silent;
}

handler_parsed :
    (svc : Services) (req : Request) (s : State) (p : Parsed)
    → atoi (req.query "number") ≡ p
    → fibonacci_handler svc req s
      ≡ ended (
          answer
            (stack_depth svc.extra_stack)
            svc.quote
            (req.query "number")
            p
            (record_event (span_start "fibonacci") s))
unfolding fibonacci_handler run
handler_parsed svc req s p e = rw e

-- The recursion for the parsed number, if there is one, fits the stack.
abbrev pub Fits : Services → Parsed → Type 0
Fits svc (number n) = (sign_bit ≤ n) ⊎ (n < stack_depth svc.extra_stack)
Fits svc syntax_error = Unit
Fits svc range_error = Unit

parsed-AnswersOnce :
    (svc : Services) (req : Request) (s : State) (p : Parsed)
    → atoi (req.query "number") ≡ p
    → Fits svc p
    → AnswersOnce s (fibonacci_handler svc req s)
unfolding answer run stack_depth
parsed-AnswersOnce svc req s (number n) e (inr fits) = elim (Bool-cases (ltb n sign_bit)) [
  | inl small ↦
      let computed =
        calculate_fibonacci-Computed (stack_depth svc.extra_stack) n
          (record_event (span_start "fibonacci") s) fits (ground arith) in
      number-AnswersOnce svc req s computed.final n _ e computed.value computed.silent
  | inr large ↦
      let (t, q, silent) =
        calculate_fibonacci_negative (svc.extra_stack + 9999) n
          (record_event (span_start "fibonacci") s) (ground arith) in
      number-AnswersOnce svc req s t n n e q silent
]
parsed-AnswersOnce svc req s (number n) e (inl large) =
    let (t, q, silent) =
      calculate_fibonacci_negative (svc.extra_stack + 9999) n
        (record_event (span_start "fibonacci") s) large in
    number-AnswersOnce svc req s t n n e q silent
parsed-AnswersOnce svc req s syntax_error e _ = record {
  final = _;
  returns = handler_parsed svc req s _ e;
  once = refl;
}
parsed-AnswersOnce svc req s range_error e _ = record {
  final = _;
  returns = handler_parsed svc req s _ e;
  once = refl;
}

-- Where the query is not a number, or the number is negative or less than the calls of
-- calculateFibonacci that fit the stack, which are ten thousand at least, fibonacciHandler returns
-- with exactly one response.
pub fibonacci_handler-AnswersOnce :
    (svc : Services) (req : Request) (s : State)
    → Fits svc (atoi (req.query "number"))
    → AnswersOnce s (fibonacci_handler svc req s)
fibonacci_handler-AnswersOnce svc req s fits = parsed-AnswersOnce svc req s _ refl fits
