-- ===== src/Server/Fibonacci.antt =====
-- fibonacci.go. An `int` is its 64-bit pattern, so sums and differences wrap around.
pub mod Value
pub mod Answer
pub mod Bounds
use Prim.Native.String
use learning_crossplane_e2e.Prelude.{
  ◌⊕◌, ℕ, zero, suc, ◌+◌, ◌-◌, ◌%◌, String, Bool, ◌||◌, leb, if◌then◌else◌,
}
use learning_crossplane_e2e.Strconv.{
  word_mod, sign_bit, Parsed, number, syntax_error, range_error, atoi, error_text, itoa,
}
use learning_crossplane_e2e.Server.Errors.{status_ok, status_bad_request}
use learning_crossplane_e2e.Server.State.{
  Request, Services, M, pure, ◌>>=◌, ◌>>◌, emit, unfinished, when◌then◌else◌, with_span, run,
  span_attribute, text_response,
}

-- `n <= 1` on the signed reading of the pattern.
unfoldable pub le_one : ℕ → Bool
le_one n = leb n 1 || leb sign_bit n

-- `a + b` and `a - b` of Go's `int`.
abbrev pub add_int : ℕ → ℕ → ℕ
add_int a b = (a + b) % word_mod

abbrev pub sub_int : ℕ → ℕ → ℕ
sub_int a b = (a + word_mod - b) % word_mod

-- The sum of two computations, run from left to right.
unfoldable pub add_results : M ℕ → M ℕ → M ℕ
add_results m k = do a ← m; b ← k; pure (add_int a b)

unfoldable pub calculate_fibonacci : ℕ → ℕ → M ℕ
unfolding le_one add_results
calculate_fibonacci zero n = unfinished
calculate_fibonacci (suc fuel) n =
    let sum =
      add_results (calculate_fibonacci fuel (sub_int n 1))
        (calculate_fibonacci fuel (sub_int n 2)) in
    with_span ("fibonacci-" ⊕ itoa n)
      do emit (span_attribute "number" (itoa n)); when le_one n then pure n else sum

-- How many calls of calculateFibonacci the stack of a goroutine holds.
unfoldable pub stack_depth : ℕ → ℕ
stack_depth extra = suc (extra + 9999)

-- What follows `Atoi`: an error is answered with status 400. The recursion is as deep as the number,
-- and ends the process where the stack does not hold it.
unfoldable pub answer : ℕ → (String → String) → String → Parsed → M (Unit {0})
answer depth quote s (number n) = do
  fib ← calculate_fibonacci depth n
  emit (text_response status_ok (itoa fib))
answer depth quote s syntax_error =
    emit (text_response status_bad_request (error_text quote s "invalid syntax"))
answer depth quote s range_error =
    emit (text_response status_bad_request (error_text quote s "value out of range"))

unfoldable pub fibonacci_handler : Services → Request → M (Unit {0})
unfolding answer
fibonacci_handler svc req = with_span "fibonacci" (
    answer (stack_depth svc.extra_stack) svc.quote (req.query "number") (atoi (req.query "number")))
