-- ===== src/Server/Fibonacci/Bounds.antt =====
-- What a request for a Fibonacci number costs.
use learning_crossplane_e2e.Prelude.{ℕ, zero, suc, ◌+◌, ◌*◌, ◌/◌, ◌%◌, ◌^◌, ◌≤◌, ◌<◌, ◌≡◌, arith}
use learning_crossplane_e2e.Strconv.{word_mod, sign_bit}
use learning_crossplane_e2e.Server.State.{State, Outcome, done}
use learning_crossplane_e2e.Server.Fibonacci.{calculate_fibonacci}
use learning_crossplane_e2e.Server.Fibonacci.Value.{
  fib, fib-suc, span_count, calculate_fibonacci-Computed,
}

-- The run returns an int, and the spans that it starts are between two exponentials.
pub record Costs (n : ℕ) (s : State) (o : Outcome ℕ) : Type 0 where
  pub final : State
  pub value : ℕ
  pub returns : o ≡ done value final
  pub fits : value < word_mod
  pub at_least : span_count s.trace + 2 ^ (n / 2) ≤ span_count final.trace
  pub at_most : span_count final.trace ≤ span_count s.trace + 2 ^ n

pow-suc : (n : ℕ) → 2 ^ suc n ≡ 2 * 2 ^ n
pow-suc n = omega arith

pow_pos : (n : ℕ) → 1 ≤ 2 ^ n
pow_pos zero = omega arith
pow_pos (suc n) = rw (pow-suc n) (omega (arith, pow_pos n))

half_suc : (n : ℕ) → suc (suc n) / 2 ≡ suc (n / 2)
half_suc n = omega arith

pow_half-le-fib : (n : ℕ) → 2 ^ (n / 2) ≤ fib (suc n)
unfolding fib
pow_half-le-fib zero = omega arith
pow_half-le-fib (suc zero) = omega arith
pow_half-le-fib (suc (suc n)) =
    rw (half_suc n, pow-suc (n / 2)) (omega (arith, pow_half-le-fib n, fib-suc (suc n)))

double_fib-le-pow : (n : ℕ) → 2 * fib (suc n) ≤ 2 ^ n + 1
unfolding fib
double_fib-le-pow zero = omega arith
double_fib-le-pow (suc zero) = omega arith
double_fib-le-pow (suc (suc n)) =
    rw (pow-suc (suc n), pow-suc n)
      (omega (arith, double_fib-le-pow n, rw (pow-suc n) at (double_fib-le-pow (suc n)), pow_pos n))

-- With more fuel than the number, calculateFibonacci of a number that is not negative returns an
-- int. It starts at least 2 ^ (n / 2) spans and at most 2 ^ n.
pub calculate_fibonacci-Costs :
    (fuel n : ℕ) (s : State) → n < fuel → n < sign_bit → Costs n s (calculate_fibonacci fuel n s)
calculate_fibonacci-Costs fuel n s h small =
    let c = calculate_fibonacci-Computed fuel n s h small in
    record {
      final = c.final;
      value = fib n % word_mod;
      returns = c.value;
      fits = omega arith;
      at_least = omega (arith, c.spans, pow_half-le-fib n, pow_pos (n / 2));
      at_most = omega (arith, c.spans, double_fib-le-pow n);
    }
