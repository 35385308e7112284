-- ===== src/Server/Fibonacci/Value.antt =====
-- The value that calculateFibonacci returns, and the number of its calls.
use Prim.Native.Nat.add
use native.Mathlib.Nat.{le_refl}
use learning_crossplane_e2e.Prelude.{
  ◌⊕◌, ℕ, zero, suc, ◌+◌, ◌-◌, ◌*◌, ◌%◌, ◌≤◌, ◌<◌, List, ◌∷◌, [], ◌≡◌, refl, ◌∙◌, arith, true,
  false,
}
use learning_crossplane_e2e.Strconv.{word_mod, sign_bit, itoa}
use learning_crossplane_e2e.Server.State.{
  State, Event, Outcome, M, ended, done, run, record_event, span_start, span_attribute, span_end,
}
use learning_crossplane_e2e.Server.Responses.{responses}
use learning_crossplane_e2e.Server.Fibonacci.{
  le_one, add_int, sub_int, add_results, calculate_fibonacci,
}

unfoldable pub fib : ℕ → ℕ
fib zero = 0
fib (suc zero) = 1
fib (suc (suc n)) = fib (suc n) + fib n

-- Two neighbours at once, which takes n rounds.
fib_pair : ℕ → ℕ × ℕ
fib_pair zero = (0, 1)
fib_pair (suc n) = let (a, b) = fib_pair n in (b, b + a)

fib_pair_lem : (n : ℕ) → ((fib_pair n).0 ≡ fib n) × ((fib_pair n).1 ≡ fib (suc n))
unfolding fib fib_pair
fib_pair_lem zero = (refl, refl)
fib_pair_lem (suc n) = let (p, q) = fib_pair_lem n in (q, ground (arith, p, q))

pub fib-suc : (n : ℕ) → fib n ≤ fib (suc n)
unfolding fib
fib-suc zero = omega arith
fib-suc (suc n) = omega arith

fib_mono : (d n : ℕ) → fib n ≤ fib (d + n)
fib_mono zero n = rw add.zero (le_refl (fib n))
fib_mono (suc d) n = rw add.suc (omega (arith, fib-suc (d + n), fib_mono d n))

-- The 92nd number is the last that an int64 holds.
pub fib_small : (n : ℕ) → n ≤ 92 → fib n < sign_bit
fib_small n h =
    let gap : 92 - n + n ≡ 92 = omega arith in
    let largest : fib 92 < sign_bit = rw (← (fib_pair_lem 92).0) (unfold fib_pair in omega arith) in
    omega (arith, rw gap at (fib_mono (92 - n) n))

-- The calls that one call makes, itself included: as many as spans are started.
abbrev pub span_count : List Event → ℕ
span_count [] = 0
span_count (span_start _ ∷ past) = suc (span_count past)
span_count (_ ∷ past) = span_count past

pub record Computed (n : ℕ) (s : State) (o : Outcome ℕ) : Type 0 where
  pub final : State
  pub value : o ≡ done (fib n % word_mod) final
  pub spans : span_count final.trace + 1 ≡ span_count s.trace + 2 * fib (suc n)
  pub silent : responses final.trace ≡ responses s.trace

-- The state in which the body of a call runs.
abbrev entered : ℕ → State → State
entered n s =
    record_event (span_attribute "number" (itoa n))
      (record_event (span_start ("fibonacci-" ⊕ itoa n)) s)

calculate_base :
    (fuel n : ℕ) (s : State)
    → le_one n ≡ true
    → calculate_fibonacci (suc fuel) n s ≡ done n (record_event span_end (entered n s))
unfolding calculate_fibonacci run
calculate_base fuel n s h = rw h

calculate_step :
    (fuel n : ℕ) (s : State)
    → le_one n ≡ false
    → calculate_fibonacci (suc fuel) n s
      ≡ ended (
          add_results
            (calculate_fibonacci fuel (sub_int n 1))
            (calculate_fibonacci fuel (sub_int n 2))
            (entered n s))
unfolding calculate_fibonacci run
calculate_step fuel n s h = rw h

add_results_done :
    (m k : M ℕ) (s t u : State) (a b : ℕ)
    → m s ≡ done a t
    → k t ≡ done b u
    → add_results m k s ≡ done (add_int a b) u
unfolding add_results run
add_results_done m k s t u a b p q = rw (p, q)

calculate-Computed :
    (fuel n : ℕ) (s : State) → n < fuel → n < sign_bit → Computed n s (calculate_fibonacci fuel n s)
unfolding fib le_one
calculate-Computed zero n s h small = absurd (omega arith)
calculate-Computed (suc fuel) zero s h small = record {
  final = _;
  value = calculate_base fuel 0 s refl;
  spans = omega arith;
  silent = refl;
}
calculate-Computed (suc fuel) (suc zero) s h small = record {
  final = _;
  value = calculate_base fuel 1 s refl;
  spans = omega arith;
  silent = refl;
}
calculate-Computed (suc fuel) (suc (suc k)) s h small =
    let n : ℕ = suc (suc k) in
    let first = calculate-Computed fuel (suc k) (entered n s) (omega arith) (omega arith) in
    let second = calculate-Computed fuel k first.final (omega arith) (omega arith) in
    let larger : le_one n ≡ false = ground arith in
    let one : sub_int n 1 ≡ suc k = omega arith in
    let two : sub_int n 2 ≡ k = omega arith in
    let total : add_int (fib (suc k) % word_mod) (fib k % word_mod) ≡ fib n % word_mod =
      omega arith in
    record {
      final = record_event span_end second.final;
      value =
          calculate_step fuel n s larger
          ∙ rw (one, two, add_results_done _ _ _ _ _ _ _ first.value second.value, total);
      spans = omega (arith, first.spans, second.spans);
      silent = second.silent ∙ first.silent;
    }

-- With more fuel than `n`, calculateFibonacci returns for each `n` that is not negative. The
-- result is the n-th Fibonacci number modulo 2 ^ 64, and the number of calls, each with a span of
-- its own, is twice the next Fibonacci number less one; none of them answers the request.
pub calculate_fibonacci-Computed :
    (fuel n : ℕ) (s : State) → n < fuel → n < sign_bit → Computed n s (calculate_fibonacci fuel n s)
calculate_fibonacci-Computed = calculate-Computed

-- A negative number is returned as it is, after one call.
pub calculate_fibonacci_negative :
    (fuel n : ℕ) (s : State)
    → sign_bit ≤ n
    → (t : State) × (calculate_fibonacci (suc fuel) n s ≡ done n t)
      × (responses t.trace ≡ responses s.trace)
unfolding le_one
calculate_fibonacci_negative fuel n s h = (_, calculate_base fuel n s (ground arith), refl)
