-- ===== src/Server/Handlers.antt =====
-- One proof for every property of whole handlers: a pair of relations that the parts of the
-- handlers keep and that a span leaves in place.
use learning_crossplane_e2e.Prelude.{ℕ, zero, suc, String, refl}
use learning_crossplane_e2e.Strconv.{Parsed, number, syntax_error, range_error}
use learning_crossplane_e2e.Server.State.{
  State, Outcome, done, panic, exit, unfinished, Services, Request, M, ◌>>=◌, run, ended, with_span,
  record_event, span_start, span_end,
}
use learning_crossplane_e2e.Server.Relate.{Relates, Ensures, >>=-Ensures, when-Ensures}
use learning_crossplane_e2e.Server.Parts.{
  IsKept, emit-Keeps, pure-Keeps, videos_get_body-Keeps, video_post_body-Keeps, root_handler-Keeps,
}
use learning_crossplane_e2e.Server.Fibonacci.{
  add_results, add_int, sub_int, calculate_fibonacci, answer, fibonacci_handler,
}
use learning_crossplane_e2e.Server.Videos.{videos_get_handler, video_post_handler}
use learning_crossplane_e2e.Server.Pages.{root_handler}

pub record IsSpanned (R X : State → State → Type 0) : Type 0 where
  pub kept : IsKept R
  pub leave : (s t : State) → R s t → X s t
  pub leave_trans : (s t u : State) → R s t → X t u → X s u
  pub span :
      (name : String) (s t : State)
      → R (record_event (span_start name) s) t
      → R s (record_event span_end t)
  pub span_left : (name : String) (s t : State) → X (record_event (span_start name) s) t → X s t

module _ (R X : State → State → Type 0) (k : IsSpanned R X) where
  relax {ℓ} : {A : Type ℓ} (s : State) (o : Outcome A) → Relates R R s o → Relates R X s o
  relax s (done a t) h = h
  relax s (panic t) h = h
  relax s (exit t) h = k.leave s t h
  relax s (unfinished t) h = k.leave s t h

  part {ℓ} : {A : Type ℓ} {m : M A} → Ensures R R m → Ensures R X m
  part {m} h = record { holds = λ s. relax s (m s) (h.holds s) }

  sequence {ℓ κ} :
      {A : Type ℓ} {B : Type κ} {m : M A} {f : A → M B}
      → Ensures R X m
      → ((a : A) → Ensures R X (f a))
      → Ensures R X (m >>= f)
  sequence {m} {f} hm hf = >>=-Ensures R X k.kept.trans k.leave_trans m f hm hf

  ended-Relates {ℓ} :
      {A : Type ℓ} (name : String) (s : State) (o : Outcome A)
      → Relates R X (record_event (span_start name) s) o
      → Relates R X s (ended o)
  ended-Relates name s (done a t) h = k.span name s t h
  ended-Relates name s (panic t) h = k.span name s t h
  ended-Relates name s (exit t) h = k.span_left name s t h
  ended-Relates name s (unfinished t) h = k.span_left name s t h

  with_span-Ensures {ℓ} :
      {A : Type ℓ} (name : String) {m : M A} → Ensures R X m → Ensures R X (with_span name m)
  unfolding run
  with_span-Ensures name {m} h = record {
    holds = λ s. ended-Relates name s (m (record_event (span_start name) s)) (h.holds _);
  }

  add_results-Ensures : {m n : M ℕ} → Ensures R X m → Ensures R X n → Ensures R X (add_results m n)
  unfolding add_results
  add_results-Ensures hm hn =
      sequence hm λ a. sequence hn λ b. part (pure-Keeps R k.kept (add_int a b))

  pub calculate_fibonacci-Ensures : (fuel n : ℕ) → Ensures R X (calculate_fibonacci fuel n)
  unfolding calculate_fibonacci
  calculate_fibonacci-Ensures zero n = record { holds = λ s. k.leave s s (k.kept.same s) }
  calculate_fibonacci-Ensures (suc fuel) n = with_span-Ensures _ (
      sequence (part (emit-Keeps R k.kept _ refl)) λ _.
        when-Ensures R X _ _ _ (part (pure-Keeps R k.kept n)) (
          add_results-Ensures (calculate_fibonacci-Ensures fuel (sub_int n 1))
            (calculate_fibonacci-Ensures fuel (sub_int n 2))))

  answer-Ensures :
      (depth : ℕ) (quote : String → String) (s : String) (p : Parsed)
      → Ensures R X (answer depth quote s p)
  unfolding answer
  answer-Ensures depth quote s (number n) =
      sequence (calculate_fibonacci-Ensures depth n) λ _. part (emit-Keeps R k.kept _ refl)
  answer-Ensures depth quote s syntax_error = part (emit-Keeps R k.kept _ refl)
  answer-Ensures depth quote s range_error = part (emit-Keeps R k.kept _ refl)

  module _ (svc : Services) (req : Request) where
    pub fibonacci_handler-Ensures : Ensures R X (fibonacci_handler svc req)
    unfolding fibonacci_handler
    fibonacci_handler-Ensures =
        with_span-Ensures _ (answer-Ensures _ svc.quote (req.query "number") _)

    pub videos_get_handler-Ensures : Ensures R X (videos_get_handler svc req)
    unfolding videos_get_handler
    videos_get_handler-Ensures = with_span-Ensures _ (part (videos_get_body-Keeps R k.kept svc req))

    pub video_post_handler-Ensures : Ensures R X (video_post_handler svc req)
    unfolding video_post_handler
    video_post_handler-Ensures = with_span-Ensures _ (part (video_post_body-Keeps R k.kept svc req))

    pub root_page-Ensures : Ensures R X (root_handler svc req)
    root_page-Ensures = part (root_handler-Keeps R k.kept svc req)
