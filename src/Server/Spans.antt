-- ===== src/Server/Spans.antt =====
-- Whether the handlers end the spans that they start, the innermost first.
use learning_crossplane_e2e.Prelude.{String, List, ◌∷◌, ◌≡◌, false}
use learning_crossplane_e2e.Server.State.{State, Event, Services, Request, M, span_start, span_end}
use learning_crossplane_e2e.Server.Relate.{Ensures}
use learning_crossplane_e2e.Server.Parts.{IsKept, is_span_event}
use learning_crossplane_e2e.Server.Handlers.{
  IsSpanned, fibonacci_handler-Ensures, videos_get_handler-Ensures, video_post_handler-Ensures,
  root_page-Ensures,
}
use learning_crossplane_e2e.Server.Fibonacci.{fibonacci_handler}
use learning_crossplane_e2e.Server.Videos.{videos_get_handler, video_post_handler}
use learning_crossplane_e2e.Server.Pages.{root_handler}

-- `now` is `past` with events and whole spans on top.
pub data Nested : List Event → List Event → Type 0 where
  same : {past : List Event} → Nested past past
  event :
      {past now : List Event} (e : Event)
      → is_span_event e ≡ false
      → Nested past now
      → Nested past (e ∷ now)
  span :
      {past now later : List Event} (name : String)
      → Nested past now
      → Nested (span_start name ∷ now) later
      → Nested past (span_end ∷ later)

Nested-trans : {a b c : List Event} → Nested a b → Nested b c → Nested a c
Nested-trans h same = h
Nested-trans h (event e p k) = event e p (Nested-trans h k)
Nested-trans h (span name k l) = span name (Nested-trans h k) l

abbrev pub StateNested : State → State → Type 0
StateNested s t = Nested s.trace t.trace

-- No claim where the process exits or the fuel runs out.
abbrev pub Anything : State → State → Type 0
Anything s t = Unit

-- On a return and on a panic the spans that `m` started have been ended.
abbrev pub EndsSpans {ℓ} : {A : Type ℓ} → M A → Type 0
EndsSpans m = Ensures StateNested Anything m

nested : IsKept StateNested
nested = record {
  same = λ s. same;
  trans = λ s t u h k. Nested-trans h k;
  event = λ e s h. event e h same;
}

spanned : IsSpanned StateNested Anything
spanned = record {
  kept = nested;
  leave = λ s t h. tt;
  leave_trans = λ s t u h k. tt;
  span = λ name s t h. span name same h;
  span_left = λ name s t h. tt;
}

-- Each handler that starts spans, and the root page, leaves them well nested: where the handler
-- returns or panics, every span that it started has been ended, the innermost first.
pub handlers-EndsSpans :
    (svc : Services) (req : Request)
    → EndsSpans (fibonacci_handler svc req)
      × EndsSpans (videos_get_handler svc req)
      × EndsSpans (video_post_handler svc req)
      × EndsSpans (root_handler svc req)
handlers-EndsSpans svc req = (
  fibonacci_handler-Ensures StateNested Anything spanned svc req,
  videos_get_handler-Ensures StateNested Anything spanned svc req,
  video_post_handler-Ensures StateNested Anything spanned svc req,
  root_page-Ensures StateNested Anything spanned svc req,
)
