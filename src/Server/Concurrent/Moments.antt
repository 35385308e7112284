-- ===== src/Server/Concurrent/Moments.antt =====
-- The times at which the events of a request stand in a history.
use learning_crossplane_e2e.Prelude.{
  arith, ℕ, ◌+◌, ◌<◌, Bool, true, false, inl, inr, Bool-cases, List, [], ◌∷◌, ◌++◌, ◌≡◌, refl, ap,
  ◌∙◌, ◌&&◌, ◌==◌, if◌then◌else◌,
}
use learning_crossplane_e2e.Server.State.{Event}
use learning_crossplane_e2e.Server.Concurrent.{History, local, count, moment}

count-append : (xs ys : List Event) → count (xs ++ ys) ≡ count xs + count ys
count-append [] ys = omega arith
count-append (x ∷ xs) ys = omega (arith, count-append xs ys)

append-if :
    (b : Bool) (e : Event) (xs ys : List Event)
    → (if b then e ∷ xs ++ ys else xs ++ ys) ≡ (if b then e ∷ xs else xs) ++ ys
append-if true e xs ys = refl
append-if false e xs ys = refl

pub local-append :
    (i : ℕ) (newer older : History) → local i (newer ++ older) ≡ local i newer ++ local i older
local-append i [] older = refl
local-append i (p ∷ newer) older =
    ap (λ l. if p.0 == i then p.1 ∷ l else l) (local-append i newer older)
    ∙ append-if (p.0 == i) p.1 (local i newer) (local i older)

-- The events of a request are more, by each of its own.
pub local-here :
    (i k : ℕ) (e : Event) (past : History)
    → (k == i) ≡ true
    → local i ((k, e) ∷ past) ≡ e ∷ local i past
local-here i k e past own = rw own

count-below :
    (i k : ℕ) (newer past : History) (e : Event)
    → (k == i) ≡ true
    → count (local i past) < count (local i (newer ++ (k, e) ∷ past))
count-below i k newer past e own =
    let mixed = ap count (local-append i newer ((k, e) ∷ past)) ∙ count-append (local i newer) _ in
    omega (arith, mixed, ap count (local-here i k e past own))

-- At its own position.
pub moment-here :
    (i k : ℕ) (newer past : History) (e : Event)
    → (k == i) ≡ true
    → moment i (count (local i past)) (newer ++ (k, e) ∷ past) ≡ past
moment-here i k [] past e own = ground (arith, own)
moment-here i k (p ∷ newer) past e own =
    ground (arith, count-below i k newer past e own, moment-here i k newer past e own)

-- A position that is not reached in the older part of a history.
pub moment-newer :
    (i n : ℕ) (newer older : History)
    → local i older ≡ []
    → n < count (local i (newer ++ older))
    → (between : History) × (moment i n (newer ++ older) ≡ between ++ older)
moment-newer i n [] older unseen h = absurd (omega (arith, h, ap count unseen))
moment-newer i n (p ∷ newer) older unseen h =
    elim (Bool-cases ((p.0 == i) && (count (local i (newer ++ older)) == n))) [
      | inl reached ↦ (newer, rw reached)
      | inr passed ↦
          let (between, same) = moment-newer i n newer older unseen (ground (arith, passed, h)) in
          (between, rw passed same)
    ]

-- One event of the older part, seen as the last of the newer one.
pub append_assoc :
    (p : ℕ × Event) (newer older : History) → newer ++ p ∷ older ≡ (newer ++ p ∷ []) ++ older
append_assoc p [] older = refl
append_assoc p (q ∷ newer) older = ap (λ l. q ∷ l) (append_assoc p newer older)
