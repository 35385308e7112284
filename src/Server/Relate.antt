-- ===== src/Server/Relate.antt =====
-- Relations between the state before a computation and the state after it, with the rules by
-- which the proofs about the handlers are put together.
use learning_crossplane_e2e.Prelude.{Bool, true, false, if◌then◌else◌}
use learning_crossplane_e2e.Server.State.{
  when◌then◌else◌, State, Outcome, done, panic, exit, unfinished, M, after, ◌>>=◌,
}

-- `R` holds where the code returns or panics, `X` where the process exits or the fuel runs out.
abbrev pub Relates {ℓ} :
    {A : Type ℓ} → (State → State → Type 0) → (State → State → Type 0) → State → Outcome A → Type 0
Relates R X s (done a t) = R s t
Relates R X s (panic t) = R s t
Relates R X s (exit t) = X s t
Relates R X s (unfinished t) = X s t

pub record Ensures {ℓ} {A : Type ℓ} (R X : State → State → Type 0) (m : M A) : Type 0 where
  pub holds : (s : State) → Relates R X s (m s)

module _ (R X : State → State → Type 0) (R_trans : (s t u : State) → R s t → R t u → R s u)
    (X_trans : (s t u : State) → R s t → X t u → X s u) where
  Relates-after {ℓ} :
      {A : Type ℓ} (s t : State) (o : Outcome A) → R s t → Relates R X t o → Relates R X s o
  Relates-after s t (done a u) h k = R_trans s t u h k
  Relates-after s t (panic u) h k = R_trans s t u h k
  Relates-after s t (exit u) h k = X_trans s t u h k
  Relates-after s t (unfinished u) h k = X_trans s t u h k

  after-Relates {ℓ κ} :
      {A : Type ℓ} {B : Type κ} (f : A → M B) (s : State) (o : Outcome A)
      → Relates R X s o
      → ((a : A) → Ensures R X (f a))
      → Relates R X s (after f o)
  after-Relates f s (done a t) h hf = Relates-after s t (f a t) h ((hf a).holds t)
  after-Relates f s (panic t) h hf = h
  after-Relates f s (exit t) h hf = h
  after-Relates f s (unfinished t) h hf = h

  pub >>=-Ensures {ℓ κ} :
      {A : Type ℓ} {B : Type κ} (m : M A) (f : A → M B)
      → Ensures R X m
      → ((a : A) → Ensures R X (f a))
      → Ensures R X (m >>= f)
  unfolding ◌>>=◌
  >>=-Ensures m f hm hf = record { holds = λ s. after-Relates f s (m s) (hm.holds s) hf }

pub when-Ensures {ℓ} :
    {A : Type ℓ} (R X : State → State → Type 0) (b : Bool) (m k : M A)
    → Ensures R X m
    → Ensures R X k
    → Ensures R X (when b then m else k)
unfolding when◌then◌else◌
when-Ensures R X true m k hm hk = record { holds = hm.holds }
when-Ensures R X false m k hm hk = record { holds = hk.holds }
