-- ===== src/Flow.antt =====
-- Calls over a state: a result, a negative return or a stop, and the state after it. The operators
-- serve every state; Outcome is that of DenemeFs/Store.antt.
use makarna_x.Base.{ℕ, Bool, true, false, ◌≡◌, ap}
use makarna_x.DenemeFs.Store.{Outcome, done, fails, stop}

abbrev pub Call : Type 0 → Type 0 → Type 0
Call S A = S → Outcome A × S

module _ {S : Type 0} where
  infixl 5 ◌>>=◌ ◌>>◌
  abbrev pub pure : {A : Type 0} → A → Call S A
  pure a s = (done a, s)

  abbrev pub fail : {A : Type 0} → ℕ → Call S A
  fail n s = (fails n, s)

  abbrev pub halt : {A : Type 0} → Call S A
  halt s = (stop, s)

  abbrev pub continue : {A B : Type 0} → (A → Call S B) → Outcome A → S → Outcome B × S
  continue f (done a) s = f a s
  continue f (fails n) s = (fails n, s)
  continue f stop s = (stop, s)

  abbrev pub ◌>>=◌ : {A B : Type 0} → Call S A → (A → Call S B) → Call S B
  ◌>>=◌ m f s = continue f (m s).0 (m s).1

  abbrev pub ◌>>◌ : {B : Type 0} → Call S (Unit {0}) → Call S B → Call S B
  m >> k = m >>= λ _. k

  abbrev pub get : Call S S
  get s = (done s, s)

  abbrev pub assert : Bool → Call S (Unit {0})
  assert true = pure tt
  assert false = halt

  -- if (b) m;
  abbrev pub when : Bool → Call S (Unit {0}) → Call S (Unit {0})
  when true m = m
  when false m = pure tt

  abbrev pub modify : (S → S) → Call S (Unit {0})
  modify f s = (done tt, f s)

  -- What follows a call, by how it ended; after a stop nothing follows.
  abbrev pub either : {A B : Type 0} → (A → Call S B) → (ℕ → Call S B) → Outcome A → Call S B
  either f g (done a) = f a
  either f g (fails n) = g n
  either f g stop = halt

  abbrev pub branch : {A B : Type 0} → Call S A → (A → Call S B) → (ℕ → Call S B) → Call S B
  branch m f g s = either f g (m s).0 (m s).1

  -- ASSERT(r > -1)
  abbrev pub must : {A : Type 0} → Call S A → Call S A
  must m = branch m pure (λ n. halt)

  -- Two steps, from what each gives.
  pub chain :
      {A B : Type 0} (m : Call S A) (f : A → Call S B) (s t : S) (a : A)
      → m s ≡ (done a, t)
      → (m >>= f) s ≡ f a t
  chain {A} m f s t a e = ap (λ (r : Outcome A × S). continue f r.0 r.1) e

  pub branch_done :
      {A B : Type 0} (m : Call S A) (f : A → Call S B) (g : ℕ → Call S B) (s t : S) (a : A)
      → m s ≡ (done a, t)
      → branch m f g s ≡ f a t
  branch_done {A} m f g s t a e = ap (λ (r : Outcome A × S). either f g r.0 r.1) e

  pub branch_fails :
      {A B : Type 0} (m : Call S A) (f : A → Call S B) (g : ℕ → Call S B) (s t : S) (n : ℕ)
      → m s ≡ (fails n, t)
      → branch m f g s ≡ g n t
  branch_fails {A} m f g s t n e = ap (λ (r : Outcome A × S). either f g r.0 r.1) e

  pub chain_fails :
      {A B : Type 0} (m : Call S A) (f : A → Call S B) (s t : S) (n : ℕ)
      → m s ≡ (fails n, t)
      → (m >>= f) s ≡ (fails n, t)
  chain_fails {A} m f s t n e = ap (λ (r : Outcome A × S). continue f r.0 r.1) e
