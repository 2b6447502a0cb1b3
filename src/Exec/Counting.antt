-- ===== src/Exec/Counting.antt =====
-- How many events of a kind an action adds.
use codereviewer.Prelude.{ℕ, ◌+◌, ◌≡◌, refl, subst, Bool, true, false, arith, tally, if◌then◌else◌}
use codereviewer.Exec.{Event, Trace, Run, returned, panicked, M, continue, ◌>>=◌, pure, call}

abbrev pub is_returned : {A : Type 0} → Run A → Bool
is_returned (returned a) = true
is_returned panicked = false

-- From every record of events, `m` returns and adds `n` events that pass the test `p`.
pub record Counts {A : Type 0} (p : Event → Bool) (n : ℕ) (m : M A) : Type 0 where
  pub returns : (t : Trace) → is_returned (m t).0 ≡ true
  pub adds : (t : Trace) → tally p (m t).1 ≡ n + tally p t

module _ {A : Type 0} {p : Event → Bool} where
  pub Counts-pure : (a : A) → Counts p 0 (pure a)
  unfolding pure
  Counts-pure a = record { returns = λ t. refl; adds = λ t. omega arith }

  pub Counts-call_other :
      (e : Event) (answer : Trace → A) → p e ≡ false → Counts p 0 (call e answer)
  unfolding call
  Counts-call_other e answer h = record { returns = λ t. refl; adds = λ t. ground arith }

  pub Counts-call_one : (e : Event) (answer : Trace → A) → p e ≡ true → Counts p 1 (call e answer)
  unfolding call
  Counts-call_one e answer h = record { returns = λ t. refl; adds = λ t. ground arith }

module _ {A B : Type 0} {p : Event → Bool} where
  continue_returns :
      (b : ℕ) (r : Run A) (f : A → M B) (t : Trace)
      → is_returned r ≡ true
      → ((x : A) → Counts p b (f x))
      → is_returned (continue r f t).0 ≡ true
  continue_returns b (returned x) f t h kf = (kf x).returns t
  continue_returns b panicked f t h kf = absurd (ground arith)

  continue_adds :
      (b : ℕ) (r : Run A) (f : A → M B) (t : Trace)
      → is_returned r ≡ true
      → ((x : A) → Counts p b (f x))
      → tally p (continue r f t).1 ≡ b + tally p t
  continue_adds b (returned x) f t h kf = (kf x).adds t
  continue_adds b panicked f t h kf = absurd (ground arith)

  pub Counts-bind :
      (a b : ℕ) (m : M A) (f : A → M B)
      → Counts p a m
      → ((x : A) → Counts p b (f x))
      → Counts p (a + b) (m >>= f)
  unfolding ◌>>=◌
  Counts-bind a b m f km kf = record {
    returns = λ t. continue_returns b (m t).0 f (m t).1 (km.returns t) kf;
    adds = λ t. omega (arith, km.adds t, continue_adds b (m t).0 f (m t).1 (km.returns t) kf);
  }

  -- events of the kind are in the rest only
  pub Counts-rest :
      {n : ℕ} (m : M A) (f : A → M B)
      → Counts p 0 m
      → ((x : A) → Counts p n (f x))
      → Counts p n (m >>= f)
  Counts-rest {n} m f km kf =
      let sum : 0 + n ≡ n = omega arith in
      subst (λ k. Counts p k (m >>= f)) sum (Counts-bind 0 n m f km kf)

  returned_with :
      (n : ℕ) (r : Run A) (f : A → M B) (t : Trace)
      → is_returned r ≡ true
      → ((x : A) → r ≡ returned x → Counts p n (f x))
      → (is_returned (continue r f t).0 ≡ true) × (tally p (continue r f t).1 ≡ n + tally p t)
  returned_with n (returned x) f t h kf = ((kf x refl).returns t, (kf x refl).adds t)
  returned_with n panicked f t h kf = absurd (ground arith)

  -- events of the kind are in the rest only, which relies on what the first action returns
  pub Counts-rest_with :
      {n : ℕ} (Q : A → Type 0) (m : M A) (f : A → M B)
      → Counts p 0 m
      → ((t : Trace) (x : A) → (m t).0 ≡ returned x → Q x)
      → ((x : A) → Q x → Counts p n (f x))
      → Counts p n (m >>= f)
  unfolding ◌>>=◌
  Counts-rest_with {n} Q m f km gives kf = record {
    returns = λ t. (returned_with n (m t).0 f (m t).1 (km.returns t) (λ x e. kf x (gives t x e))).0;
    adds = λ t. omega (
      arith,
      km.adds t,
      (returned_with n (m t).0 f (m t).1 (km.returns t) (λ x e. kf x (gives t x e))).1,
    );
  }

  -- events of the kind are in the first action only
  pub Counts-first :
      {n : ℕ} (m : M A) (f : A → M B)
      → Counts p n m
      → ((x : A) → Counts p 0 (f x))
      → Counts p n (m >>= f)
  Counts-first {n} m f km kf =
      let sum : n + 0 ≡ n = omega arith in
      subst (λ k. Counts p k (m >>= f)) sum (Counts-bind n 0 m f km kf)

-- the action depends on the events so far
pub Counts-at :
    {A : Type 0} {p : Event → Bool} {n : ℕ} (m : Trace → M A)
    → ((t : Trace) → Counts p n (m t))
    → Counts p n (λ t. m t t)
Counts-at m k = record { returns = λ t. (k t).returns t; adds = λ t. (k t).adds t }

pub Counts-if :
    {A : Type 0} {p : Event → Bool} {n : ℕ} (b : Bool) (x y : M A)
    → Counts p n x
    → Counts p n y
    → Counts p n (if b then x else y)
Counts-if true x y kx ky = kx
Counts-if false x y kx ky = ky

pub ruleset counting_rules =
    (Counts-pure, Counts-call_other, Counts-call_one, Counts-rest, Counts-first, Counts-if)
