-- ===== src/Prelude/Act.antt =====
-- Work on a state `C` that can fail: what was done to the state stays done.
use mathlib.Core.Path.{◌≡◌}
use mathlib.Core.Bool.{Bool, true, false}
use bolty_rs.Prelude.Outcome.{Result, ok, err}

abbrev pub Act : Type 0 → Type 0 → Type 0 → Type 0
Act C E A = C → C × Result E A

unfoldable pub pure : {C E A : Type 0} → A → Act C E A
pure a c = (c, ok a)

unfoldable pub continued : {C E A B : Type 0} → (A → Act C E B) → C × Result E A → C × Result E B
continued f (c, ok a) = f a c
continued f (c, err e) = (c, err e)

infixl 5 ◌>>=◌ ◌>>◌
unfoldable pub ◌>>=◌ : {C E A B : Type 0} → Act C E A → (A → Act C E B) → Act C E B
unfolding continued
◌>>=◌ m f c = continued f (m c)

abbrev pub ◌>>◌ : {C E B : Type 0} → Act C E (Unit {0}) → Act C E B → Act C E B
m >> k = m >>= λ _. k

-- An early return of an error, when the test holds.
unfoldable pub raise_if : {C E : Type 0} → Bool → E → Act C E (Unit {0})
raise_if true e c = (c, err e)
raise_if false e c = (c, ok tt)

-- The state that work leaves meets `Q` with its result, or `X` when it failed; `view` is what is
-- seen of the state.
unfoldable pub Outcome :
    {C E A V : Type 0} → (C → V) → (A → V → Type 0) → (V → Type 0) → C × Result E A → Type 0
Outcome view Q X (c, ok a) = Q a (view c)
Outcome view Q X (c, err e) = X (view c)

-- Work that is done.
pub pure_lem :
    {C A V : Type 0} (E : Type 0) (view : C → V) (X : V → Type 0) (Q : A → V → Type 0) (r : A)
    (c : C)
    → Q r (view c)
    → Outcome {E = E} view Q X (pure r c)
unfolding Outcome pure
pure_lem E view X Q r c h = h

module _ {C A B E V : Type 0} (view : C → V) (X : V → Type 0) where
  pub continued_step :
      (m : Act C E A) (f : A → Act C E B) (Q : A → V → Type 0) (R : B → V → Type 0) (c : C)
      → Outcome view Q X (m c)
      → ((r : A) (c' : C) → Q r (view c') → Outcome view R X (f r c'))
      → Outcome view R X ((m >>= f) c)
  unfolding Outcome ◌>>=◌ continued
  continued_step m f Q R c = run (m c)
    where
      run :
          (p : C × Result E A)
          → Outcome view Q X p
          → ((r : A) (c' : C) → Q r (view c') → Outcome view R X (f r c'))
          → Outcome view R X (continued f p)
      run (c', ok a) h next = next a c' h
      run (c', err e) h next = h

-- A test that does not hold lets the work go on.
pub raise_if_step :
    {C B E V : Type 0} (view : C → V) (X : V → Type 0) (R : B → V → Type 0) (t : Bool) (e : E)
    (k : Act C E B) (c : C)
    → t ≡ false
    → Outcome view R X (k c)
    → Outcome view R X ((raise_if t e >> k) c)
unfolding raise_if ◌>>=◌ continued
raise_if_step view X R t e k c h next = rw h next

-- What holds of the state after each part holds of it after both.
pub bind_state :
    {C E A B : Type 0} (P Q : C → Type 0) (m : Act C E A) (f : A → Act C E B) (c : C)
    → P (m c).0
    → ((c' : C) → P c' → Q c')
    → ((a : A) (c' : C) → P c' → Q (f a c').0)
    → Q ((m >>= f) c).0
unfolding ◌>>=◌ continued
bind_state {C = C} {E = E} {A = A} P Q m f c = run (m c)
  where
    run :
        (p : C × Result E A)
        → P p.0
        → ((c' : C) → P c' → Q c')
        → ((a : A) (c' : C) → P c' → Q (f a c').0)
        → Q (continued f p).0
    run (c', ok a) h failed next = next a c' h
    run (c', err e) h failed next = failed c' h

-- What is known of an outcome, weakened on both sides
pub Outcome-mono :
    {C E A V : Type 0} (view : C → V) (Q R : A → V → Type 0) (X Y : V → Type 0) (p : C × Result E A)
    → Outcome view Q X p
    → ((a : A) (v : V) → Q a v → R a v)
    → ((v : V) → X v → Y v)
    → Outcome view R Y p
unfolding Outcome
Outcome-mono view Q R X Y (c, ok a) h done failed = done a (view c) h
Outcome-mono view Q R X Y (c, err e) h done failed = failed (view c) h
