-- ===== src/Git/Triple.antt =====
-- What a call ensures: of its answer and the state after it, and of the state where it raises.
use zerg.Common.{Bool, true, false, if◌then◌else◌}
use zerg.Git.Calls.{
  Problem, Answer, done, raised, Act, pure, and_then, ◌>>=◌, or_else, rescue, raise, modify,
}

abbrev pub After : {S A : Type 0} → (A → S → Type 0) → (S → Type 0) → Answer A × S → Type 0
After Q E (done a, s) = Q a s
After Q E (raised p, s) = E s

pub record Ensures {S A : Type 0} (P : S → Type 0) (m : Act S A) (Q : A → S → Type 0)
    (E : S → Type 0) : Type 0 where
  pub after : (s : S) → P s → After Q E (m s)

-- A call that keeps what holds, also where it raises.
abbrev pub Keeps : {S A : Type 0} → (S → Type 0) → Act S A → Type 0
Keeps I m = Ensures I m (λ _. I) I

module _ {S A : Type 0} (Q : A → S → Type 0) (E : S → Type 0) where
  After-and_then :
      {B : Type 0} (R : B → S → Type 0) (f : A → Act S B) (x : Answer A × S)
      → After Q E x
      → ((a : A) → Ensures (Q a) (f a) R E)
      → After R E (and_then f x)
  After-and_then R f (done a, s) h k = (k a).after s h
  After-and_then R f (raised p, s) h k = h

  After-or_else :
      (E' : S → Type 0) (g : Problem → Act S A) (x : Answer A × S)
      → After Q E x
      → ((p : Problem) → Ensures E (g p) Q E')
      → After Q E' (or_else g x)
  After-or_else E' g (done a, s) h k = h
  After-or_else E' g (raised p, s) h k = (k p).after s h

  After-weaken :
      (Q' : A → S → Type 0) (E' : S → Type 0) (x : Answer A × S)
      → ((a : A) (s : S) → Q a s → Q' a s)
      → ((s : S) → E s → E' s)
      → After Q E x
      → After Q' E' x
  After-weaken Q' E' (done a, s) q e h = q a s h
  After-weaken Q' E' (raised p, s) q e h = e s h

module _ {S A : Type 0} {P : S → Type 0} {Q : A → S → Type 0} {E : S → Type 0} where
  pub Ensures-bind :
      {B : Type 0} {R : B → S → Type 0} {m : Act S A} {f : A → Act S B}
      → Ensures P m Q E
      → ((a : A) → Ensures (Q a) (f a) R E)
      → Ensures P (m >>= f) R E
  Ensures-bind {R = R} {m = m} {f = f} h k = record {
    after = λ s p. After-and_then Q E R f (m s) (h.after s p) k;
  }

  pub Ensures-rescue :
      {E' : S → Type 0} {m : Act S A} {g : Problem → Act S A}
      → Ensures P m Q E
      → ((p : Problem) → Ensures E (g p) Q E')
      → Ensures P (rescue m g) Q E'
  Ensures-rescue {E' = E'} {m = m} {g = g} h k = record {
    after = λ s p. After-or_else Q E E' g (m s) (h.after s p) k;
  }

  pub Ensures-weaken :
      {Q' : A → S → Type 0} {E' : S → Type 0} {m : Act S A}
      → Ensures P m Q E
      → ((a : A) (s : S) → Q a s → Q' a s)
      → ((s : S) → E s → E' s)
      → Ensures P m Q' E'
  Ensures-weaken {Q' = Q'} {E' = E'} {m = m} h q e = record {
    after = λ s p. After-weaken Q E Q' E' (m s) q e (h.after s p);
  }

  -- The cases of a test.
  pub Ensures-if :
      {m n : Act S A} (b : Bool)
      → Ensures P m Q E
      → Ensures P n Q E
      → Ensures P (if b then m else n) Q E
  Ensures-if true h k = h
  Ensures-if false h k = k

pub Ensures-pure :
    {S A : Type 0} {P : S → Type 0} {E : S → Type 0} (a : A) → Ensures P (pure a) (λ _. P) E
Ensures-pure a = record { after = λ s p. p }

pub Keeps-raise :
    {S A : Type 0} {P : S → Type 0} {Q : A → S → Type 0} (p : Problem) → Ensures P (raise p) Q P
Keeps-raise p = record { after = λ s h. h }

-- A call after which the same holds, whatever it answers.
pub Keeps-then :
    {S A B : Type 0} {P : S → Type 0} {Q : B → S → Type 0} {m : Act S A} {f : A → Act S B}
    → Keeps P m
    → ((a : A) → Ensures P (f a) Q P)
    → Ensures P (m >>= f) Q P
Keeps-then h k = Ensures-bind h k

-- What holds of the state, whether a call answers or raises.
pub After-state : {S A : Type 0} (I : S → Type 0) (x : Answer A × S) → After (λ _. I) I x → I x.1
After-state I (done a, s) h = h
After-state I (raised p, s) h = h

pub After-of_state : {S A : Type 0} (I : S → Type 0) (x : Answer A × S) → I x.1 → After (λ _. I) I x
After-of_state I (done a, s) h = h
After-of_state I (raised p, s) h = h

pub Ensures-modify :
    {S : Type 0} {P Q E : S → Type 0} (f : S → S)
    → ((s : S) → P s → Q (f s))
    → Ensures P (modify f) (λ _. Q) E
Ensures-modify f h = record { after = h }
