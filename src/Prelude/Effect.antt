-- ===== src/Prelude/Effect.antt =====
-- The effects of the source's methods: a state that is changed in place, and what ends a call
-- early. What was written before an early end stays written.
use mathlib.Core.Path.{◌≡◌, refl}
use mathlib.Core.Bool.{Bool, true, false}
use mathlib.Core.List.{List, [], ◌∷◌}
use roq_fix_proxy.Prelude.Tests.{if◌then◌else◌}
use roq_fix_proxy.Prelude.Text.{Text}

-- `not_ready` and `malformed` are exceptions, `fatal` is log::fatal, which ends the process, and
-- `dangling` is the use of a session that is not in the store any more.
pub data Error : Type 0 where
  not_ready : Text → Error
  malformed fatal dangling : Error

pub data Result {ℓ} (A : Type ℓ) : Type ℓ where
  ok : A → Result A
  err : Error → Result A

abbrev pub Action {ℓ κ} : Type ℓ → Type κ → Type (ℓ ⊔ κ)
Action S A = S → Result A × S

module _ {S A : Type 0} where
  unfoldable pub pure : A → Action S A
  pure a s = (ok a, s)

  unfoldable pub throw : Error → Action S A
  throw e s = (err e, s)

  unfoldable pub gets : (S → A) → Action S A
  gets f s = (ok (f s), s)

unfoldable pub skip : {S : Type 0} → Action S (Unit {0})
skip s = (ok tt, s)

module _ {S A B : Type 0} where
  abbrev pub resume : Result A → (A → Action S B) → Action S B
  resume (ok a) f s = f a s
  resume (err e) f s = (err e, s)

  infixl 5 ◌>>=◌ ◌>>◌
  unfoldable pub ◌>>=◌ : Action S A → (A → Action S B) → Action S B
  ◌>>=◌ m f s = let (r, t) = m s in resume r f t

  -- Opening this opens the other ways to build an action too.
  unfoldable pub ◌>>◌ : Action S A → Action S B → Action S B
  unfolding ◌>>=◌ pure throw gets skip
  ◌>>◌ m f s = let (r, t) = m s in resume r (λ _. f) t

-- `for (auto &x : xs) body(x)`
unfoldable pub for_each : {S A : Type 0} → List A → (A → Action S (Unit {0})) → Action S (Unit {0})
for_each [] body = skip
for_each (x ∷ xs) body = body x >> for_each xs body

-- `m` keeps `P`, however it ends.
pub record Keeps {St A : Type 0} (P : St → Type 0) (m : Action St A) : Type 0 where
  pub at : (st : St) → P st → P (m st).1

module _ {St : Type 0} {P : St → Type 0} where
  pub Keeps-skip : Keeps P skip
  unfolding skip
  Keeps-skip = record { at = λ st before. before }

module _ {St A : Type 0} {P : St → Type 0} where
  pub Keeps-pure : (out : A) → Keeps P (pure out)
  unfolding pure
  Keeps-pure out = record { at = λ st before. before }

  pub Keeps-throw : (e : Error) → Keeps P (throw {A = A} e)
  unfolding throw
  Keeps-throw e = record { at = λ st before. before }

  pub Keeps-gets : (f : St → A) → Keeps P (gets f)
  unfolding gets
  Keeps-gets f = record { at = λ st before. before }

  pub Keeps-if :
      (b : Bool) {m n : Action St A} → Keeps P m → Keeps P n → Keeps P (if b then m else n)
  Keeps-if true first kn = first
  Keeps-if false first kn = kn

module _ {St A B : Type 0} {P : St → Type 0} where
  Keeps-resume :
      (r : Result A) (f : A → Action St B) (st : St)
      → ((out : A) → Keeps P (f out))
      → P st
      → P (resume r f st).1
  Keeps-resume (ok out) f st keep before = (keep out).at st before
  Keeps-resume (err e) f st keep before = before

  pub Keeps-bind :
      {m : Action St A} {f : A → Action St B}
      → Keeps P m
      → ((out : A) → Keeps P (f out))
      → Keeps P (m >>= f)
  unfolding ◌>>=◌
  Keeps-bind {m} {f} first keep = record {
    at = λ st before. let (r, t) = m st in Keeps-resume r f t keep (first.at st before);
  }

  pub Keeps-then : {m : Action St A} {f : Action St B} → Keeps P m → Keeps P f → Keeps P (m >> f)
  unfolding ◌>>◌
  Keeps-then {m} {f} first keep = record {
    at = λ st before.
        let (r, t) = m st in Keeps-resume r (λ _. f) t (λ _. keep) (first.at st before);
  }

module _ {St A : Type 0} {P : St → Type 0} where
  pub Keeps-for_each :
      (xs : List A) {body : A → Action St (Unit {0})}
      → ((x : A) → Keeps P (body x))
      → Keeps P (for_each xs body)
  unfolding for_each
  Keeps-for_each [] kb = Keeps-skip
  Keeps-for_each (x ∷ xs) kb = Keeps-then (kb x) (Keeps-for_each xs kb)

-- `m` leads from `P` to `R`, however it ends.
pub record Leads {St A : Type 0} (P R : St → Type 0) (m : Action St A) : Type 0 where
  pub at : (st : St) → P st → R (m st).1

pub Leads-of_Keeps : {St A : Type 0} {P : St → Type 0} {m : Action St A} → Keeps P m → Leads P P m
Leads-of_Keeps k = record { at = k.at }

-- What more is known at first is not needed.
pub Leads-weaken :
    {St A : Type 0} {P R : St → Type 0} {m : Action St A}
    → Keeps P m
    → Leads (λ st. P st × R st) P m
Leads-weaken k = record { at = λ st before. k.at st before.0 }

module _ {St A B : Type 0} {M R : St → Type 0} where
  Leads-resume :
      (r : Result A) (f : A → Action St B) (st : St)
      → ((st : St) → M st → R st)
      → ((out : A) → Leads M R (f out))
      → M st
      → R (resume r f st).1
  Leads-resume (ok out) f st weaker lf before = (lf out).at st before
  Leads-resume (err e) f st weaker lf before = weaker st before

module _ {St A B : Type 0} {P M R : St → Type 0} where
  pub Leads-bind :
      {m : Action St A} {f : A → Action St B}
      → Leads P M m
      → ((st : St) → M st → R st)
      → ((out : A) → Leads M R (f out))
      → Leads P R (m >>= f)
  unfolding ◌>>=◌
  Leads-bind {m} {f} lm weaker lf = record {
    at = λ st before. let (r, t) = m st in Leads-resume r f t weaker lf (lm.at st before);
  }

  pub Leads-then :
      {m : Action St A} {f : Action St B}
      → Leads P M m
      → ((st : St) → M st → R st)
      → Leads M R f
      → Leads P R (m >> f)
  unfolding ◌>>◌
  Leads-then {m} {f} lm weaker lf = record {
    at = λ st before.
        let (r, t) = m st in Leads-resume r (λ _. f) t weaker (λ _. lf) (lm.at st before);
  }

-- What is read from the state is known to be there.
module _ {St A B : Type 0} {P R : St → Type 0} where
  pub Leads-gets :
      (g : St → A) (f : A → Action St B)
      → ((st : St) → P st → R (f (g st) st).1)
      → Leads P R (gets g >>= f)
  unfolding ◌>>=◌ gets
  Leads-gets g f before = record { at = before }

pub Keeps-of_Leads : {St A : Type 0} {P : St → Type 0} {m : Action St A} → Leads P P m → Keeps P m
Keeps-of_Leads k = record { at = k.at }

-- `m` leads from `P` to `R` where it returns.
pub record Gives {St A : Type 0} (P R : St → Type 0) (m : Action St A) : Type 0 where
  pub at : (st : St) → P st → (out : A) → (m st).0 ≡ ok out → R (m st).1

module _ {St A B : Type 0} {M R : St → Type 0} where
  Gives-resume :
      (r : Result A) (f : Action St B) (st : St) (b : B)
      → ((out : A) → r ≡ ok out → M st)
      → Gives M R f
      → (resume r (λ _. f) st).0 ≡ ok b
      → R (resume r (λ _. f) st).1
  Gives-resume (ok out) f st b m g e = g.at st (m out refl) b e
  Gives-resume (err x) f st b m g e = absurd cc

module _ {St A B : Type 0} {P M R : St → Type 0} where
  pub Gives-then :
      {m : Action St A} {f : Action St B} → Gives P M m → Gives M R f → Gives P R (m >> f)
  unfolding ◌>>◌
  Gives-then {m} {f} gm gf = record {
    at = λ st before b e. Gives-resume (m st).0 f (m st).1 b (gm.at st before) gf e;
  }

-- `m` returns from `P`, and `P` holds afterwards.
pub record Returns {St : Type 0} (P : St → Type 0) (m : Action St (Unit {0})) : Type 0 where
  pub at : (st : St) → P st → ((m st).0 ≡ ok tt) × P (m st).1

module _ {St : Type 0} {P : St → Type 0} where
  pub Returns-skip : Returns P skip
  unfolding skip
  Returns-skip = record { at = λ st before. (refl, before) }

  Returns-resume :
      (r : Result (Unit {0})) (f : Action St (Unit {0})) (st : St)
      → (r ≡ ok tt) × P st
      → Returns P f
      → ((resume r (λ _. f) st).0 ≡ ok tt) × P (resume r (λ _. f) st).1
  Returns-resume (ok tt) f st before k = k.at st before.1
  Returns-resume (err e) f st before k = absurd cc

  pub Returns-then : {m f : Action St (Unit {0})} → Returns P m → Returns P f → Returns P (m >> f)
  unfolding ◌>>◌
  Returns-then {m} {f} first keep = record {
    at = λ st before. Returns-resume (m st).0 f (m st).1 (first.at st before) keep;
  }

  pub Returns-for_each :
      {A : Type 0} (xs : List A) {body : A → Action St (Unit {0})}
      → ((x : A) → Returns P (body x))
      → Returns P (for_each xs body)
  unfolding for_each
  Returns-for_each [] k = Returns-skip
  Returns-for_each (x ∷ xs) k = Returns-then (k x) (Returns-for_each xs k)

module _ {St A : Type 0} {P : St → Type 0} where
  pub Returns-gets :
      (g : St → A) {f : A → Action St (Unit {0})}
      → ((out : A) → Returns P (f out))
      → Returns P (gets g >>= f)
  unfolding ◌>>=◌ gets
  Returns-gets g {f} k = record { at = λ st before. (k (g st)).at st before }
