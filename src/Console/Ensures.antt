-- ===== src/Console/Ensures.antt =====
-- Properties of what an interactive call returns, with a rule for each way to build a call: `Ensures`
-- if it returns, and `Returns` that it does.
use mathlib.Core.Path.{subst}
use dug_os.Common.{ℕ, ◌≡◌, List, Option, none, some}
use dug_os.Console.{Out, Reply, say, ◌>>=◌}
use dug_os.Console.Reading.{value}

-- The result, if the call returns, has `P`.
abbrev pub Ensures : {A : Type 0} → (A → Type 0) → Option (Reply A) → Type 0
Ensures P none = Unit
Ensures P (some r) = P r.result

pub Ensures-any : {A : Type 0} (m : Option (Reply A)) → Ensures (λ _. Unit {0}) m
Ensures-any none = tt
Ensures-any (some r) = tt

pub Ensures-say :
    {A : Type 0} (P : A → Type 0) (o : List Out) (m : Option (Reply A))
    → Ensures P m
    → Ensures P (say o m)
Ensures-say P o none h = tt
Ensures-say P o (some r) h = h

pub Ensures-bind :
    {A B : Type 0} (P : A → Type 0) (Q : B → Type 0) (m : Option (Reply A))
    (f : A → List ℕ → Option (Reply B))
    → Ensures P m
    → ((a : A) (keys : List ℕ) → P a → Ensures Q (f a keys))
    → Ensures Q (m >>= f)
Ensures-bind P Q none f h k = tt
Ensures-bind P Q (some r) f h k = go (f r.result r.keys) (k r.result r.keys h)
  where
    go : (o : Option (Reply _)) → Ensures Q o → Ensures Q (some r >>= λ _ _. o)
    go none g = tt
    go (some q) g = g

pub Ensures-some :
    {A : Type 0} (P : A → Type 0) (m : Option (Reply A)) (r : Reply A)
    → m ≡ some r
    → Ensures P m
    → P r.result
Ensures-some P m r e h = subst (Ensures P) e h

-- The call returns, and its result has `P`.
abbrev pub Returns : {A : Type 0} → (A → Type 0) → Option (Reply A) → Type 0
Returns P none = ⊥
Returns P (some r) = P r.result

pub Returns-say :
    {A : Type 0} (P : A → Type 0) (o : List Out) (m : Option (Reply A))
    → Returns P m
    → Returns P (say o m)
Returns-say P o none h = h
Returns-say P o (some r) h = h

-- A call that goes on from a reading, when this reads `a`.
pub Returns-read :
    {A B : Type 0} (P : B → Type 0) (m : Option (Reply A)) (f : A → List ℕ → Option (Reply B))
    (a : A) (rest : List ℕ)
    → value m ≡ some (a, rest)
    → Returns P (f a rest)
    → Returns P (m >>= f)
Returns-read P none f a rest e h = absurd (cc)
Returns-read P (some r) f a rest e h =
    let got : r.result ≡ a = cc in
    let left : r.keys ≡ rest = cc in then_say (f r.result r.keys) (rw (got, left) h)
  where
    then_say : (o : Option (Reply _)) → Returns P o → Returns P (some r >>= λ _ _. o)
    then_say none g = g
    then_say (some q) g = g
