-- ===== src/Livox/Fault.antt =====
-- The outcome of code that can leave defined behaviour: a value, or the fault that it commits.
use robot_nav.Prelude.{◌≡◌, refl, Bool, true, false, if◌then◌else◌}

pub data Fault : Type 0 where
  null_deref double_free use_after_free out_of_bounds div_by_zero failed_assertion : Fault

pub data Outcome {ℓ} (A : Type ℓ) : Type ℓ where
  done : A → Outcome A
  fault : Fault → Outcome A

infixl 5 ◌>>=◌ ◌>>◌
abbrev pub ◌>>=◌ {ℓ κ} : {A : Type ℓ} {B : Type κ} → Outcome A → (A → Outcome B) → Outcome B
done a >>= f = f a
fault e >>= f = fault e

abbrev pub ◌>>◌ {ℓ} : {B : Type ℓ} → Outcome (Unit {0}) → Outcome B → Outcome B
m >> k = m >>= λ _. k

pub bind_done {ℓ κ} :
    {A : Type ℓ} {B : Type κ} {m : Outcome A} {a : A} (f : A → Outcome B)
    → m ≡ done a
    → (m >>= f) ≡ f a
bind_done f e = rw e refl

-- A value comes back, and it satisfies P.
pub data Returns {A : Type 0} (P : A → Type 0) : Outcome A → Type 0 where
  returns : {a : A} → P a → Returns P (done a)

pub Returns-map :
    {A : Type 0} {P Q : A → Type 0} {m : Outcome A}
    → ((a : A) → P a → Q a)
    → Returns P m
    → Returns Q m
Returns-map f (returns {a} h) = returns (f a h)

-- The rule of a `do` block.
pub Returns-bind :
    {A B : Type 0} {P : A → Type 0} {Q : B → Type 0} {m : Outcome A} {f : A → Outcome B}
    → Returns P m
    → ((a : A) → P a → Returns Q (f a))
    → Returns Q (m >>= f)
Returns-bind (returns {a} h) k = k a h

pub if-Returns :
    {A : Type 0} {P : A → Type 0} (b : Bool) {m n : Outcome A}
    → Returns P m
    → Returns P n
    → Returns P (if b then m else n)
if-Returns true h k = h
if-Returns false h k = k

pub Returns_value :
    {A : Type 0} {P : A → Type 0} {m : Outcome A} → Returns P m → (a : A) × (m ≡ done a) × P a
Returns_value (returns {a} h) = (a, refl, h)

-- A value that satisfies P, or the fault of a read or write out of range, for the reason C.
pub data Safe {A : Type 0} (P : A → Type 0) (C : Type 0) : Outcome A → Type 0 where
  safe : {a : A} → P a → Safe P C (done a)
  faulty : C → Safe P C (fault out_of_bounds)

pub Safe-bind :
    {A B : Type 0} {P : A → Type 0} {Q : B → Type 0} {C : Type 0} {m : Outcome A}
    {f : A → Outcome B}
    → Safe P C m
    → ((a : A) → P a → Safe Q C (f a))
    → Safe Q C (m >>= f)
Safe-bind (safe {a} h) k = k a h
Safe-bind (faulty c) k = faulty c

pub Safe-of_Returns :
    {A : Type 0} {P : A → Type 0} {C : Type 0} {m : Outcome A} → Returns P m → Safe P C m
Safe-of_Returns (returns h) = safe h

pub if-Safe :
    {A : Type 0} {P : A → Type 0} {C : Type 0} (b : Bool) {m n : Outcome A}
    → Safe P C m
    → Safe P C n
    → Safe P C (if b then m else n)
if-Safe true h k = h
if-Safe false h k = k

pub Safe-map :
    {A : Type 0} {P Q : A → Type 0} {C C' : Type 0} {m : Outcome A}
    → ((a : A) → P a → Q a)
    → (C → C')
    → Safe P C m
    → Safe Q C' m
Safe-map f g (safe {a} h) = safe (f a h)
Safe-map f g (faulty c) = faulty (g c)

pub done-injective : {A : Type 0} (a b : A) → done a ≡ done b → a ≡ b
done-injective a b e = cc

-- If a value comes back, it satisfies P.
pub data IfDone {A : Type 0} (P : A → Type 0) : Outcome A → Type 0 where
  value : {a : A} → P a → IfDone P (done a)
  failed : {e : Fault} → IfDone P (fault e)

pub IfDone-bind :
    {A B : Type 0} {P : A → Type 0} {Q : B → Type 0} {m : Outcome A} {f : A → Outcome B}
    → IfDone P m
    → ((a : A) → P a → IfDone Q (f a))
    → IfDone Q (m >>= f)
IfDone-bind (value {a} h) k = k a h
IfDone-bind failed k = failed

pub IfDone-map :
    {A : Type 0} {P Q : A → Type 0} {m : Outcome A}
    → ((a : A) → P a → Q a)
    → IfDone P m
    → IfDone Q m
IfDone-map f (value {a} h) = value (f a h)
IfDone-map f failed = failed

pub if-IfDone :
    {A : Type 0} {P : A → Type 0} (b : Bool) {m n : Outcome A}
    → IfDone P m
    → IfDone P n
    → IfDone P (if b then m else n)
if-IfDone true h k = h
if-IfDone false h k = k

pub IfDone-of_Safe :
    {A : Type 0} {P : A → Type 0} {C : Type 0} {m : Outcome A} → Safe P C m → IfDone P m
IfDone-of_Safe (safe h) = value h
IfDone-of_Safe (faulty c) = failed

pub IfDone-trivial : {A : Type 0} (m : Outcome A) → IfDone (λ a. Unit {0}) m
IfDone-trivial (done a) = value tt
IfDone-trivial (fault e) = failed

-- A bind whose first part returns something, whatever it is, and whose second part always faults.
pub bind_fault :
    {A B : Type 0} {P : A → Type 0} {m : Outcome A} {f : A → Outcome B}
    → Returns P m
    → ((a : A) → P a → f a ≡ fault out_of_bounds)
    → (m >>= f) ≡ fault out_of_bounds
bind_fault (returns {a} h) k = k a h

-- What follows always faults, and what goes before may fault in the same way.
pub Safe-fault :
    {A B : Type 0} {P : A → Type 0} {C : Type 0} {m : Outcome A} {f : A → Outcome B}
    → Safe P C m
    → ((a : A) → P a → f a ≡ fault out_of_bounds)
    → (m >>= f) ≡ fault out_of_bounds
Safe-fault (safe {a} h) k = k a h
Safe-fault (faulty c) k = refl

-- The value that comes back is that of the run.
pub Safe-known :
    {A : Type 0} {P : A → Type 0} {C : Type 0} {m : Outcome A}
    → Safe P C m
    → Safe (λ a. P a × (m ≡ done a)) C m
Safe-known (safe {a} h) = safe (h, refl)
Safe-known (faulty c) = faulty c

pub Safe_value :
    {A : Type 0} {P : A → Type 0} {C : Type 0} {m : Outcome A} {a : A}
    → Safe P C m
    → m ≡ done a
    → P a
Safe_value {a = b} (safe {a} h) e = rw (done-injective a b e) at h
Safe_value (faulty c) e = cc
