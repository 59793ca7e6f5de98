-- ===== src/Base/Outcome.antt =====
-- How a piece of the program ends: with a value, or early.
use mathlib.Core.Path.{◌≡◌, refl, subst, ap}
use mathlib.Core.Bool.{Bool, true, false}
use mathlib.Core.Option.{Option, none, some}
use mathlib.Core.Logic.{◌⊎◌, inl, inr}

-- `assertion` is a failed `assert` or `Assert`, a `panic` or a `TODO()`; `undefined` is what C leaves
-- undefined, such as an access outside an array; `out_of_fuel` is the model's own.
pub data Stop : Type 0 where
  assertion undefined out_of_fuel : Stop

pub data Result {ℓ} (A : Type ℓ) : Type ℓ where
  ok : A → Result A
  stop : Stop → Result A

infixl 5 ◌>>◌ ◌>>=◌
abbrev pub ◌>>=◌ {κ ℓ} : {X : Type κ} {Y : Type ℓ} → Result X → (X → Result Y) → Result Y
stop e >>= k = stop e
ok x >>= k = k x

abbrev pub ◌>>◌ {κ} : {Y : Type κ} → Result (Unit {0}) → Result Y → Result Y
first >> second = first >>= λ _. second

-- `assert(test)`
abbrev pub assert : Bool → Result (Unit {0})
assert true = ok tt
assert false = stop assertion

-- An access that C defines only where the test holds.
abbrev pub defined : Bool → Result (Unit {0})
defined true = ok tt
defined false = stop undefined

abbrev pub of_option {ℓ} : {A : Type ℓ} → Stop → Option A → Result A
of_option e none = stop e
of_option e (some a) = ok a

-- Inversion of a successful bind.
pub >>=-eq-ok {κ ℓ} :
    {X : Type κ} {Y : Type ℓ} (r : Result X) (k : X → Result Y) {y : Y}
    → (r >>= k) ≡ ok y
    → (x : X) × (r ≡ ok x) × (k x ≡ ok y)
>>=-eq-ok (stop e) k h = cc
>>=-eq-ok (ok x) k h = (x, refl, h)

pub Result-cases {ℓ} :
    {A : Type ℓ} (m : Result A) → ((a : A) × (m ≡ ok a)) ⊎ ((e : Stop) × (m ≡ stop e))
Result-cases (ok a) = inl (a, refl)
Result-cases (stop e) = inr (e, refl)

-- What a result satisfies if it is a value.
abbrev pub Holds {ℓ} : {A : Type ℓ} → (A → Type 0) → Result A → Type 0
Holds P (ok a) = P a
Holds P (stop e) = Unit {0}

pub Holds-bind {ℓ κ} :
    {A : Type ℓ} {B : Type κ} (Q : A → Type 0) (P : B → Type 0) (m : Result A) (f : A → Result B)
    → Holds Q m
    → ((a : A) → Q a → Holds P (f a))
    → Holds P (m >>= f)
Holds-bind Q P (ok a) f h k = k a h
Holds-bind Q P (stop e) f h k = tt

-- A bind whose first part may give anything.
pub Holds-any {ℓ κ} :
    {A : Type ℓ} {B : Type κ} (P : B → Type 0) (m : Result A) (f : A → Result B)
    → ((a : A) → Holds P (f a))
    → Holds P (m >>= f)
Holds-any P (ok a) f k = k a
Holds-any P (stop e) f k = tt

-- What follows a test need only be looked at where the test holds.
pub Holds-assert {ℓ} :
    {A : Type ℓ} (P : A → Type 0) (b : Bool) (r : Result A)
    → (b ≡ true → Holds P r)
    → Holds P (assert b >> r)
Holds-assert P true r k = k refl
Holds-assert P false r k = tt

pub Holds-defined {ℓ} :
    {A : Type ℓ} (P : A → Type 0) (b : Bool) (r : Result A)
    → (b ≡ true → Holds P r)
    → Holds P (defined b >> r)
Holds-defined P true r k = k refl
Holds-defined P false r k = tt

pub Holds-ok {ℓ} : {A : Type ℓ} (P : A → Type 0) (m : Result A) (a : A) → Holds P m → m ≡ ok a → P a
Holds-ok P m a h e = subst (Holds P) e h

-- A statement about the value, if there is one.
abbrev pub value_or {ℓ} : {A : Type ℓ} → A → Result A → A
value_or d (ok a) = a
value_or d (stop e) = d

pub ok-injective {ℓ} : {A : Type ℓ} {a b : A} → ok a ≡ ok b → a ≡ b
ok-injective {a} h = ap (value_or a) h

pub bind_assoc {κ ℓ μ} :
    {X : Type κ} {Y : Type ℓ} {Z : Type μ} (m : Result X) (f : X → Result Y) (g : Y → Result Z)
    → (m >>= f >>= g) ≡ (m >>= λ x. f x >>= g)
bind_assoc (ok x) f g = refl
bind_assoc (stop e) f g = refl

-- What follows may use what the value satisfies.
pub bind-Holds {κ ℓ} :
    {X : Type κ} {Y : Type ℓ} (Q : X → Type 0) (m : Result X) (f g : X → Result Y)
    → Holds Q m
    → ((x : X) → Q x → f x ≡ g x)
    → (m >>= f) ≡ (m >>= g)
bind-Holds Q (ok x) f g h k = k x h
bind-Holds Q (stop e) f g h k = refl

pub bind_same {κ ℓ} :
    {X : Type κ} {Y : Type ℓ} (m : Result X) (f g : X → Result Y)
    → ((x : X) → f x ≡ g x)
    → (m >>= f) ≡ (m >>= g)
bind_same (ok x) f g k = k x
bind_same (stop e) f g k = refl

-- A run that ends with a value which satisfies `P`, or for want of fuel.
abbrev pub Ends {ℓ} : {A : Type ℓ} → (A → Type 0) → Result A → Type 0
Ends P (ok a) = P a
Ends P (stop out_of_fuel) = Unit {0}
Ends P (stop _) = ⊥

pub Ends-bind {ℓ κ} :
    {A : Type ℓ} {B : Type κ} (Q : A → Type 0) (P : B → Type 0) (m : Result A) (f : A → Result B)
    → Ends Q m
    → ((a : A) → Q a → Ends P (f a))
    → Ends P (m >>= f)
Ends-bind Q P (ok a) f h k = k a h
Ends-bind Q P (stop out_of_fuel) f h k = tt
Ends-bind Q P (stop assertion) f h k = absurd h
Ends-bind Q P (stop undefined) f h k = absurd h

pub Ends-map {ℓ} :
    {A : Type ℓ} (Q P : A → Type 0) (m : Result A) → Ends Q m → ((a : A) → Q a → P a) → Ends P m
Ends-map Q P (ok a) h k = k a h
Ends-map Q P (stop out_of_fuel) h k = tt
Ends-map Q P (stop assertion) h k = absurd h
Ends-map Q P (stop undefined) h k = absurd h
