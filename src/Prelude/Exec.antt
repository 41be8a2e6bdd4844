-- ===== src/Prelude/Exec.antt =====
-- The result of code that may fault. `crash` stands for undefined behaviour of the source (a null or
-- dangling pointer read, a write past an array) and for an exception that nothing catches;
-- `no_fuel` for a loop that was given too few rounds.
use mathlib.Core.Path.{◌≡◌, refl, subst}
use mathlib.Core.Option.{Option, none, some}
use mathlib.Core.Bool.{Bool, true, false}
use vm.Prelude.Tests.{if◌then◌else◌}

pub data Exec {ℓ} (A : Type ℓ) : Type ℓ where
  ok : A → Exec A
  crash : Exec A
  no_fuel : Exec A

infixl 5 ◌>>=◌
abbrev pub ◌>>=◌ {ℓ κ} : {A : Type ℓ} {B : Type κ} → Exec A → (A → Exec B) → Exec B
ok a >>= f = f a
crash >>= f = crash
no_fuel >>= f = no_fuel

abbrev pub map_exec {ℓ κ} : {A : Type ℓ} {B : Type κ} → (A → B) → Exec A → Exec B
map_exec f (ok a) = ok (f a)
map_exec f crash = crash
map_exec f no_fuel = no_fuel

-- A pointer read: `none` is the null pointer.
abbrev pub deref {ℓ} : {A : Type ℓ} → Option A → Exec A
deref none = crash
deref (some a) = ok a

-- The call returns, and its result satisfies `P`.
abbrev pub Ensures {ℓ} : {A : Type ℓ} → (A → Type 0) → Exec A → Type 0
Ensures P (ok a) = P a
Ensures P crash = ⊥
Ensures P no_fuel = ⊥

pub bind-Ensures {ℓ κ} :
    {A : Type ℓ} {B : Type κ} (P : A → Type 0) (Q : B → Type 0) (m : Exec A) (f : A → Exec B)
    → Ensures P m
    → ((a : A) → P a → Ensures Q (f a))
    → Ensures Q (m >>= f)
bind-Ensures P Q (ok a) f h k = k a h
bind-Ensures P Q crash f h k = absurd h
bind-Ensures P Q no_fuel f h k = absurd h

pub Ensures-mono {ℓ} :
    {A : Type ℓ} (P : A → Type 0) (Q : A → Type 0) (m : Exec A)
    → Ensures P m
    → ((a : A) → P a → Q a)
    → Ensures Q m
Ensures-mono P Q (ok a) h k = k a h
Ensures-mono P Q crash h k = absurd h
Ensures-mono P Q no_fuel h k = absurd h

pub if-Ensures {ℓ} :
    {A : Type ℓ} (P : A → Type 0) (b : Bool) (x y : Exec A)
    → (b ≡ true → Ensures P x)
    → (b ≡ false → Ensures P y)
    → Ensures P (if b then x else y)
if-Ensures P true x y h k = h refl
if-Ensures P false x y h k = k refl

-- Inversion of a successful call.
pub map_exec-eq-ok {ℓ κ} :
    {A : Type ℓ} {B : Type κ} (f : A → B) (m : Exec A) {b : B}
    → map_exec f m ≡ ok b
    → (a : A) × (m ≡ ok a) × (f a ≡ b)
map_exec-eq-ok f (ok a) e = (a, refl, cc)
map_exec-eq-ok f crash e = absurd (cc)
map_exec-eq-ok f no_fuel e = absurd (cc)

pub >>=-eq-ok {ℓ κ} :
    {A : Type ℓ} {B : Type κ} (m : Exec A) (f : A → Exec B) {b : B}
    → (m >>= f) ≡ ok b
    → (a : A) × (m ≡ ok a) × (f a ≡ ok b)
>>=-eq-ok (ok a) f e = (a, refl, e)
>>=-eq-ok crash f e = absurd (cc)
>>=-eq-ok no_fuel f e = absurd (cc)

-- Where the call returns, its result satisfies `P`.
abbrev pub Yields {ℓ} : {A : Type ℓ} → (A → Type 0) → Exec A → Type ℓ
Yields {A = A} P e = (r : A) → e ≡ ok r → P r

pub ok-Yields {ℓ} : {A : Type ℓ} (P : A → Type 0) (a : A) → P a → Yields P (ok a)
ok-Yields P a p r e = let same : a ≡ r = cc in subst P same p

pub bind-Yields {ℓ κ} :
    {A : Type ℓ} {B : Type κ} (Q : B → Type 0) (m : Exec A) (f : A → Exec B)
    → ((a : A) → m ≡ ok a → Yields Q (f a))
    → Yields Q (m >>= f)
bind-Yields Q (ok a) f k = k a refl
bind-Yields Q crash f k = λ r e. absurd (cc)
bind-Yields Q no_fuel f k = λ r e. absurd (cc)

-- Of a test, one branch is taken.
pub if-Yields {ℓ} :
    {A : Type ℓ} (P : A → Type 0) (b : Bool) (x y : Exec A)
    → (b ≡ true → Yields P x)
    → (b ≡ false → Yields P y)
    → Yields P (if b then x else y)
if-Yields P true x y h k = h refl
if-Yields P false x y h k = k refl

pub option-Yields {ℓ κ} :
    {A : Type ℓ} {B : Type κ} (P : B → Type 0) (o : Option A) (x : Exec B) (f : A → Exec B)
    → (o ≡ none → Yields P x)
    → ((a : A) → o ≡ some a → Yields P (f a))
    → Yields P (elim o [ none ↦ x | some a ↦ f a ])
option-Yields P none x f h k = h refl
option-Yields P (some a) x f h k = k a refl
