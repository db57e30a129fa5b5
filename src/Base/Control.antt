-- ===== src/Base/Control.antt =====
-- How a Go call ends: it returns, it panics, it ends the process, or it is still running when the
-- rounds given to its loop are used up.
use Prim.Native.Nat.{ℕ}
use mathlib.Core.Path.{◌≡◌, refl, subst}
use mathlib.Core.Bool.{Bool, true, false}
use mathlib.Core.Option.{Option, none, some}
use mathlib.Core.Logic.{◌≢◌}
use magiskboot_go.Base.Tests.{if◌then◌else◌}

pub data Outcome {ℓ} (A : Type ℓ) : Type ℓ where
  ret : A → Outcome A
  panic : Outcome A
  exit : ℕ → Outcome A
  running : Outcome A

infixl 5 ◌>>=◌ ◌>>◌
abbrev pub ◌>>=◌ {ℓ κ} : {A : Type ℓ} {B : Type κ} → Outcome A → (A → Outcome B) → Outcome B
ret a >>= f = f a
panic >>= f = panic
exit n >>= f = exit n
running >>= f = running

abbrev pub ◌>>◌ {ℓ κ} : {A : Type ℓ} {B : Type κ} → Outcome A → Outcome B → Outcome B
m >> k = m >>= λ _. k

-- `log.Fatalln` ends the process with status 1.
abbrev pub fatal {ℓ} : {A : Type ℓ} → Outcome A
fatal = exit 1

-- Inversion of a bind that returns.
pub >>=-eq-ret {ℓ κ} :
    {A : Type ℓ} {B : Type κ} (m : Outcome A) (f : A → Outcome B) {b : B}
    → (m >>= f) ≡ ret b
    → (a : A) × (m ≡ ret a) × (f a ≡ ret b)
>>=-eq-ret (ret a) f h = (a, refl, h)
>>=-eq-ret panic f h = cc
>>=-eq-ret (exit n) f h = cc
>>=-eq-ret running f h = cc

-- Whether a call returned.
abbrev pub returns {ℓ} : {A : Type ℓ} → Outcome A → Bool
returns (ret a) = true
returns _ = false

-- What a call returns, where it returns, has a property.
abbrev pub Returns {ℓ κ} : {A : Type ℓ} → (A → Type κ) → Outcome A → Type κ
Returns P (ret a) = P a
Returns P panic = Unit
Returns P (exit n) = Unit
Returns P running = Unit

pub Returns->>= {ℓ κ ℓ' κ'} :
    {A : Type ℓ} {B : Type κ} (P : A → Type ℓ') (Q : B → Type κ') (m : Outcome A)
    (f : A → Outcome B)
    → Returns P m
    → ((a : A) → P a → Returns Q (f a))
    → Returns Q (m >>= f)
Returns->>= P Q (ret a) f h k = k a h
Returns->>= P Q panic f h k = tt
Returns->>= P Q (exit n) f h k = tt
Returns->>= P Q running f h k = tt

pub Returns_all {ℓ κ} :
    {A : Type ℓ} (P : A → Type κ) (m : Outcome A) → ((a : A) → P a) → Returns P m
Returns_all P (ret a) h = h a
Returns_all P panic h = tt
Returns_all P (exit n) h = tt
Returns_all P running h = tt

pub Returns_weaken {ℓ κ κ'} :
    {A : Type ℓ} (P : A → Type κ) (Q : A → Type κ') (m : Outcome A)
    → ((a : A) → P a → Q a)
    → Returns P m
    → Returns Q m
Returns_weaken P Q (ret a) f h = f a h
Returns_weaken P Q panic f h = tt
Returns_weaken P Q (exit n) f h = tt
Returns_weaken P Q running f h = tt

pub if-Returns {ℓ κ} :
    {A : Type ℓ} (P : A → Type κ) (b : Bool) (m n : Outcome A)
    → Returns P m
    → Returns P n
    → Returns P (if b then m else n)
if-Returns P true m n h k = h
if-Returns P false m n h k = k

-- A property of every result passes through a step whose own result does not matter.
pub Returns-then {ℓ κ κ'} :
    {A : Type ℓ} {B : Type κ} (Q : B → Type κ') (m : Outcome A) (f : A → Outcome B)
    → ((a : A) → Returns Q (f a))
    → Returns Q (m >>= f)
Returns-then Q (ret a) f k = k a
Returns-then Q panic f k = tt
Returns-then Q (exit n) f k = tt
Returns-then Q running f k = tt

pub Returns_at {ℓ κ} :
    {A : Type ℓ} (P : A → Type κ) (m : Outcome A) (a : A) → Returns P m → m ≡ ret a → P a
Returns_at P (ret b) a h e = subst P (cc) h
Returns_at P panic a h e = cc
Returns_at P (exit n) a h e = cc
Returns_at P running a h e = cc

-- A call that returns, panics or ends the process.
pub data Ends {ℓ} {A : Type ℓ} : Outcome A → Type ℓ where
  returned : (a : A) → Ends (ret a)
  panicked : Ends panic
  exited : (n : ℕ) → Ends (exit n)

pub Ends->>= {ℓ κ} :
    {A : Type ℓ} {B : Type κ} (m : Outcome A) (f : A → Outcome B)
    → Ends m
    → ((a : A) → Ends (f a))
    → Ends (m >>= f)
Ends->>= (ret a) f h k = k a
Ends->>= panic f h k = panicked
Ends->>= (exit n) f h k = exited n
Ends->>= running f h k = elim h [ ]

pub if-Ends {ℓ} :
    {A : Type ℓ} (b : Bool) (m n : Outcome A) → Ends m → Ends n → Ends (if b then m else n)
if-Ends true m n h k = h
if-Ends false m n h k = k

pub option-Ends {ℓ κ} :
    {A : Type ℓ} {B : Type κ} (o : Option A) (m : Outcome B) (f : A → Outcome B)
    → Ends m
    → ((a : A) → Ends (f a))
    → Ends (elim o [ none ↦ m | some a ↦ f a ])
option-Ends none m f h k = h
option-Ends (some a) m f h k = k a

pub Ends-not_running {ℓ} : {A : Type ℓ} (m : Outcome A) → Ends m → m ≢ running
Ends-not_running (ret a) h = cc
Ends-not_running panic h = cc
Ends-not_running (exit n) h = cc
Ends-not_running running h = elim h [ ]

pub not_running-Ends {ℓ} : {A : Type ℓ} (m : Outcome A) → m ≢ running → Ends m
not_running-Ends (ret a) h = returned a
not_running-Ends panic h = panicked
not_running-Ends (exit n) h = exited n
not_running-Ends running h = absurd (h refl)

-- Rules for `search`.
pub ruleset ends = (returned, panicked, exited, Ends->>=, if-Ends, option-Ends)
