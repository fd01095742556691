-- ===== src/Common/Run.antt =====
-- How a piece of the C++ code ends: with a value, by undefined behaviour (an access outside an
-- array, through a null or dangling pointer), by a failed CHECK or assert, or, in the model only,
-- because the fuel of a loop ran out.
use mathlib.Core.Path.{◌≡◌, refl, subst}
use mathlib.Core.Bool.{Bool, true, false}
use play_frame.Common.Tests.{if◌then◌else◌}

pub data Run {ℓ} (A : Type ℓ) : Type ℓ where
  ok : A → Run A
  fault check_failed out_of_fuel : Run A

infixl 5 ◌>>=◌ ◌>>◌
abbrev pub ◌>>=◌ {ℓ κ} : {V : Type ℓ} {U : Type κ} → Run V → (V → Run U) → Run U
fault >>= next = fault
check_failed >>= next = check_failed
out_of_fuel >>= next = out_of_fuel
ok value >>= next = next value

abbrev pub ◌>>◌ {ℓ} : {B : Type ℓ} → Run (Unit {0}) → Run B → Run B
m >> k = m >>= λ _. k

-- `CHECK(b)` of glog, and `assert(b)`.
abbrev pub check : Bool → Run (Unit {0})
check true = ok tt
check false = check_failed

-- The run ends normally, with a value that satisfies `Post`.
pub data Returns {ℓ κ} {V : Type ℓ} (Post : V → Type κ) : Run V → Type (ℓ ⊔ κ) where
  returns : {value : V} → Post value → Returns Post (ok value)

-- Both branches of a test, which may use its outcome.
pub Returns-if {ℓ κ} :
    {V : Type ℓ} {Post : V → Type κ} {yes_run no_run : Run V} (test : Bool)
    → (test ≡ true → Returns Post yes_run)
    → (test ≡ false → Returns Post no_run)
    → Returns Post (if test then yes_run else no_run)
Returns-if false yes_case no_case = no_case refl
Returns-if true yes_case no_case = yes_case refl

-- The value and its property.
pub Returns-inv {ℓ κ} :
    {V : Type ℓ} {Post : V → Type κ} {m : Run V}
    → Returns Post m
    → (value : V) × (m ≡ ok value) × Post value
Returns-inv (returns {value} post) = (value, refl, post)

-- A weaker property.
pub Returns-map {ℓ κ κ'} :
    {V : Type ℓ} {Post : V → Type κ} {Weaker : V → Type κ'} {m : Run V}
    → Returns Post m
    → ((value : V) → Post value → Weaker value)
    → Returns Weaker m
Returns-map (returns {value} post) weaken = returns (weaken value post)

-- One piece of code after another.
pub Returns-bind {ℓ κ ℓ' κ'} :
    {V : Type ℓ} {Post : V → Type κ} {U : Type ℓ'} {Final : U → Type κ'} {m : Run V}
    {next : V → Run U}
    → Returns Post m
    → ((value : V) → Post value → Returns Final (next value))
    → Returns Final (m >>= next)
Returns-bind (returns {value} post) then_ = then_ value post

-- What a run that returns is known to return.
pub Returns-ok {ℓ κ} :
    {V : Type ℓ} {Post : V → Type κ} {m : Run V} (value : V)
    → Returns Post m
    → m ≡ ok value
    → Post value
Returns-ok {V} {Post} value (returns {value = v} post) e =
    let same : v ≡ value = cc in subst Post same post

-- The first part of a run that returns has returned.
pub ok-bind {ℓ κ} :
    {V : Type ℓ} {U : Type κ} (m : Run V) (next : V → Run U) (u : U)
    → (m >>= next) ≡ ok u
    → (v : V) × (m ≡ ok v)
ok-bind (ok v) next u e = (v, refl)
ok-bind fault next u e = absurd (cc)
ok-bind check_failed next u e = absurd (cc)
ok-bind out_of_fuel next u e = absurd (cc)

-- What the second part always ends with.
pub bind-all {ℓ κ κ'} :
    {V : Type ℓ} {U : Type κ} {Post : U → Type κ'} (m : Run V) (next : V → Run U) (u : U)
    → (m >>= next) ≡ ok u
    → ((v : V) → Returns Post (next v))
    → Post u
bind-all (ok v) next u e all = Returns-ok u (all v) e
bind-all fault next u e all = absurd (cc)
bind-all check_failed next u e all = absurd (cc)
bind-all out_of_fuel next u e all = absurd (cc)
