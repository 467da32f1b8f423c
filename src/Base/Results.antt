-- ===== src/Base/Results.antt =====
-- Rust's `Result<T, E>`: the `?` operator as `do`, early returns, and `map_err`.
use mathlib.Core.Path.{◌≡◌, refl}
use mathlib.Core.Logic.{◌⊎◌, inl, inr}
use mathlib.Core.Bool.{Bool, true, false}
use native.Mathlib.Omega.{arith}

pub data Result (A E : Type 0) : Type 0 where
  ok : A → Result A E
  err : E → Result A E

-- A result is a value or an error, with what it is equal to.
pub Result-cases :
    {A E : Type 0} (r : Result A E) → ((a : A) × (r ≡ ok a)) ⊎ ((e : E) × (r ≡ err e))
Result-cases (ok a) = inl (a, refl)
Result-cases (err e) = inr (e, refl)

abbrev pub map_err : {A E F : Type 0} → (E → F) → Result A E → Result A F
map_err f (ok a) = ok a
map_err f (err e) = err (f e)

-- `if c { return Err(e); }`
abbrev pub reject_if : {E : Type 0} → Bool → E → Result (Unit {0}) E
reject_if c e = elim c [ true ↦ err e | false ↦ ok tt ]

-- What follows a `?`.
infixl 5 ◌>>=◌ ◌>>◌
abbrev pub ◌>>=◌ : {A B E : Type 0} → Result A E → (A → Result B E) → Result B E
r >>= next = elim r [ ok a ↦ next a | err e ↦ err e ]

abbrev pub ◌>>◌ : {B E : Type 0} → Result (Unit {0}) E → Result B E → Result B E
first >> then = elim first [ ok done ↦ then | err e ↦ err e ]

pub reject_if-eq-ok : {E : Type 0} (c : Bool) (e : E) → reject_if c e ≡ ok tt → c ≡ false
reject_if-eq-ok c e h = ground arith

-- A chain that succeeds has succeeded at its first link.
pub >>=-eq-ok :
    {A B E : Type 0} (r : Result A E) (next : A → Result B E) {b : B}
    → (r >>= next) ≡ ok b
    → (a : A) × (r ≡ ok a) × (next a ≡ ok b)
>>=-eq-ok r next h = elim (Result-cases r) [
  | inl (a, e) ↦ (a, e, (rw e at h))
  | inr (x, e) ↦ let bad : err x ≡ ok _ = rw e at h in cc
]

-- What follows a guard that passed.
pub then_ok :
    {B E : Type 0} (c : Bool) (e : E) (rest : Result B E) {b : B}
    → (reject_if c e >> rest) ≡ ok b
    → (c ≡ false) × (rest ≡ ok b)
then_ok true e rest h = let bad : err e ≡ ok _ = h in absurd (cc)
then_ok false e rest h = (refl, h)

pub >>-eq-ok :
    {B E : Type 0} (r : Result (Unit {0}) E) (rest : Result B E) {b : B}
    → (r >> rest) ≡ ok b
    → (r ≡ ok tt) × (rest ≡ ok b)
>>-eq-ok (ok tt) rest h = (refl, h)
>>-eq-ok (err e) rest h = let bad : err e ≡ ok _ = h in absurd (cc)

pub ok_injective : {A E : Type 0} {a b : A} → ◌≡◌ {A = Result A E} (ok a) (ok b) → a ≡ b
ok_injective h = cc
