-- ===== src/Prelude/Run.antt =====
-- The outcome of a call: it returns, or the process stops or is undefined.
use parted.Prelude.{Bool, true, false, Option, none, some, ◌≡◌, refl}

-- `fault`: a PED_ASSERT fails, a division by zero traps, or an object is read that was never set.
pub data Run {ℓ} (A : Type ℓ) : Type ℓ where
  done : A → Run A
  fault : Run A

infixl 5 ◌>>=◌ ◌>>◌
abbrev pub ◌>>=◌ {ℓ κ} : {A : Type ℓ} {B : Type κ} → Run A → (A → Run B) → Run B
done a >>= f = f a
fault >>= f = fault

abbrev pub ◌>>◌ {ℓ} : {B : Type ℓ} → Run (Unit {0}) → Run B → Run B
m >> k = m >>= λ _. k

-- PED_ASSERT (test), as compiled by default.
abbrev pub ped_assert : Bool → Run (Unit {0})
ped_assert true = done tt
ped_assert false = fault

-- A pointer is read: a NULL pointer faults.
abbrev pub deref {ℓ} : {A : Type ℓ} → Option A → Run A
deref (some a) = done a
deref none = fault

-- The call returns, and its result satisfies `P`.
abbrev pub Returns {ℓ} : {A : Type ℓ} → Run A → (A → Type 0) → Type 0
Returns (done a) P = P a
Returns fault P = ⊥

pub Returns_map {ℓ} :
    {A : Type ℓ} {P Q : A → Type 0} (r : Run A) → ((a : A) → P a → Q a) → Returns r P → Returns r Q
Returns_map (done a) f h = f a h
Returns_map fault f h = h

-- A call that returns NULL ends the function, which returns NULL too.
abbrev pub or_null {ℓ κ} :
    {A : Type ℓ} {B : Type κ} → Run (Option A) → (A → Run (Option B)) → Run (Option B)
or_null (done (some a)) f = f a
or_null (done none) f = done none
or_null fault f = fault

-- A call with a postcondition returns a value that satisfies it.
pub Returns→done {ℓ} :
    {A : Type ℓ} (m : Run A) (P : A → Type 0) → Returns m P → (a : A) × (m ≡ done a) × P a
Returns→done (done a) P h = (a, refl, h)
Returns→done fault P h = absurd h

-- A postcondition that also allows NULL.
abbrev pub OrNull {ℓ} : {A : Type ℓ} → (A → Type 0) → Option A → Type 0
OrNull P none = Unit {0}
OrNull P (some a) = P a

pub Returns_bind {ℓ κ} :
    {A : Type ℓ} {B : Type κ} (P : A → Type 0) (Q : B → Type 0) (m : Run A) (f : A → Run B)
    → Returns m P
    → ((a : A) → P a → Returns (f a) Q)
    → Returns (m >>= f) Q
Returns_bind P Q (done a) f h k = k a h
Returns_bind P Q fault f h k = h
