-- ===== src/Base/Outcomes.antt =====
-- The ways in which a call of a C++ function can end.
use Prim.Native.Nat.{ℕ, ◌+◌, ◌<◌}
use Prim.Native.String.{String}
use mathlib.Core.Path.{◌≡◌, refl, ap}
use mathlib.Core.List.{List, ◌++◌}
use mathlib.Core.Option.{none, some}
use diginext.Base.Lists.{get_elem?, get_or, length, get_elem?-append, get_elem?-get_or}

-- `undefined` is undefined behaviour, such as an access out of bounds; no handler catches it.
-- `out_of_fuel` is no C++ behaviour: a loop of the model has used up its rounds.
pub data Outcome {ℓ} (A : Type ℓ) : Type ℓ where
  ok : A → Outcome A
  throws : String → Outcome A
  undefined : Outcome A
  out_of_fuel : Outcome A

infixl 5 ◌>>=◌
abbrev pub ◌>>=◌ {ℓ κ} : {A : Type ℓ} {B : Type κ} → Outcome A → (A → Outcome B) → Outcome B
ok a >>= f = f a
throws e >>= f = throws e
undefined >>= f = undefined
out_of_fuel >>= f = out_of_fuel

-- `p[i]` for memory of which only the listed bytes may be read.
unfoldable pub read {ℓ} : {A : Type ℓ} → List A → ℕ → Outcome A
read mem i = elim (get_elem? mem i) [ none ↦ undefined | some x ↦ ok x ]

read-append {ℓ} :
    {A : Type ℓ} (xs ys : List A) (i k : ℕ) → i ≡ length xs + k → read (xs ++ ys) i ≡ read ys k
unfolding read
read-append xs ys i k h = rw (get_elem?-append xs ys i k h, read)

pub read-get_or {ℓ} :
    {A : Type ℓ} (xs : List A) (i : ℕ) (d : A) → i < length xs → read xs i ≡ ok (get_or xs i d)
unfolding read
read-get_or xs i d h = rw (get_elem?-get_or xs i d h, read)

-- One step of a `do` block that goes on.
pub bind_step {ℓ κ} :
    {A : Type ℓ} {B : Type κ} {m : Outcome A} {a : A} {r : Outcome B} (f : A → Outcome B)
    → m ≡ ok a
    → f a ≡ r
    → (m >>= f) ≡ r
bind_step f e h = rw e h

pub bind_assoc {ℓ κ μ} :
    {A : Type ℓ} {B : Type κ} {C : Type μ} (m : Outcome A) (f : A → Outcome B) (g : B → Outcome C)
    → ((m >>= f) >>= g) ≡ (m >>= λ a. f a >>= g)
bind_assoc (ok a) f g = refl
bind_assoc (throws e) f g = refl
bind_assoc undefined f g = refl
bind_assoc out_of_fuel f g = refl

pub bind_cong {ℓ κ} :
    {A : Type ℓ} {B : Type κ} (m : Outcome A) (f g : A → Outcome B)
    → ((a : A) → f a ≡ g a)
    → (m >>= f) ≡ (m >>= g)
bind_cong (ok a) f g h = h a
bind_cong (throws e) f g h = refl
bind_cong undefined f g h = refl
bind_cong out_of_fuel f g h = refl

pub bind_ok {ℓ} : {A : Type ℓ} (m : Outcome A) → (m >>= λ a. ok a) ≡ m
bind_ok (ok a) = refl
bind_ok (throws e) = refl
bind_ok undefined = refl
bind_ok out_of_fuel = refl

pub bind_undefined {ℓ κ} :
    {A : Type ℓ} {B : Type κ} {m : Outcome A} (f : A → Outcome B)
    → m ≡ undefined
    → (m >>= f) ≡ undefined
bind_undefined f e = rw e

-- `read` behind a known front.
pub read_behind {ℓ} :
    {A : Type ℓ} (xs ys : List A) (i k : ℕ) {x : A}
    → i ≡ length xs + k
    → get_elem? ys k ≡ some x
    → read (xs ++ ys) i ≡ ok x
unfolding read
read_behind xs ys i k h e = rw (get_elem?-append xs ys i k h, e, read)

pub read_past {ℓ} :
    {A : Type ℓ} (mem : List A) (i : ℕ) → get_elem? mem i ≡ none → read mem i ≡ undefined
unfolding read
read_past mem i e = rw (e, read)

-- A `do` block that returns has gone through its first step.
pub bind_inversion {ℓ κ} :
    {A : Type ℓ} {B : Type κ} (m : Outcome A) (f : A → Outcome B) {r : B}
    → (m >>= f) ≡ ok r
    → (a : A) × (m ≡ ok a) × (f a ≡ ok r)
bind_inversion (ok a) f h = (a, refl, h)
bind_inversion (throws e) f h = cc
bind_inversion undefined f h = cc
bind_inversion out_of_fuel f h = cc

pub ok_injective {ℓ} : {A : Type ℓ} (x y : A) → ◌≡◌ {A = Outcome A} (ok x) (ok y) → x ≡ y
ok_injective x y e = ap (λ o. elim o [ ok r ↦ r | _ ↦ x ]) e
