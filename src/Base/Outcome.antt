-- ===== src/Base/Outcome.antt =====
-- What an instruction handler or a method returns: Rust's `Result`, its error told apart by where
-- it came from, and the two ways in which a call is cut off without one.
use Prim.Native.Nat.{ℕ, ◌+◌, ◌-◌, ◌*◌, ◌^◌}
use mathlib.Core.Path.{◌≡◌, refl}
use mathlib.Core.Logic.{◌⊎◌, inl, inr}
use mathlib.Core.Bool.{Bool, true, false}
use mathlib.Core.Option.{Option, none, some}
use mathlib.Core.List.{List, [], ◌∷◌}
use solana_amm.Base.Tests.{ltb, leb, if◌then◌else◌}

-- `raised` is an error of the program's own enum, `decimal` one of the crate `decimal`, `foreign`
-- one of the framework or of another program that is invoked, and `panicked` a Rust panic, which
-- aborts the transaction.
pub data Fault (E : Type 0) : Type 0 where
  raised : E → Fault E
  decimal : Fault E
  foreign : Fault E
  panicked : Fault E

pub data Result (E A : Type 0) : Type 0 where
  ok : A → Result E A
  err : Fault E → Result E A

infixl 5 ◌>>=◌ ◌>>◌
abbrev pub ◌>>=◌ : {E A B : Type 0} → Result E A → (A → Result E B) → Result E B
ok a >>= f = f a
err e >>= f = err e

abbrev pub ◌>>◌ : {E B : Type 0} → Result E (Unit {0}) → Result E B → Result E B
m >> k = m >>= λ _. k

-- `if c { return Err(e) }`
abbrev pub raise_if : {E : Type 0} → Bool → E → Result E (Unit {0})
raise_if true e = err (raised e)
raise_if false e = ok tt

-- A panic unless the condition holds.
abbrev pub assert : {E : Type 0} → Bool → Result E (Unit {0})
assert true = ok tt
assert false = err panicked

-- `Option::ok_or`
abbrev pub ok_or : {E A : Type 0} → Option A → E → Result E A
ok_or none e = err (raised e)
ok_or (some a) e = ok a

-- `Option::unwrap`
abbrev pub unwrap : {E A : Type 0} → Option A → Result E A
unwrap none = err panicked
unwrap (some a) = ok a

-- What `?` does to a result of the crate `decimal`, whose errors carry no more here.
abbrev pub lift : {E A : Type 0} → Option A → Result E A
lift none = err decimal
lift (some a) = ok a

-- What `?` does to a result of the framework or of an invoked program.
abbrev pub invoke : {E A : Type 0} → Option A → Result E A
invoke none = err foreign
invoke (some a) = ok a

-- `collect::<Result<Vec<_>>>` of a mapped iterator: the first error ends it.
abbrev pub try_map : {E A B : Type 0} → (A → Result E B) → List A → Result E (List B)
try_map f [] = ok []
try_map f (x ∷ xs) = f x >>= λ y. try_map f xs >>= λ ys. ok (y ∷ ys)

-- `Iterator::try_fold`, and a `for` loop whose body may return early.
abbrev pub try_fold : {E A B : Type 0} → (B → A → Result E B) → B → List A → Result E B
try_fold f b [] = ok b
try_fold f b (x ∷ xs) = f b x >>= λ c. try_fold f c xs

-- One more than `u64::MAX`.
abbrev pub u64_end : ℕ
u64_end = 2 ^ 64

abbrev pub checked_add : ℕ → ℕ → Option ℕ
checked_add a b = if ltb (a + b) u64_end then some (a + b) else none

abbrev pub checked_sub : ℕ → ℕ → Option ℕ
checked_sub a b = if leb b a then some (a - b) else none

abbrev pub checked_mul : ℕ → ℕ → Option ℕ
checked_mul a b = if ltb (a * b) u64_end then some (a * b) else none

-- Where a chain of calls succeeds, its first call did, and so did the rest on its result.
pub >>=-eq-ok :
    {E A B : Type 0} (r : Result E A) (next : A → Result E B) {y : B}
    → (r >>= next) ≡ ok y
    → (x : A) × (r ≡ ok x) × (next x ≡ ok y)
>>=-eq-ok (err fault) next failed = cc
>>=-eq-ok (ok x) next done = (x, refl, done)

pub Result-cases :
    {E A : Type 0} (r : Result E A) → ((a : A) × (r ≡ ok a)) ⊎ ((e : Fault E) × (r ≡ err e))
Result-cases (ok a) = inl (a, refl)
Result-cases (err e) = inr (e, refl)

pub ok-injective : {E A : Type 0} {a b : A} → ◌≡◌ {A = Result E A} (ok a) (ok b) → a ≡ b
ok-injective h = cc

pub some-injective : {A : Type 0} {a b : A} → some a ≡ some b → a ≡ b
some-injective h = cc

pub ok_or-eq-ok : {E A : Type 0} (o : Option A) (e : E) {a : A} → ok_or o e ≡ ok a → o ≡ some a
ok_or-eq-ok none e h = cc
ok_or-eq-ok (some b) e h = cc

pub lift-eq-ok : {E A : Type 0} (o : Option A) {a : A} → lift {E = E} o ≡ ok a → o ≡ some a
lift-eq-ok none h = cc
lift-eq-ok (some b) h = cc

pub invoke-eq-ok : {E A : Type 0} (o : Option A) {a : A} → invoke {E = E} o ≡ ok a → o ≡ some a
invoke-eq-ok none h = cc
invoke-eq-ok (some b) h = cc

pub unwrap-eq-ok : {E A : Type 0} (o : Option A) {a : A} → unwrap {E = E} o ≡ ok a → o ≡ some a
unwrap-eq-ok none h = cc
unwrap-eq-ok (some b) h = cc

pub raise_if-eq-ok :
    {E : Type 0} (b : Bool) (e : E) {u : Unit {0}} → raise_if b e ≡ ok u → b ≡ false
raise_if-eq-ok true e h = cc
raise_if-eq-ok false e h = refl

pub assert-eq-ok : {E : Type 0} (b : Bool) {u : Unit {0}} → assert {E = E} b ≡ ok u → b ≡ true
assert-eq-ok true h = refl
assert-eq-ok false h = cc
