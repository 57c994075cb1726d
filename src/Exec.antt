-- ===== src/Exec.antt =====
-- How a modelled loop ends: with a value, in a Go panic, or because the model's fuel ran out.
use snmptune.Prelude.{Bool, true, false, if◌then◌else◌, Option, none, some}

pub data Exec (A : Type 0) : Type 0 where
  done : A → Exec A
  panicked out_of_fuel : Exec A

infixl 5 ◌>>=◌
abbrev pub ◌>>=◌ : {A B : Type 0} → Exec A → (A → Exec B) → Exec B
done a >>= f = f a
panicked >>= f = panicked
out_of_fuel >>= f = out_of_fuel

-- Every value that a loop can return meets `P`.
abbrev pub Ensures : {A : Type 0} → (A → Type 0) → Exec A → Type 0
Ensures P (done a) = P a
Ensures P panicked = Unit
Ensures P out_of_fuel = Unit

pub >>=-Ensures :
    {A B : Type 0} (P : A → Type 0) (Q : B → Type 0) (m : Exec A) (f : A → Exec B)
    → Ensures P m
    → ((a : A) → P a → Ensures Q (f a))
    → Ensures Q (m >>= f)
>>=-Ensures P Q (done a) f h k = k a h
>>=-Ensures P Q panicked f h k = tt
>>=-Ensures P Q out_of_fuel f h k = tt

pub Ensures-trivial : {A : Type 0} (m : Exec A) → Ensures (λ _. Unit) m
Ensures-trivial (done a) = tt
Ensures-trivial panicked = tt
Ensures-trivial out_of_fuel = tt

pub Ensures-mono :
    {A : Type 0} (P Q : A → Type 0) (m : Exec A) → Ensures P m → ((a : A) → P a → Q a) → Ensures Q m
Ensures-mono P Q (done a) h k = k a h
Ensures-mono P Q panicked h k = tt
Ensures-mono P Q out_of_fuel h k = tt

-- A loop ends with a value that meets `P`: it does not panic, and the fuel was enough.
abbrev pub Ends : {A : Type 0} → (A → Type 0) → Exec A → Type 0
Ends P (done a) = P a
Ends P panicked = ⊥
Ends P out_of_fuel = ⊥

pub >>=-Ends :
    {A B : Type 0} (P : A → Type 0) (Q : B → Type 0) (m : Exec A) (f : A → Exec B)
    → Ends P m
    → ((a : A) → P a → Ends Q (f a))
    → Ends Q (m >>= f)
>>=-Ends P Q (done a) f h k = k a h
>>=-Ends P Q panicked f h k = absurd h
>>=-Ends P Q out_of_fuel f h k = absurd h

pub Ends-mono :
    {A : Type 0} (P Q : A → Type 0) (m : Exec A) → Ends P m → ((a : A) → P a → Q a) → Ends Q m
Ends-mono P Q (done a) h k = k a h
Ends-mono P Q panicked h k = absurd h
Ends-mono P Q out_of_fuel h k = absurd h

-- An operation that can panic does not, and its value meets `P`.
abbrev pub OnSome : {A : Type 0} → (A → Type 0) → Option A → Type 0
OnSome P none = ⊥
OnSome P (some a) = P a

-- A loop that ends, and whose values all meet `Q`.
pub Ends-both :
    {A : Type 0} (P Q : A → Type 0) (m : Exec A) → Ends P m → Ensures Q m → Ends (λ a. P a × Q a) m
Ends-both P Q (done a) h k = (h, k)
Ends-both P Q panicked h k = absurd h
Ends-both P Q out_of_fuel h k = absurd h

pub Ends-Ensures : {A : Type 0} (P Q : A → Type 0) (m : Exec A) → Ends P m → Ensures Q m → Ends Q m
Ends-Ensures P Q (done a) h k = k
Ends-Ensures P Q panicked h k = absurd h
Ends-Ensures P Q out_of_fuel h k = absurd h

pub Ends-if :
    {A : Type 0} (P : A → Type 0) (b : Bool) (m n : Exec A)
    → Ends P m
    → Ends P n
    → Ends P (if b then m else n)
Ends-if P true m n h k = h
Ends-if P false m n h k = k

pub OnSome-mono :
    {A : Type 0} (P Q : A → Type 0) (o : Option A) → OnSome P o → ((a : A) → P a → Q a) → OnSome Q o
OnSome-mono P Q none h k = absurd h
OnSome-mono P Q (some a) h k = k a h
