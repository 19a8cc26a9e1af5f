-- ===== src/Recommender/Monad.antt =====
-- A handler as a function of its state: it goes on with a value, returns an error to its caller, or
-- panics; `unfinished` is a loop whose fuel ran out.
use cs.Base.{◌≡◌, refl, Option, none, some}
use cs.Grpc.{Status}

pub data Exit (A : Type 0) : Type 0 where
  done : A → Exit A
  failed : Status → Exit A
  panicked : Exit A
  unfinished : Exit A

abbrev pub M : Type 0 → Type 0 → Type 0
M S A = S → Exit A × S

abbrev pub then_do : {S A B : Type 0} → (A → M S B) → Exit A × S → Exit B × S
then_do k (done a, s) = k a s
then_do k (failed e, s) = (failed e, s)
then_do k (panicked, s) = (panicked, s)
then_do k (unfinished, s) = (unfinished, s)

infixl 5 ◌>>=◌ ◌>>◌
abbrev pub ◌>>=◌ : {S A B : Type 0} → M S A → (A → M S B) → M S B
◌>>=◌ m k s = then_do k (m s)

abbrev pub ◌>>◌ : {S B : Type 0} → M S (Unit {0}) → M S B → M S B
◌>>◌ m k s = then_do (λ _. k) (m s)

abbrev pub pure : {S A : Type 0} → A → M S A
pure a s = (done a, s)

abbrev pub fail : {S A : Type 0} → Status → M S A
fail e s = (failed e, s)

-- An index out of range.
abbrev pub or_panic : {S A : Type 0} → Option A → M S A
or_panic none s = (panicked, s)
or_panic (some a) s = (done a, s)

-- A relation between the states before and after that every part of a handler keeps is kept by the
-- handler, whatever way it ends.
pub bind-keeps :
    {S A B : Type 0} (R : S → S → Type 0)
    → ((s t u : S) → R s t → R t u → R s u)
    → (m : M S A) (k : A → M S B) (s : S) → R s (m s).1
    → ((a : A) (t : S) → R t (k a t).1)
    → R s ((m >>= k) s).1
bind-keeps {S} {A} {B} R trans m k s h hk = go (m s) h
  where
    go : (r : Exit A × S) → R s r.1 → R s (then_do k r).1
    go (done a, t) h = trans s t (k a t).1 h (hk a t)
    go (failed e, t) h = h
    go (panicked, t) h = h
    go (unfinished, t) h = h

-- Continuations that agree give the same.
pub then_do-ext :
    {S A B : Type 0} (k k' : A → M S B) (r : Exit A × S)
    → ((a : A) (s : S) → k a s ≡ k' a s)
    → then_do k r ≡ then_do k' r
then_do-ext k k' (done a, s) h = h a s
then_do-ext k k' (failed e, s) h = refl
then_do-ext k k' (panicked, s) h = refl
then_do-ext k k' (unfinished, s) h = refl
