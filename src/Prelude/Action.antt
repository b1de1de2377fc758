-- ===== src/Prelude/Action.antt =====
-- Results, and operations on a state that can fail: what was written before an error stays written.
use mathlib.Core.Bool.{Bool, true, false}
use mathlib.Core.Option.{Option, none, some}
use mathlib.Core.Path.{◌≡◌, refl, ap, ◌∙◌}
use mathlib.Core.Logic.{◌≢◌, ◌⊎◌, inl, inr}

pub data Result (E A : Type 0) : Type 0 where
  ok : A → Result E A
  err : E → Result E A

abbrev pub is_ok : {E A : Type 0} → Result E A → Bool
is_ok (ok a) = true
is_ok (err e) = false

abbrev pub Action : Type 0 → Type 0 → Type 0 → Type 0
Action S E A = S → Result E A × S

module _ {S E A : Type 0} where
  abbrev pub pure : A → Action S E A
  pure a s = (ok a, s)

  abbrev pub raise : E → Action S E A
  raise e s = (err e, s)

  abbrev pub or_raise : Option A → E → Action S E A
  or_raise none e s = (err e, s)
  or_raise (some a) e s = (ok a, s)

-- `map_err(|_| e)`
abbrev pub map_err : {S E F A : Type 0} → F → Action S E A → Action S F A
map_err f m s = let (r, s') = m s in elim r [ ok a ↦ (ok a, s') | err _ ↦ (err f, s') ]

infixl 5 ◌>>=◌ ◌>>◌
abbrev pub ◌>>=◌ : {S E A B : Type 0} → Action S E A → (A → Action S E B) → Action S E B
◌>>=◌ m f s = let (r, s') = m s in elim r [ ok a ↦ f a s' | err e ↦ (err e, s') ]

abbrev pub ◌>>◌ : {S E A B : Type 0} → Action S E A → Action S E B → Action S E B
m >> k = m >>= λ _. k

abbrev pub raise_if : {S E : Type 0} → Bool → E → Action S E (Unit {0})
raise_if true e s = (err e, s)
raise_if false e s = (ok tt, s)

abbrev pub modify : {S E : Type 0} → (S → S) → Action S E (Unit {0})
modify f s = (ok tt, f s)

-- A property of the state that an operation keeps, however it ends.
abbrev pub Keeps : {S E A : Type 0} → (S → Type 0) → Action S E A → Type 0
Keeps {S} P m = (s : S) → P s → P (m s).1

-- A property of a match on a result.
pub result_ind {ℓ κ} :
    {E A : Type 0} {B : Type ℓ} (P : B → Type κ) (r : Result E A) {f : A → B} {g : E → B}
    → ((a : A) → r ≡ ok a → P (f a))
    → ((e : E) → r ≡ err e → P (g e))
    → P (elim r [ ok a ↦ f a | err e ↦ g e ])
result_ind P (ok a) h k = h a refl
result_ind P (err e) h k = k e refl

pub Keeps-bind :
    {S E A B : Type 0} (P : S → Type 0) (m : Action S E A) (f : A → Action S E B)
    → Keeps P m
    → ((a : A) → Keeps P (f a))
    → Keeps P (m >>= f)
Keeps-bind {S} {E} {A} {B} P m f km kf s p =
    result_ind (λ (q : Result E B × S). P q.1) (m s).0 (λ a _. kf a (m s).1 (km s p))
      (λ e _. km s p)

pub Result-cases :
    {E A : Type 0} (r : Result E A) → ((a : A) × (r ≡ ok a)) ⊎ ((e : E) × (r ≡ err e))
Result-cases (ok a) = inl (a, refl)
Result-cases (err e) = inr (e, refl)

-- A property of what a chain of steps gives, from the outcomes of its first step.
module _ {κ} {S E A B : Type 0} (P : Result E B × S → Type κ) where
  pub bind_ind :
      (m : Action S E A) (f : A → Action S E B) (s : S)
      → ((a : A) → (m s).0 ≡ ok a → P (f a (m s).1))
      → ((e : E) → (m s).0 ≡ err e → P (err e, (m s).1))
      → P ((m >>= f) s)
  bind_ind m f s good bad = result_ind P (m s).0 (λ a h. good a h) (λ e h. bad e h)

  pub or_raise_ind :
      (o : Option A) (e : E) (f : A → Action S E B) (s : S)
      → (o ≡ none → P (err e, s))
      → ((a : A) → o ≡ some a → P (f a s))
      → P ((or_raise o e >>= f) s)
  or_raise_ind none e f s bad good = bad refl
  or_raise_ind (some a) e f s bad good = good a refl

  pub lift_ind :
      (r : Result E A) (f : A → Action S E B) (s : S)
      → ((e : E) → r ≡ err e → P (err e, s))
      → ((a : A) → r ≡ ok a → P (f a s))
      → P (((λ (t : S). (r, t)) >>= f) s)
  lift_ind (ok a) f s bad good = good a refl
  lift_ind (err e) f s bad good = bad e refl

pub raise_if_ind {κ} :
    {S E B : Type 0} (P : Result E B × S → Type κ) (c : Bool) (e : E) (f : Unit {0} → Action S E B)
    (s : S)
    → (c ≡ true → P (err e, s))
    → (c ≡ false → P (f tt s))
    → P ((raise_if c e >>= f) s)
raise_if_ind P true e f s bad good = bad refl
raise_if_ind P false e f s bad good = good refl

-- An operation that never ends with a certain error.
abbrev pub Avoids : {S E A : Type 0} → E → Action S E A → Type 0
Avoids {S} e m = (s : S) → (m s).0 ≢ err e

pub Avoids-bind :
    {S E A B : Type 0} (e : E) (m : Action S E A) (f : A → Action S E B)
    → Avoids e m
    → ((a : A) → Avoids e (f a))
    → Avoids e (m >>= f)
Avoids-bind {S} {E} {A} {B} e m f am af s =
    bind_ind (λ (r : Result E B × S). r.0 ≢ err e) m f s (λ a _. af a (m s).1)
      (λ d h q. am s (h ∙ ap err (err_of d q)))
  where
    err_of : (d : E) → (◌≡◌ {A = Result E B} (err d) (err e)) → d ≡ e
    err_of d q = cc

-- A chain goes on from the value and the state that its first step gives.
pub bind_ok :
    {S E A B : Type 0} (m : Action S E A) (f : A → Action S E B) (s t : S) (a : A)
    → m s ≡ (ok a, t)
    → (m >>= f) s ≡ f a t
bind_ok {S} {E} {A} {B} m f s t a e = ap (λ (r : Result E A × S). go_on r) e
  where
    go_on : Result E A × S → Result E B × S
    go_on (r, t) = elim r [ ok a ↦ f a t | err e ↦ (err e, t) ]

pub bind-pure :
    {S E A B : Type 0} (m : Action S E A) (g : A → B) (s : S) (a : A)
    → (m s).0 ≡ ok a
    → ((m >>= λ b. pure (g b)) s).0 ≡ ok (g a)
bind-pure {S} {E} {A} {B} m g s a e =
    ap (λ (r : Result E A × S). (go_on r).0) {x = m s} {y = (ok a, (m s).1)} (λ i. (e i, (m s).1))
  where
    go_on : Result E A × S → Result E B × S
    go_on (r, t) = elim r [ ok b ↦ (ok (g b), t) | err e ↦ (err e, t) ]
