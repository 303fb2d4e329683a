-- ===== src/Base/Outcomes.antt =====
-- What a Python call does: it returns a value, or raises an exception of a type `E` that each
-- component fixes (a constructor for each `raise`).
use mathlib.Core.Path.{◌≡◌, refl, sym, ap, ◌∙◌}
use mathlib.Core.Bool.{Bool, true, false, not}
use mathlib.Core.Logic.{◌⊎◌, inl, inr}
use mathlib.Core.List.{List, [], ◌∷◌, map}
use mathlib.Core.Path.{subst}
use uv_studio.Base.Lists.{All}

pub data Outcome {ℓ} (E : Type 0) (A : Type ℓ) : Type ℓ where
  ok : A → Outcome E A
  raised : E → Outcome E A

infixl 5 ◌>>=◌ ◌>>◌
abbrev pub ◌>>=◌ {ℓ κ} :
    {E : Type 0} {A : Type ℓ} {B : Type κ} → Outcome E A → (A → Outcome E B) → Outcome E B
ok value >>= rest = rest value
raised error >>= rest = raised error

abbrev pub ◌>>◌ {ℓ} : {E : Type 0} {B : Type ℓ} → Outcome E (Unit {0}) → Outcome E B → Outcome E B
call >> rest = call >>= λ _. rest

-- `if test: raise e`
abbrev pub raise_if : {E : Type 0} → Bool → E → Outcome E (Unit {0})
raise_if true e = raised e
raise_if false e = ok tt

-- `try: m except E: raise handler(exc)`
abbrev pub or_raise {ℓ} : {E F : Type 0} {A : Type ℓ} → Outcome E A → (E → F) → Outcome F A
or_raise (ok a) handler = ok a
or_raise (raised e) handler = raised (handler e)

pub Outcome-cases {ℓ} :
    {E : Type 0} {A : Type ℓ} (m : Outcome E A)
    → ((a : A) × (m ≡ ok a)) ⊎ ((e : E) × (m ≡ raised e))
Outcome-cases (ok a) = inl (a, refl)
Outcome-cases (raised e) = inr (e, refl)

pub ok_inj {ℓ} :
    {E : Type 0} {A : Type ℓ} {a b : A} (p : ◌≡◌ {A = Outcome E A} (ok a) (ok b)) → a ≡ b
ok_inj p = cc

-- What is returned after a `call` was returned by the `rest`, from the value of the call.
pub >>=-eq-ok {ℓ κ} :
    {E : Type 0} {A : Type ℓ} {B : Type κ} (call : Outcome E A) (rest : A → Outcome E B) {out : B}
    → (call >>= rest) ≡ ok out
    → (value : A) × (call ≡ ok value) × (rest value ≡ ok out)
>>=-eq-ok (ok value) rest h = (value, refl, h)
>>=-eq-ok (raised error) rest h = cc

pub raise_if-eq-ok : {E : Type 0} (b : Bool) (e : E) → raise_if b e ≡ ok tt → b ≡ false
raise_if-eq-ok true e h = cc
raise_if-eq-ok false e h = refl

pub raise_if-of_false : {E : Type 0} (b : Bool) (e : E) → b ≡ false → raise_if b e ≡ ok tt
raise_if-of_false b e h = rw h refl

pub not-of_true : (b : Bool) → b ≡ true → not b ≡ false
not-of_true true h = refl
not-of_true false h = cc

pub not-eq-false : (b : Bool) → not b ≡ false → b ≡ true
not-eq-false true h = refl
not-eq-false false h = cc

-- `if not test: raise e` that was passed
pub raise_unless_inv : {E : Type 0} (b : Bool) (e : E) → raise_if (not b) e ≡ ok tt → b ≡ true
raise_unless_inv true e h = refl
raise_unless_inv false e h = cc

pub or_raise-eq-ok {ℓ} :
    {E F : Type 0} {A : Type ℓ} {a : A} (m : Outcome E A) (handler : E → F)
    → or_raise m handler ≡ ok a
    → m ≡ ok a
or_raise-eq-ok (ok b) handler h = ap ok (ok_inj h)
or_raise-eq-ok (raised e) handler h = cc

-- `tuple(f(item) for item in items)`: the first failure is raised.
unfoldable pub traverse {ℓ κ} :
    {E : Type 0} {A : Type ℓ} {B : Type κ} → (A → Outcome E B) → List A → Outcome E (List B)
traverse f [] = ok []
traverse f (x ∷ xs) = do y ← f x; ys ← traverse f xs; ok (y ∷ ys)

-- What holds of every result of `f` holds of all results of a traversal.
pub All-traverse {ℓ κ μ} :
    {E : Type 0} {A : Type ℓ} {B : Type κ} (P : B → Type μ) (f : A → Outcome E B)
    → ((x : A) (y : B) → f x ≡ ok y → P y)
    → (xs : List A) (ys : List B) → traverse f xs ≡ ok ys
    → All P ys
unfolding traverse
All-traverse P f keeps [] ys h = subst (All P) (ok_inj h) tt
All-traverse P f keeps (x ∷ xs) ys h =
    let (y, hy, h1) = >>=-eq-ok (f x) (λ y. traverse f xs >>= λ ys. ok (y ∷ ys)) h in
    let (zs, hzs, h2) = >>=-eq-ok (traverse f xs) (λ ys. ok (y ∷ ys)) h1 in
    subst (All P) (ok_inj h2) (keeps x y hy, All-traverse P f keeps xs zs hzs)

-- The same of results for items that `P` holds of.
pub All-traverse_valid {ℓ κ μ ν} :
    {E : Type 0} {A : Type ℓ} {B : Type κ} (P : A → Type μ) (Q : B → Type ν) (f : A → Outcome E B)
    → ((x : A) (y : B) → P x → f x ≡ ok y → Q y)
    → (xs : List A) (ys : List B) → All P xs
    → traverse f xs ≡ ok ys
    → All Q ys
unfolding traverse
All-traverse_valid P Q f keeps [] ys v h = subst (All Q) (ok_inj h) tt
All-traverse_valid P Q f keeps (x ∷ xs) ys v h =
    let (y, hy, h1) = >>=-eq-ok (f x) (λ y. traverse f xs >>= λ ys. ok (y ∷ ys)) h in
    let (zs, hzs, h2) = >>=-eq-ok (traverse f xs) (λ ys. ok (y ∷ ys)) h1 in
    subst (All Q) (ok_inj h2) (keeps x y v.0 hy, All-traverse_valid P Q f keeps xs zs v.1 hzs)

-- A traversal of the printed items reads each of them back.
pub traverse-map {ℓ κ μ} :
    {E : Type 0} {A : Type ℓ} {B : Type κ} (P : B → Type μ) (print : B → A) (f : A → Outcome E B)
    → ((y : B) → P y → f (print y) ≡ ok y)
    → (ys : List B) → All P ys
    → traverse f (map print ys) ≡ ok ys
unfolding traverse
traverse-map P print f reads [] h = refl
traverse-map P print f reads (y ∷ ys) h = rw (reads y h.0, traverse-map P print f reads ys h.1) refl

-- A traversal whose every step is known is a map.
pub traverse-eq-map {ℓ κ} :
    {E : Type 0} {A : Type ℓ} {B : Type κ} (f : A → Outcome E B) (g : A → B) (xs : List A)
    → All (λ x. f x ≡ ok (g x)) xs
    → traverse f xs ≡ ok (map g xs)
unfolding traverse
traverse-eq-map f g [] h = refl
traverse-eq-map f g (x ∷ xs) h = rw (h.0, traverse-eq-map f g xs h.1) refl

-- What a traversal returns, where each step that returns is known.
pub traverse-map_inv {ℓ κ} :
    {E : Type 0} {A : Type ℓ} {B : Type κ} (f : A → Outcome E B) (g : A → B) (xs : List A)
    (ys : List B)
    → All (λ x. (y : B) → f x ≡ ok y → y ≡ g x) xs
    → traverse f xs ≡ ok ys
    → ys ≡ map g xs
unfolding traverse
traverse-map_inv f g [] ys k h = sym (ok_inj h)
traverse-map_inv f g (x ∷ xs) ys k h =
    let (y, e, h1) = >>=-eq-ok (f x) (λ y. traverse f xs >>= λ ys. ok (y ∷ ys)) h in
    let (zs, e1, h2) = >>=-eq-ok (traverse f xs) (λ ys. ok (y ∷ ys)) h1 in
    sym (ok_inj h2) ∙ (λ i. k.0 y e i ∷ traverse-map_inv f g xs zs k.1 e1 i)

pub bind_assoc {ℓ κ μ} :
    {E : Type 0} {A : Type ℓ} {B : Type κ} {C : Type μ} (m : Outcome E A) (f : A → Outcome E B)
    (g : B → Outcome E C)
    → (m >>= f >>= g) ≡ (m >>= λ a. f a >>= g)
bind_assoc (ok a) f g = refl
bind_assoc (raised e) f g = refl
