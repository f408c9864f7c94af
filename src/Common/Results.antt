-- ===== src/Common/Results.antt =====
-- Python exceptions as values: a component names its errors, `E`, one for each `raise` it models.
use mathlib.Core.Path.{◌≡◌, refl, subst}
use mathlib.Core.Logic.{◌⊎◌, inl, inr}
use mathlib.Core.Bool.{Bool, true, false}

pub data Result {ℓ κ} (E : Type ℓ) (A : Type κ) : Type (ℓ ⊔ κ) where
  ok : A → Result E A
  err : E → Result E A

infixl 5 ◌>>=◌ ◌>>◌
abbrev pub ◌>>=◌ {ℓ κ μ} :
    {E : Type ℓ} {A : Type κ} {B : Type μ} → Result E A → (A → Result E B) → Result E B
err raised >>= next = err raised
ok got >>= next = next got

abbrev pub ◌>>◌ {ℓ κ} : {E : Type ℓ} {B : Type κ} → Result E (Unit {0}) → Result E B → Result E B
err raised >> rest = err raised
ok _ >> rest = rest

-- `if not ok: raise e`.
abbrev pub guard {ℓ} : {E : Type ℓ} → Bool → E → Result E (Unit {0})
guard false raised = err raised
guard true raised = ok tt

-- `if bad: raise e`.
abbrev pub refuse {ℓ} : {E : Type ℓ} → Bool → E → Result E (Unit {0})
refuse false raised = ok tt
refuse true raised = err raised

-- `try: … except: raise e'`, with the new error computed from the old.
abbrev pub map_err {ℓ κ μ} :
    {E : Type ℓ} {F : Type κ} {A : Type μ} → (E → F) → Result E A → Result F A
map_err f (ok a) = ok a
map_err f (err e) = err (f e)

abbrev pub is_ok {ℓ κ} : {E : Type ℓ} {A : Type κ} → Result E A → Bool
is_ok (ok _) = true
is_ok (err _) = false

-- Both halves of a chain that returned.
pub >>=-eq-ok {ℓ κ μ} :
    {E : Type ℓ} {A : Type κ} {B : Type μ} (call : Result E A) (next : A → Result E B) {out : B}
    → call >>= next ≡ ok out
    → (got : A) × (call ≡ ok got) × (next got ≡ ok out)
>>=-eq-ok (err raised) next h = cc
>>=-eq-ok (ok got) next h = (got, refl, h)

pub map_err-eq-ok {ℓ κ μ} :
    {E : Type ℓ} {F : Type κ} {A : Type μ} (f : E → F) (m : Result E A) {a : A}
    → map_err f m ≡ ok a
    → m ≡ ok a
map_err-eq-ok f (ok b) h = cc
map_err-eq-ok f (err e) h = cc

pub >>-eq-ok {ℓ κ} :
    {E : Type ℓ} {A : Type κ} (call : Result E (Unit {0})) (rest : Result E A) {out : A}
    → call >> rest ≡ ok out
    → (call ≡ ok tt) × (rest ≡ ok out)
>>-eq-ok (ok u) rest h = (refl, h)
>>-eq-ok (err e) rest h = cc

pub refuse-eq-ok {ℓ κ} :
    {E : Type ℓ} {A : Type κ} (bad : Bool) (raised : E) (rest : Result E A) {out : A}
    → refuse bad raised >> rest ≡ ok out
    → (bad ≡ false) × (rest ≡ ok out)
refuse-eq-ok true raised rest h = cc
refuse-eq-ok false raised rest h = (refl, h)

pub Result-cases {ℓ κ} :
    {E : Type ℓ} {A : Type κ} (r : Result E A) → ((a : A) × (r ≡ ok a)) ⊎ ((e : E) × (r ≡ err e))
Result-cases (ok a) = inl (a, refl)
Result-cases (err e) = inr (e, refl)

-- A postcondition of a call that may raise, with its rules.
abbrev pub Ensures {ℓ κ μ} : {E : Type ℓ} {A : Type κ} → (A → Type μ) → Result E A → Type μ
Ensures P (ok a) = P a
Ensures P (err e) = Unit {μ}

pub Ensures-ok {ℓ κ μ} :
    {E : Type ℓ} {A : Type κ} (P : A → Type μ) (m : Result E A) {a : A}
    → Ensures P m
    → m ≡ ok a
    → P a
Ensures-ok P (ok b) p h = subst P (cc) p
Ensures-ok P (err e) p h = cc

pub Ensures->>= {ℓ κ μ ν} :
    {E : Type ℓ} {A : Type κ} {B : Type μ} (P : A → Type ν) (Q : B → Type ν) (m : Result E A)
    (f : A → Result E B)
    → Ensures P m
    → ((a : A) → P a → Ensures Q (f a))
    → Ensures Q (m >>= f)
Ensures->>= P Q (ok a) f p k = k a p
Ensures->>= P Q (err e) f p k = tt

-- A call that cannot have raised has returned.
pub ok_value {ℓ κ} :
    {E : Type ℓ} {A : Type κ} (m : Result E A) → ((e : E) → m ≡ err e → ⊥) → (a : A) × (m ≡ ok a)
ok_value (ok a) h = (a, refl)
ok_value (err e) h = absurd (h e refl)
