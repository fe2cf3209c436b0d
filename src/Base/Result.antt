-- ===== src/Base/Result.antt =====
-- `Result<A, E>` of Rust: a value or an error, with `?` as the bind of `do`.
use mathlib.Core.Path.{subst}
use tiny_proxy.Base.{
  All, Bool, List, Option, [], false, if◌then◌else◌, inl, inr, none, refl, some, true, ◌∷◌, ◌≡◌,
  ◌↔◌, ◌⊎◌,
}

pub data Result {ℓ κ} (E : Type κ) (A : Type ℓ) : Type (ℓ ⊔ κ) where
  ok : A → Result E A
  err : E → Result E A

infixl 5 ◌>>=◌
abbrev pub ◌>>=◌ {ℓ ℓ' κ} :
    {E : Type κ} {A : Type ℓ} {B : Type ℓ'} → Result E A → (A → Result E B) → Result E B
ok a >>= f = f a
err e >>= f = err e

-- `ok_or`.
abbrev pub ok_or {ℓ κ} : {E : Type κ} {A : Type ℓ} → Option A → E → Result E A
ok_or none e = err e
ok_or (some a) e = ok a

-- `map_err`.
abbrev pub map_err {ℓ κ κ'} :
    {E : Type κ} {F : Type κ'} {A : Type ℓ} → (E → F) → Result E A → Result F A
map_err f (ok a) = ok a
map_err f (err e) = err (f e)

-- `collect` of an iterator of results: the first error, or all the values.
unfoldable pub collect {ℓ κ} : {E : Type κ} {A : Type ℓ} → List (Result E A) → Result E (List A)
collect [] = ok []
collect (r ∷ rs) = do a ← r; as' ← collect rs; ok (a ∷ as')

-- A bind that gives a value: both steps did.
pub ok_steps {ℓ ℓ' κ} :
    {E : Type κ} {A : Type ℓ} {B : Type ℓ'} (k : A → Result E B) (r : Result E A) (b : B)
    → (r >>= k) ≡ ok b
    → (a : A) × (k a ≡ ok b) × (r ≡ ok a)
ok_steps k (err e) b step = cc
ok_steps k (ok a) b step = (a, step, refl)

pub Result-cases {ℓ ℓ'} :
    {E : Type ℓ} {A : Type ℓ'} (r : Result E A) → ((a : A) × (r ≡ ok a)) ⊎ ((e : E) × (r ≡ err e))
Result-cases (ok a) = inl (a, refl)
Result-cases (err e) = inr (e, refl)

-- The value that a result gives, if it gives one, has a property.
pub data Gives {ℓ ℓ' κ} {E : Type κ} {A : Type ℓ} (P : A → Type ℓ')
    : Result E A → Type (ℓ ⊔ ℓ' ⊔ κ) where
  gives : (a : A) → P a → Gives P (ok a)
  stops : (e : E) → Gives P (err e)

module _ {ℓ ℓ' κ} {E : Type κ} {A : Type ℓ} {P : A → Type ℓ'} where
  pub Gives-bind {ι ι'} :
      {B : Type ι} {Q : B → Type ι'} {r : Result E A} {k : A → Result E B}
      → Gives P r
      → ((a : A) → P a → Gives Q (k a))
      → Gives Q (r >>= k)
  Gives-bind (gives a p) h = h a p
  Gives-bind (stops e) h = stops e

  pub Gives-if :
      (b : Bool) {r s : Result E A} → Gives P r → Gives P s → Gives P (if b then r else s)
  Gives-if true p q = p
  Gives-if false p q = q

  pub Gives-ok_or : (o : Option A) (e : E) → ((a : A) → o ≡ some a → P a) → Gives P (ok_or o e)
  Gives-ok_or none e h = stops e
  Gives-ok_or (some a) e h = gives a (h a refl)

  pub Gives-map_err {κ'} :
      {F : Type κ'} (f : E → F) {r : Result E A} → Gives P r → Gives P (map_err f r)
  Gives-map_err f (gives a p) = gives a p
  Gives-map_err f (stops e) = stops (f e)

  -- What holds of each value that a step can give.
  pub Gives-intro : (r : Result E A) → ((a : A) → r ≡ ok a → P a) → Gives P r
  Gives-intro (ok a) h = gives a (h a refl)
  Gives-intro (err e) h = stops e

  pub Gives-elim : {r : Result E A} {a : A} → Gives P r → r ≡ ok a → P a
  Gives-elim (gives b p) e = subst P (cc e) p
  Gives-elim (stops x) e = cc e

pub Gives-collect {ℓ ℓ' κ} :
    {E : Type κ} {A : Type ℓ} {P : A → Type ℓ'} (rs : List (Result E A))
    → All (Gives P) rs
    → Gives (All P) (collect rs)
unfolding collect
Gives-collect [] h = gives [] tt
Gives-collect (r ∷ rs) (p, h) =
    Gives-bind p λ a pa. Gives-bind (Gives-collect rs h) λ as' pas. gives (a ∷ as') (pa, pas)

pub Gives-map {ℓ ℓ' ℓ'' κ} :
    {E : Type κ} {A : Type ℓ} {P : A → Type ℓ'} {Q : A → Type ℓ''} {r : Result E A}
    → ((a : A) → P a → Q a)
    → Gives P r
    → Gives Q r
Gives-map f (gives a p) = gives a (f a p)
Gives-map f (stops e) = stops e

-- Two results that give the same value, or both none.
pub data Alike {ℓ κ κ'} {E : Type κ} {F : Type κ'} {A : Type ℓ}
    : Result E A → Result F A → Type (ℓ ⊔ κ ⊔ κ') where
  both_give : (a : A) → Alike (ok a) (ok a)
  both_fail : (e : E) (f : F) → Alike (err e) (err f)

pub Alike-bind {ℓ ℓ' κ κ'} :
    {E : Type κ} {F : Type κ'} {A : Type ℓ} {B : Type ℓ'} {r : Result E A} {s : Result F A}
    {j : A → Result E B} {k : A → Result F B}
    → Alike r s
    → ((a : A) → Alike (j a) (k a))
    → Alike (r >>= j) (s >>= k)
Alike-bind (both_give a) h = h a
Alike-bind (both_fail e f) h = both_fail e f

-- The same where the second run goes on after the bind.
pub Alike-bind_more {ℓ ℓ' ℓ'' κ κ'} :
    {E : Type κ} {F : Type κ'} {A : Type ℓ} {B : Type ℓ'} {C : Type ℓ''} {r : Result E A}
    {s : Result F A} {j : A → Result E C} (k : A → Result F B) (l : B → Result F C)
    → Alike r s
    → ((a : A) → Alike (j a) (k a >>= l))
    → Alike (r >>= j) (s >>= k >>= l)
Alike-bind_more k l (both_give a) h = h a
Alike-bind_more k l (both_fail e f) h = both_fail e f

pub Alike-iff {ℓ κ κ'} :
    {E : Type κ} {F : Type κ'} {A : Type ℓ} {r : Result E A} {s : Result F A} (a : A)
    → Alike r s
    → (r ≡ ok a) ↔ (s ≡ ok a)
Alike-iff a (both_give b) = (λ e. cc e, λ e. cc e)
Alike-iff a (both_fail e f) = (λ e. cc e, λ e. cc e)

-- No matter what a step gives.
pub Gives-any {ℓ κ} : {E : Type κ} {A : Type ℓ} (r : Result E A) → Gives (λ (a : A). Unit {0}) r
Gives-any (ok a) = gives a tt
Gives-any (err e) = stops e
