-- ===== src/Results/Inversion.antt =====
-- What a chain that ended with a value went through.
use spmp.Prelude.{◌≡◌, refl, Option, none, some, Bool, true, false}
use spmp.Results.{Error, Result, ok, err, panic, waits, ◌>>=◌, ◌>>◌, bail_if, ok_or, unwrap}

pub >>=_ok {ℓ κ} :
    {A : Type ℓ} {B : Type κ} (m : Result A) (f : A → Result B) (b : B)
    → (m >>= f) ≡ ok b
    → (a : A) × (m ≡ ok a) × (f a ≡ ok b)
>>=_ok (ok a) f b h = (a, refl, h)
>>=_ok (err e) f b h = absurd (cc)
>>=_ok panic f b h = absurd (cc)
>>=_ok waits f b h = absurd (cc)

pub ok_or-ok {ℓ} : {A : Type ℓ} (o : Option A) (e : Error) (a : A) → ok_or o e ≡ ok a → o ≡ some a
ok_or-ok none e a h = absurd (cc)
ok_or-ok (some x) e a h = cc

pub unwrap-ok {ℓ} : {A : Type ℓ} (o : Option A) (a : A) → unwrap o ≡ ok a → o ≡ some a
unwrap-ok none a h = absurd (cc)
unwrap-ok (some x) a h = cc

pub bail_if-ok {ℓ} :
    {B : Type ℓ} (t : Bool) (e : Error) (k : Result B) (b : B)
    → (bail_if t e >> k) ≡ ok b
    → (t ≡ false) × (k ≡ ok b)
bail_if-ok true e k b h = absurd (cc)
bail_if-ok false e k b h = (refl, h)
