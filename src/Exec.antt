-- ===== src/Exec.antt =====
-- A Go function that may fail and that changes what its context points to: the error comes back
-- beside the state, since what was written before the error stays written.
use aacp.Prelude.{ℕ, Bool, Option, none, some, if◌then◌else◌, ◌≡◌, refl}

-- internal/types/errors.go: an `AppError` with its code, or any other Go error. The messages are
-- not modelled. A run-time panic, which nothing in the program recovers from, stops the calls around
-- it in the same way.
pub data Error : Type 0 where
  app : ℕ → Error
  plain : Error
  panic : Error

pub data Result {ℓ} (A : Type ℓ) : Type ℓ where
  ok : A → Result A
  err : Error → Result A

abbrev pub Exec : Type 0 → Type 0 → Type 0
Exec S A = S → Result A × S

-- `v, ok := …; if !ok { return err }`
abbrev pub or_fail : {A : Type 0} → Error → Option A → Result A
or_fail e none = err e
or_fail e (some a) = ok a

-- `v, _ := …` and a use of `v`, which is nil after an error
unfoldable pub or_panic : {A : Type 0} → Result A → Result A
or_panic (err e) = err panic
or_panic (ok a) = ok a

-- one call after the other, where they change no state
unfoldable pub and_then : {A B : Type 0} → Result A → (A → Result B) → Result B
and_then (err e) f = err e
and_then (ok a) f = f a

module _ {S A : Type 0} where
  abbrev pub pure : A → Exec S A
  pure a s = (ok a, s)

  abbrev pub fail : Error → Exec S A
  fail e s = (err e, s)

  abbrev pub lift : Result A → Exec S A
  lift r s = (r, s)

  abbrev pub gets : (S → A) → Exec S A
  gets f s = (ok (f s), s)

  -- a call that reads the state and changes nothing
  abbrev pub reading : (S → Result A) → Exec S A
  reading f s = (f s, s)

-- `if bad { return err }`
abbrev pub fail_if : {S : Type 0} → Bool → Error → Exec S (Unit {0})
fail_if b e s = (if b then err e else ok tt, s)

abbrev pub modify : {S : Type 0} → (S → S) → Exec S (Unit {0})
modify f s = (ok tt, f s)

module _ {S A B : Type 0} where
  infixl 5 ◌>>=◌ ◌>>◌
  abbrev pub ◌>>=◌ : Exec S A → (A → Exec S B) → Exec S B
  ◌>>=◌ m f s = let (r, s') = m s in elim r [ ok a ↦ f a s' | err e ↦ (err e, s') ]

  abbrev pub ◌>>◌ : Exec S A → Exec S B → Exec S B
  m >> k = m >>= λ _. k

  -- a call that has returned, and the call that follows it
  pub bind_ok :
      (m : Exec S A) (f : A → Exec S B) (s : S) (b : B)
      → ((m >>= f) s).0 ≡ ok b
      → (a : A) × ((m s).0 ≡ ok a) × ((m >>= f) s ≡ f a (m s).1)
  bind_ok m f s b = split (m s)
    where
      split :
          (o : Result A × S)
          → let n = λ (_ : S). o in
            ((n >>= f) s).0 ≡ ok b → (a : A) × (o.0 ≡ ok a) × ((n >>= f) s ≡ f a o.1)
      split (ok a, v) h = (a, refl, refl)
      split (err e, v) h = cc

pub ok_inj : {A : Type 0} (a b : A) → ok a ≡ ok b → a ≡ b
ok_inj a b h = cc
