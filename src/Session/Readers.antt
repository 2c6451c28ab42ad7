-- ===== src/Session/Readers.antt =====
-- Services that only read: they leave the session as it was, whether they return or raise.
use book_club_be.Prelude.{
  ℕ, ◌≡◌, refl, subst, ◌∙◌, Bool, true, false, Option, none, some, List, if◌then◌else◌,
}
use book_club_be.Database.{Database}
use book_club_be.Session.{
  Session, Service, Result, ok, err, Code, pure, raise, query, scalar_one_or_none, or_raise,
  raise_if, get_now, flush, ◌>>=◌, when, continue,
}

pub record IsReader {A : Type 0} (m : Service A) : Type 0 where
  pub at : (s : Session) → (m s).1 ≡ s

module _ {A : Type 0} where
  pub IsReader-pure : (a : A) → IsReader (pure a)
  unfolding pure
  IsReader-pure a = record { at = λ s. refl }

  pub IsReader-raise : (status : ℕ) (code : Code) → IsReader (raise {A = A} status code)
  unfolding raise
  IsReader-raise status code = record { at = λ s. refl }

  pub IsReader-query : (f : Database → A) → IsReader (query f)
  unfolding query
  IsReader-query f = record { at = λ s. refl }

  pub IsReader-scalar : (rows : Database → List A) → IsReader (scalar_one_or_none rows)
  unfolding scalar_one_or_none
  IsReader-scalar rows = record { at = λ s. refl }

  pub IsReader-or_raise :
      (o : Option A) (status : ℕ) (code : Code) → IsReader (or_raise o status code)
  unfolding or_raise
  IsReader-or_raise none status code = record { at = λ s. refl }
  IsReader-or_raise (some a) status code = record { at = λ s. refl }

  pub IsReader-if :
      (b : Bool) (m n : Service A) → IsReader m → IsReader n → IsReader (if b then m else n)
  IsReader-if true m n km kn = km
  IsReader-if false m n km kn = kn

pub IsReader-raise_if : (c : Bool) (status : ℕ) (code : Code) → IsReader (raise_if c status code)
unfolding raise_if
IsReader-raise_if c status code = record { at = λ s. refl }

pub IsReader-get_now : IsReader get_now
unfolding get_now
IsReader-get_now = record { at = λ s. refl }

pub IsReader-flush : IsReader flush
unfolding flush
IsReader-flush = record { at = λ s. refl }

pub IsReader-when : (c : Bool) (m : Service (Unit {0})) → IsReader m → IsReader (when c m)
unfolding when
IsReader-when true m k = record { at = k.at }
IsReader-when false m k = record { at = λ s. refl }

module _ {A B : Type 0} where
  continue-reader :
      (r : Result A) (f : A → Service B)
      → ((a : A) → IsReader (f a))
      → (s : Session) → (continue r f s).1 ≡ s
  continue-reader (ok a) f k s = (k a).at s
  continue-reader (err e) f k s = refl

  pub IsReader-bind :
      (m : Service A) (f : A → Service B)
      → IsReader m
      → ((a : A) → IsReader (f a))
      → IsReader (m >>= f)
  unfolding ◌>>=◌
  IsReader-bind m f km kf = record { at = λ s. continue-reader (m s).0 f kf (m s).1 ∙ km.at s }

module _ {A B : Type 0} where
  continue-ok :
      (r : Result A) (f : A → Service B) (s : Session) {b : B}
      → (continue r f s).0 ≡ ok b
      → (a : A) × (r ≡ ok a) × ((f a s).0 ≡ ok b)
  continue-ok (ok a) f s h = (a, refl, h)
  continue-ok (err e) f s h = cc

  -- A step that only reads and the rest have both returned.
  pub bind-ok :
      (m : Service A) (f : A → Service B) (s : Session) {b : B}
      → IsReader m
      → ((m >>= f) s).0 ≡ ok b
      → (a : A) × ((m s).0 ≡ ok a) × ((f a s).0 ≡ ok b)
  unfolding ◌>>=◌
  bind-ok m f s {b = b} k h =
      subst (λ s'. (a : A) × ((m s).0 ≡ ok a) × ((f a s').0 ≡ ok b)) (k.at s)
        (continue-ok (m s).0 f (m s).1 h)

module _ {A B : Type 0} where
  -- A step that only reads and returns leaves the rest its result and the same session.
  pub bind-reads :
      (m : Service A) (f : A → Service B) (s : Session) {a : A}
      → IsReader m
      → (m s).0 ≡ ok a
      → (m >>= f) s ≡ f a s
  unfolding ◌>>=◌
  bind-reads m f s k h = rw (h, k.at s) refl

pub ruleset readers = (
  IsReader-pure, IsReader-raise, IsReader-query, IsReader-scalar, IsReader-or_raise,
  IsReader-raise_if, IsReader-get_now, IsReader-flush, IsReader-when, IsReader-bind, IsReader-if,
)
