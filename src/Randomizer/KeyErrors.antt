-- ===== src/Randomizer/KeyErrors.antt =====
-- Services that end in no KeyError.
use book_club_be.Prelude.{
  ℕ, ◌≡◌, refl, Bool, true, false, Option, none, some, List, [], ◌∷◌, subst, sym, if◌then◌else◌,
}
use book_club_be.Database.{Database, integrity}
use book_club_be.Session.{
  Session, Service, Result, ok, err, Failure, app_error, integrity_error, multiple_results,
  key_error, Code, one_row, pure, raise, query, scalar_one_or_none, or_raise, raise_if, get_now,
  commit, ◌>>=◌, continue,
}
use book_club_be.Session.Readers.{IsReader}

abbrev pub is_key_error : {A : Type 0} → Result A → Bool
is_key_error (ok a) = false
is_key_error (err key_error) = true
is_key_error (err integrity_error) = false
is_key_error (err multiple_results) = false
is_key_error (err (app_error status code)) = false

pub record Avoids {A : Type 0} (m : Service A) (s : Session) : Type 0 where
  pub at : is_key_error (m s).0 ≡ false

module _ {A : Type 0} (s : Session) where
  pub Avoids-pure : (a : A) → Avoids (pure a) s
  unfolding pure
  Avoids-pure a = record { at = refl }

  pub Avoids-raise : (status : ℕ) (code : Code) → Avoids (raise {A = A} status code) s
  unfolding raise
  Avoids-raise status code = record { at = refl }

  pub Avoids-query : (f : Database → A) → Avoids (query f) s
  unfolding query
  Avoids-query f = record { at = refl }

  one_row_avoids : (xs : List A) → is_key_error (one_row xs) ≡ false
  one_row_avoids [] = refl
  one_row_avoids (x ∷ []) = refl
  one_row_avoids (x ∷ y ∷ xs) = refl

  pub Avoids-scalar : (rows : Database → List A) → Avoids (scalar_one_or_none rows) s
  unfolding scalar_one_or_none
  Avoids-scalar rows = record { at = one_row_avoids (rows s.work) }

  pub Avoids-or_raise :
      (o : Option A) (status : ℕ) (code : Code) → Avoids (or_raise o status code) s
  unfolding or_raise
  Avoids-or_raise none status code = record { at = refl }
  Avoids-or_raise (some a) status code = record { at = refl }

if_avoids :
    (b : Bool) (e : Failure)
    → is_key_error {A = Unit {0}} (err e) ≡ false
    → is_key_error {A = Unit {0}} (if b then err e else ok tt) ≡ false
if_avoids true e h = h
if_avoids false e h = refl

pub Avoids-raise_if :
    (c : Bool) (status : ℕ) (code : Code) (s : Session) → Avoids (raise_if c status code) s
unfolding raise_if
Avoids-raise_if c status code s = record { at = if_avoids c (app_error status code) refl }

pub Avoids-get_now : (s : Session) → Avoids get_now s
unfolding get_now
Avoids-get_now s = record { at = refl }

either_avoids :
    (b : Bool) (x y : Result (Unit {0}) × Session)
    → is_key_error x.0 ≡ false
    → is_key_error y.0 ≡ false
    → is_key_error (if b then x else y).0 ≡ false
either_avoids true x y h g = h
either_avoids false x y h g = g

pub Avoids-commit : (s : Session) → Avoids commit s
unfolding commit
Avoids-commit s = record { at = either_avoids (integrity s.work) _ _ refl refl }

module _ {A B : Type 0} where
  continue-Avoids :
      (r : Result A) (f : A → Service B) (s : Session)
      → is_key_error r ≡ false
      → ((a : A) → r ≡ ok a → Avoids (f a) s)
      → is_key_error (continue r f s).0 ≡ false
  continue-Avoids (ok a) f s h k = (k a refl).at
  continue-Avoids (err key_error) f s h k = h
  continue-Avoids (err integrity_error) f s h k = refl
  continue-Avoids (err multiple_results) f s h k = refl
  continue-Avoids (err (app_error status code)) f s h k = refl

  -- After a step that only reads the rest starts in the same session, with the step's result.
  pub Avoids-read :
      (m : Service A) (f : A → Service B) (s : Session)
      → IsReader m
      → Avoids m s
      → ((a : A) → (m s).0 ≡ ok a → Avoids (f a) s)
      → Avoids (m >>= f) s
  unfolding ◌>>=◌
  Avoids-read m f s k h g = record {
    at =
        subst (λ s'. is_key_error (continue (m s).0 f s').0 ≡ false) (sym (k.at s))
          (continue-Avoids (m s).0 f s h.at g);
  }
