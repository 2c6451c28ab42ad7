-- ===== src/Session/Holds.antt =====
-- What holds of the session that a service leaves, step by step along its `do` block.
use book_club_be.Prelude.{
  ℕ, ◌≡◌, refl, sym, subst, Bool, true, false, if◌then◌else◌, Bool-cases, inl, inr,
}
use book_club_be.Database.{Database, integrity}
use book_club_be.Session.{
  Session, Service, Result, ok, err, modify, commit, Code, raise, query, get_now, ◌>>=◌, continue,
  pure, handled, on_integrity_error, integrity_error, app_error, multiple_results, key_error,
}
use book_club_be.Session.Readers.{IsReader}

-- `P` holds of the session that `m` leaves when it raises in `s`, and `Q` when it returns.
abbrev pub After : {A : Type 0} → (P Q : Session → Type 0) → Result A → Session → Type 0
After P Q (ok a) s = Q s
After P Q (err e) s = P s

pub record Holds {A : Type 0} (P Q : Session → Type 0) (m : Service A) (s : Session) : Type 0 where
  pub at : After P Q (m s).0 (m s).1

After-both :
    {A : Type 0} (P Q : Session → Type 0) (r : Result A) (s : Session) → P s → Q s → After P Q r s
After-both P Q (ok a) s p q = q
After-both P Q (err e) s p q = p

After-weaken :
    {A : Type 0} (P Q Q' : Session → Type 0) (r : Result A) (s : Session)
    → After P Q r s
    → ((s' : Session) → Q s' → Q' s')
    → After P Q' r s
After-weaken P Q Q' (ok a) s h f = f s h
After-weaken P Q Q' (err e) s h f = h

module _ {A : Type 0} {P Q : Session → Type 0} where
  pub Holds-reader : (m : Service A) (s : Session) → IsReader m → P s → Q s → Holds P Q m s
  Holds-reader m s k p q = record {
    at = After-both P Q (m s).0 (m s).1 (subst P (sym (k.at s)) p) (subst Q (sym (k.at s)) q);
  }

  pub Holds-weaken :
      {Q' : Session → Type 0} (m : Service A) (s : Session)
      → Holds P Q m s
      → ((s' : Session) → Q s' → Q' s')
      → Holds P Q' m s
  Holds-weaken {Q' = Q'} m s h f = record { at = After-weaken P Q Q' (m s).0 (m s).1 h.at f }

  pub Holds-pure : (a : A) (s : Session) → Q s → Holds P Q (pure a) s
  unfolding pure
  Holds-pure a s q = record { at = q }

  pub Holds-query : (f : Database → A) (s : Session) → Q s → Holds P Q (query f) s
  unfolding query
  Holds-query f s q = record { at = q }

  pub Holds-raise :
      (status : ℕ) (code : Code) (s : Session) → P s → Holds P Q (raise {A = A} status code) s
  unfolding raise
  Holds-raise status code s p = record { at = p }

  pub Holds-if :
      (b : Bool) (m n : Service A) (s : Session)
      → (b ≡ true → Holds P Q m s)
      → (b ≡ false → Holds P Q n s)
      → Holds P Q (if b then m else n) s
  Holds-if true m n s km kn = km refl
  Holds-if false m n s km kn = kn refl

module _ {A B : Type 0} {P Q : Session → Type 0} where
  continue-Holds :
      (r : Result A) (f : A → Service B) (s : Session)
      → P s
      → ((a : A) → r ≡ ok a → Holds P Q (f a) s)
      → After P Q (continue r f s).0 (continue r f s).1
  continue-Holds (ok a) f s h k = (k a refl).at
  continue-Holds (err e) f s h k = h

  -- After a step that only reads the rest starts in the same session, with the step's result.
  pub Holds-read :
      (m : Service A) (f : A → Service B) (s : Session)
      → IsReader m
      → P s
      → ((a : A) → (m s).0 ≡ ok a → Holds P Q (f a) s)
      → Holds P Q (m >>= f) s
  unfolding ◌>>=◌
  Holds-read m f s r h k = record {
    at =
        continue-Holds (m s).0 f (m s).1 (subst P (sym (r.at s)) h)
          (λ a e. subst (Holds P Q (f a)) (sym (r.at s)) (k a e));
  }

-- a commit as the last statement
pub Holds-commit_last :
    {P Q : Session → Type 0} (s : Session)
    → P s
    → (integrity s.work ≡ true → Q (record s { saved = s.work }))
    → Holds P Q commit s
unfolding commit
Holds-commit_last s h k = elim (Bool-cases (integrity s.work)) [
  | inl fine ↦ record { at = rw fine (k fine) }
  | inr broken ↦ record { at = rw broken h }
]

module _ {B : Type 0} {P Q : Session → Type 0} where
  pub Holds-modify :
      (g : Database → Database) (f : Unit {0} → Service B) (s : Session)
      → Holds P Q (f tt) (record s { work = g s.work })
      → Holds P Q (modify g >>= f) s
  unfolding ◌>>=◌
  Holds-modify g f s k = record { at = k.at }

  pub Holds-get_now :
      (f : ℕ → Service B) (s : Session) → Holds P Q (f s.now) s → Holds P Q (get_now >>= f) s
  unfolding ◌>>=◌
  Holds-get_now f s k = record { at = k.at }

  pub Holds-commit :
      (f : Unit {0} → Service B) (s : Session)
      → P s
      → (integrity s.work ≡ true → Holds P Q (f tt) (record s { saved = s.work }))
      → Holds P Q (commit >>= f) s
  unfolding ◌>>=◌
  Holds-commit f s h k = elim (Bool-cases (integrity s.work)) [
    | inl fine ↦ record { at = rw (fine, ◌>>=◌) (k fine).at }
    | inr broken ↦ record { at = rw (broken, ◌>>=◌) h }
  ]

module _ {A : Type 0} {P Q : Session → Type 0} where
  handled-Holds :
      (r : Result A) (handler : Service A) (s : Session)
      → After P Q r s
      → (P s → Holds P Q handler (record s { work = s.saved }))
      → After P Q (handled r handler s).0 (handled r handler s).1
  handled-Holds (ok a) handler s h k = h
  handled-Holds (err integrity_error) handler s h k = (k h).at
  handled-Holds (err (app_error status code)) handler s h k = h
  handled-Holds (err multiple_results) handler s h k = h
  handled-Holds (err key_error) handler s h k = h

  pub Holds-on_integrity_error :
      (m handler : Service A) (s : Session)
      → Holds P Q m s
      → ((s' : Session) → P s' → Holds P Q handler (record s' { work = s'.saved }))
      → Holds P Q (on_integrity_error m handler) s
  unfolding on_integrity_error
  Holds-on_integrity_error m handler s h k = record {
    at = handled-Holds (m s).0 handler (m s).1 h.at (k (m s).1);
  }

module _ {A B : Type 0} where
  continue-all :
      (P Q R : Session → Type 0) (r : Result A) (f : A → Service B) (s : Session)
      → After P Q r s
      → ((a : A) → Q s → Holds P R (f a) s)
      → After P R (continue r f s).0 (continue r f s).1
  continue-all P Q R (ok a) f s h k = (k a h).at
  continue-all P Q R (err e) f s h k = h

  -- the general rule, by what holds between the two steps
  pub Holds-bind :
      {P Q R : Session → Type 0} (m : Service A) (f : A → Service B) (s : Session)
      → Holds P Q m s
      → ((a : A) (s' : Session) → Q s' → Holds P R (f a) s')
      → Holds P R (m >>= f) s
  unfolding ◌>>=◌
  Holds-bind {P = P} {Q = Q} {R = R} m f s h k = record {
    at = continue-all P Q R (m s).0 f (m s).1 h.at (λ a. k a (m s).1);
  }

After-any :
    {A : Type 0} (P Q : Session → Type 0) (r : Result A) (s : Session)
    → After P Q r s
    → After (λ _. Unit) Q r s
After-any P Q (ok a) s h = h
After-any P Q (err e) s h = tt

-- what holds when the service returns, whatever holds when it raises
pub Holds-any :
    {A : Type 0} {P Q : Session → Type 0} (m : Service A) (s : Session)
    → Holds P Q m s
    → Holds (λ _. Unit) Q m s
Holds-any {P = P} {Q = Q} m s h = record { at = After-any P Q (m s).0 (m s).1 h.at }
