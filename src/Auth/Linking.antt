-- ===== src/Auth/Linking.antt =====
-- Which local user a Supabase user becomes.
use book_club_be.Prelude.{
  ℕ, ◌≡◌, refl, sym, ap, subst, Bool, true, false, inl, inr, Option, none, some, List, [], ◌∷◌,
  arith, ==→eq, opt_eq, select, Bool-cases,
}
use book_club_be.Models.{Text, User, is_admin}
use book_club_be.Database.{integrity, same_text}
use book_club_be.Session.{Session, Result, ok, err, ◌>>=◌}
use book_club_be.Auth.Users.{
  SupabaseUser, linked_rows, email_rows, link, relink, add_user, first_user, role_of, create_user,
  link_or_create, find_by_email, user_or_search, get_or_create_user,
}

-- How the user has been found: by the identity, by the email, or not at all. The first changes
-- nothing, the second one row, and the third adds a row, which is no administrator's.
pub data Found (sb_user : SupabaseUser) (email : Text) (s s' : Session) (u : User) : Type 0 where
  known : linked_rows sb_user.id s.work ≡ u ∷ [] → s' ≡ s → Found sb_user email s s' u
  relinked :
      (row : User)
      → linked_rows sb_user.id s.work ≡ []
      → email_rows email s.work ≡ row ∷ []
      → u ≡ link sb_user.id row
      → s'.saved ≡ relink sb_user.id row s.work
      → Found sb_user email s s' u
  added :
      linked_rows sb_user.id s.work ≡ []
      → email_rows email s.work ≡ []
      → s'.saved ≡ add_user u s.work
      → is_admin u.role ≡ false
      → Found sb_user email s s' u

-- the user is the one of this identity, and of this email if the identity was new
pub record IsLinked (sb_user : SupabaseUser) (email : Text) (s s' : Session) (u : User)
    : Type 0 where
  pub how : Found sb_user email s s' u
  pub linked : u.supabase_user_id ≡ some sb_user.id

abbrev Ends : SupabaseUser → Text → Session → Result User × Session → Type 0
Ends sb_user email s (ok u, s') = IsLinked sb_user email s s' u
Ends sb_user email s (err e, s') = Unit

Ends-by :
    (sb_user : SupabaseUser) (email : Text) (s : Session) {r r' : Result User × Session}
    → r ≡ r'
    → Ends sb_user email s r'
    → Ends sb_user email s r
Ends-by sb_user email s e h = subst (Ends sb_user email s) (sym e) h

opt_eq→eq : (a : Option ℕ) (b : ℕ) → opt_eq a (some b) ≡ true → a ≡ some b
opt_eq→eq none b h = cc
opt_eq→eq (some a) b h = ground (arith, ==→eq a b)

-- the first selected row is one that the test accepts
select-head {ℓ} :
    {A : Type ℓ} (p : A → Bool) (xs ys : List A) (y : A) → select p xs ≡ y ∷ ys → p y ≡ true
select-head p [] ys y h = cc
select-head p (x ∷ xs) ys y h = ground (arith, select-head p xs ys y, λ (e : x ≡ y). ap p e)

select-none_other {ℓ} :
    {A : Type ℓ} (p q : A → Bool) (xs ys : List A) (y : A)
    → select p xs ≡ []
    → select q xs ≡ y ∷ ys
    → p y ≡ false
select-none_other p q [] ys y h k = cc
select-none_other p q (x ∷ xs) ys y h k =
    ground (arith, select-none_other p q xs ys y, λ (e : x ≡ y). ap p e)

role_of-no_admin : (t : Option Text) → is_admin (role_of t) ≡ false
role_of-no_admin none = refl
role_of-no_admin (some t) = ground arith

module _ (id : ℕ) (random_name : Text) (sb_user : SupabaseUser) (email : Text) (s : Session) where
  create-Ends :
      linked_rows sb_user.id s.work ≡ []
      → email_rows email s.work ≡ []
      → Ends sb_user email s (create_user (first_user id random_name sb_user email) s)
  unfolding create_user ◌>>=◌
  create-Ends no_identity no_email =
      let u = first_user id random_name sb_user email in
      elim (Bool-cases (integrity (add_user u s.work))) [
        | inl fine ↦
            rw (fine, create_user)
              (rw (fine, create_user)
                record {
                  how =
                      added no_identity no_email refl (role_of-no_admin sb_user.user_metadata.role);
                  linked = refl;
                })
        | inr broken ↦ rw (broken, create_user) tt
      ]

  relink-Ends :
      (row : User)
      → linked_rows sb_user.id s.work ≡ []
      → email_rows email s.work ≡ row ∷ []
      → Ends sb_user email s (link_or_create id random_name sb_user email (some row) s)
  unfolding link_or_create ◌>>=◌
  relink-Ends row no_identity found =
      rw
        (select-none_other (λ u. opt_eq u.supabase_user_id (some sb_user.id))
          (λ u. same_text u.email email) s.work.users [] row no_identity found)
        (elim (Bool-cases (integrity (relink sb_user.id row s.work))) [
          | inl fine ↦
              rw (fine, link_or_create)
                record { how = relinked row no_identity found refl refl; linked = refl }
          | inr broken ↦ rw (broken, link_or_create) tt
        ])

  search-Ends :
      (rows : List User)
      → linked_rows sb_user.id s.work ≡ []
      → email_rows email s.work ≡ rows
      → Ends sb_user email s (find_by_email id random_name sb_user email s)
  unfolding find_by_email ◌>>=◌ link_or_create
  search-Ends [] no_identity e = rw (e, find_by_email) (create-Ends no_identity e)
  search-Ends (row ∷ []) no_identity e = rw (e, find_by_email) (relink-Ends row no_identity e)
  search-Ends (row ∷ other ∷ rows) no_identity e = rw (e, find_by_email) tt

  get_or_create-Ends :
      (rows : List User)
      → linked_rows sb_user.id s.work ≡ rows
      → Ends sb_user email s (get_or_create_user id random_name sb_user email s)
  unfolding get_or_create_user user_or_search ◌>>=◌
  get_or_create-Ends [] e =
      rw (e, get_or_create_user) (search-Ends (email_rows email s.work) e refl)
  get_or_create-Ends (u ∷ []) e =
      rw (e, get_or_create_user)
        record {
          how = known e refl;
          linked =
              opt_eq→eq u.supabase_user_id sb_user.id (
                select-head (λ v. opt_eq v.supabase_user_id (some sb_user.id)) s.work.users [] u e);
        }
  get_or_create-Ends (u ∷ other ∷ rows) e = rw (e, get_or_create_user) tt

  -- A local user that signing in gives carries the Supabase identity: it is the row with that
  -- identity, and nothing changes; or, if there is none, the row with the email, of which only the
  -- identity changes; or, if there is neither, a new row, which is no administrator's.
  pub get_or_create-IsLinked :
      (u : User)
      → (get_or_create_user id random_name sb_user email s).0 ≡ ok u
      → IsLinked sb_user email s (get_or_create_user id random_name sb_user email s).1 u
  get_or_create-IsLinked u h =
      subst (λ r. Ends sb_user email s (r, (get_or_create_user id random_name sb_user email s).1)) h
        (get_or_create-Ends (linked_rows sb_user.id s.work) refl)
