-- ===== src/Support/Likes/Refinement.antt =====
-- That the requests on likes implement the abstract board.
use mathlib.Core.Path.{fun_ext}
use book_club_be.Prelude.{
  map, ℕ, ◌≡◌, inl, inr, refl, sym, ap, ◌∙◌, subst, ap₂, ==→eq, &&-left, &&-right, true, false,
  ◌&&◌, List, [], ◌∷◌, arith, ◌==◌, if◌then◌else◌, delete, exists, exists-append, Bool-cases, All,
}
use book_club_be.Models.{User, SupportSubmission, SupportSubmissionLike}
use book_club_be.Database.{Database, integrity, has_user}
use book_club_be.Session.{
  serve, when, on_integrity_error, ◌>>=◌, submission_not_found, cannot_like_suggestion,
  already_liked,
}
use book_club_be.Connections.{ConnectionManager}
use book_club_be.Support.{
  is_like, like_rows, add_like, remove_like, submission_rows, is_suggestion, get_submission,
  has_liked, count_likes, like_submission, unlike_submission,
}
use book_club_be.Support.Likes.{
  integrity-add_like, integrity-remove_like, submission_rows-cases, like_rows-cases,
  exists-select_none, exists-select_one,
}
use book_club_be.Support.Likes.Abstract.{
  Likes, actor, set_pair, spec, spec_run, kinds, liked, step, run, Answer, done, refused, Request,
  like, unlike,
}

liked-add :
    (s u s' u' : ℕ) (db : Database)
    → liked (add_like s u db) s' u' ≡ set_pair true s u (liked db) s' u'
liked-add s u s' u' db = exists-append (is_like s' u') db.likes _ ∙ ground arith

exists-delete_like :
    (s u s' u' : ℕ) (ls : List SupportSubmissionLike)
    → exists (is_like s' u') (delete (is_like s u) ls)
      ≡ (if s == s' && u == u' then false else exists (is_like s' u') ls)
exists-delete_like s u s' u' [] = ground arith
exists-delete_like s u s' u' (l ∷ ls) = ground (arith, exists-delete_like s u s' u' ls)

-- what a step leaves, against the abstract one
pub record Refines (db db' : Database) (a : Answer) (abstract : Answer × Likes) : Type 0 where
  pub answer : a ≡ abstract.0
  pub likes : (s u : ℕ) → liked db' s u ≡ abstract.1 s u
  pub only_likes : db' ≡ record db { likes = db'.likes }
  pub sound : integrity db' ≡ true

module _ (now s : ℕ) (u : User) (db : Database) (manager : ConnectionManager) where
  like-absent :
      submission_rows s db ≡ []
      → step (now, like s u) db manager ≡ (refused submission_not_found, db)
  unfolding step like_submission get_submission serve ◌>>=◌
  like-absent e = rw e refl

  like-suggestion :
      (x : SupportSubmission)
      → submission_rows s db ≡ x ∷ []
      → is_suggestion x.type ≡ true
      → step (now, like s u) db manager ≡ (refused cannot_like_suggestion, db)
  unfolding step like_submission get_submission serve ◌>>=◌
  like-suggestion x e t = rw (e, t) refl

  like-again :
      (x : SupportSubmission) (l : SupportSubmissionLike)
      → submission_rows s db ≡ x ∷ []
      → is_suggestion x.type ≡ false
      → like_rows s u.id db ≡ l ∷ []
      → step (now, like s u) db manager ≡ (refused already_liked, db)
  unfolding step like_submission get_submission has_liked serve ◌>>=◌
  like-again x l e t f = rw (e, t, f) refl

  like-new :
      (x : SupportSubmission)
      → submission_rows s db ≡ x ∷ []
      → is_suggestion x.type ≡ false
      → like_rows s u.id db ≡ []
      → integrity (add_like s u.id db) ≡ true
      → step (now, like s u) db manager ≡ (done, add_like s u.id db)
  unfolding step like_submission get_submission has_liked count_likes on_integrity_error serve ◌>>=◌
  like-new x e t f i = rw (e, t, f, i) (rw i refl)

  unlike-absent :
      submission_rows s db ≡ []
      → step (now, unlike s u) db manager ≡ (refused submission_not_found, db)
  unfolding step unlike_submission get_submission serve ◌>>=◌
  unlike-absent e = rw e refl

  unlike-none :
      (x : SupportSubmission)
      → submission_rows s db ≡ x ∷ []
      → like_rows s u.id db ≡ []
      → integrity db ≡ true
      → step (now, unlike s u) db manager ≡ (done, db)
  unfolding step unlike_submission get_submission when serve ◌>>=◌
  unlike-none x e f i = rw (e, f, i) refl

  unlike-one :
      (x : SupportSubmission) (l : SupportSubmissionLike)
      → submission_rows s db ≡ x ∷ []
      → like_rows s u.id db ≡ l ∷ []
      → integrity (remove_like s u.id db) ≡ true
      → step (now, unlike s u) db manager ≡ (done, remove_like s u.id db)
  unfolding step unlike_submission get_submission when serve ◌>>=◌
  unlike-one x l e f i = rw (e, f, i) (rw i refl)

same_pair-liked :
    (db : Database) (s u s' u' : ℕ) → (s == s' && u == u') ≡ true → liked db s u ≡ liked db s' u'
same_pair-liked db s u s' u' h =
    ap₂ (liked db) (==→eq s s' (&&-left _ _ h)) (==→eq u u' (&&-right _ _ h))

Refines-same :
    (db : Database) (a : Answer) (abstract : Answer × Likes)
    → integrity db ≡ true
    → abstract ≡ (a, liked db)
    → Refines db db a abstract
Refines-same db a abstract h e = record {
  answer = sym (ap (λ p. p.0) e);
  likes = λ s u. sym (ap (λ p. p.1 s u) e);
  only_likes = refl;
  sound = h;
}

abbrev StepRefines : ℕ × Request → Database → ConnectionManager → Type 0
StepRefines r db manager =
    Refines db (step r db manager).1 (step r db manager).0 (spec (kinds db) r.1 (liked db))

-- a request against the abstract one, from what it comes to
step-by :
    (r : ℕ × Request) (db : Database) (manager : ConnectionManager) {a : Answer} {db' : Database}
    → step r db manager ≡ (a, db')
    → Refines db db' a (spec (kinds db) r.1 (liked db))
    → StepRefines r db manager
step-by r db manager e h =
    subst (λ p. Refines db p.1 p.0 (spec (kinds db) r.1 (liked db))) (sym e) h

module _ (now s : ℕ) (u : User) (db : Database) (manager : ConnectionManager) where
  like-Refines :
      integrity db ≡ true → has_user db u.id ≡ true → StepRefines (now, like s u) db manager
  like-Refines h user = elim (submission_rows-cases s db h) [
    | inl none_there ↦
        step-by _ db manager (like-absent now s u db manager none_there)
          (Refines-same db _ _ h (rw none_there refl))
    | inr (x, row) ↦ elim (Bool-cases (is_suggestion x.type)) [
      | inl suggestion ↦
          step-by _ db manager (like-suggestion now s u db manager x row suggestion)
            (Refines-same db _ _ h (rw (row, suggestion) refl))
      | inr likable ↦ elim (like_rows-cases s u.id db h) [
        | inl free ↦
            let sound =
              integrity-add_like s u.id db h user
                (exists-select_one (λ r. r.id == s) db.submissions x row)
                (exists-select_none (is_like s u.id) db.likes free) in
            step-by _ db manager (like-new now s u db manager x row likable free sound) record {
              answer = rw (row, likable, exists-select_none (is_like s u.id) db.likes free) refl;
              likes = λ s' u'.
                  rw (row, likable, exists-select_none (is_like s u.id) db.likes free)
                    (liked-add s u.id s' u' db);
              only_likes = refl;
              sound = sound;
            }
        | inr (l, taken) ↦
            step-by _ db manager (like-again now s u db manager x l row likable taken) (
              Refines-same db _ _ h
                (rw (row, likable, exists-select_one (is_like s u.id) db.likes l taken) refl))
      ]
    ]
  ]

  unlike-Refines : integrity db ≡ true → StepRefines (now, unlike s u) db manager
  unlike-Refines h = elim (submission_rows-cases s db h) [
    | inl none_there ↦
        step-by _ db manager (unlike-absent now s u db manager none_there)
          (Refines-same db _ _ h (rw none_there refl))
    | inr (x, row) ↦ elim (like_rows-cases s u.id db h) [
      | inl free ↦ step-by _ db manager (unlike-none now s u db manager x row free h) record {
        answer = rw row refl;
        likes = λ s' u'. rw row (
            ground (
              arith,
              exists-select_none (is_like s u.id) db.likes free,
              same_pair-liked db s u.id s' u',
            ));
        only_likes = refl;
        sound = h;
      }
      | inr (l, taken) ↦
          let sound = integrity-remove_like s u.id db h in
          step-by _ db manager (unlike-one now s u db manager x l row taken sound) record {
            answer = rw row refl;
            likes = λ s' u'. rw row (exists-delete_like s u.id s' u' db.likes);
            only_likes = refl;
            sound = sound;
          }
    ]
  ]

step-Refines :
    (r : ℕ × Request) (db : Database) (manager : ConnectionManager)
    → integrity db ≡ true
    → has_user db (actor r.1).id ≡ true
    → StepRefines r db manager
step-Refines (now, like s u) db manager h user = like-Refines now s u db manager h user
step-Refines (now, unlike s u) db manager h user = unlike-Refines now s u db manager h

-- Any requests to like and unlike submissions, by users of the database and from tables that meet
-- their constraints, are answered as the set of liking pairs answers them (no such submission, a
-- suggestion, liked already, done), the table of likes then stands for the set that they come to,
-- and the constraints still hold.
pub run-refines :
    (rs : List (ℕ × Request)) (db : Database) (manager : ConnectionManager)
    → integrity db ≡ true
    → All (λ r. has_user db (actor r.1).id ≡ true) rs
    → let end = run rs db manager in
      let abstract = spec_run (kinds db) (map (λ r. r.1) rs) (liked db) in
      (end.0 ≡ abstract.0)
      × ((s u : ℕ) → liked end.1 s u ≡ abstract.1 s u)
      × (integrity end.1 ≡ true)
unfolding run
run-refines [] db manager h users = (refl, λ s u. refl, h)
run-refines (r ∷ rs) db manager h users =
    let one = step-Refines r db manager h users.0 in
    let db' = (step r db manager).1 in
    let same_kinds : kinds db' ≡ kinds db = ap kinds one.only_likes in
    let same_likes : liked db' ≡ (spec (kinds db) r.1 (liked db)).1 =
      fun_ext (λ s. fun_ext (λ u. one.likes s u)) in
    let rest =
      run-refines rs db' manager one.sound (
        subst (λ d. All (λ q. has_user d (actor q.1).id ≡ true) rs) (sym one.only_likes) users.1) in
    let meet = ap₂ (λ k l. spec_run k (map (λ q. q.1) rs) l) same_kinds same_likes in
    (
      ap₂ (λ a as_. a ∷ as_) one.answer (rest.0 ∙ ap (λ p. p.0) meet),
      λ s u. rest.1 s u ∙ ap (λ p. p.1 s u) meet,
      rest.2,
    )
