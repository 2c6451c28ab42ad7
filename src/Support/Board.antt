-- ===== src/Support/Board.antt =====
-- That the list of the board, whose likes are counted in bulk, shows for each submission what its own
-- counts are.
use book_club_be.Prelude.{
  map_congr, ℕ, ◌+◌, ◌≡◌, refl, ap, true, not, ◌&&◌, Option, List, [], ◌∷◌, arith, map, ◌==◌,
  select, count, exists, All, All-map, lookup, lookup-insert,
}
use book_club_be.Models.{
  User, is_admin, SupportType, SupportStatus, SupportSubmission, SupportSubmissionLike,
}
use book_club_be.Database.{Database}
use book_club_be.ClubRepository.{in_ids}
use book_club_be.Session.{Session, ok, ◌>>=◌}
use book_club_be.Support.{
  SupportSubmissionResponse, build_response, is_like, likes_of, or_no_likes, group_likes,
  bulk_like_counts, bulk_liked_ids, is_complaint, listed, list_entry, list_submissions,
}

lookup-group_likes :
    (id : ℕ) (ls : List SupportSubmissionLike)
    → or_no_likes (lookup id (group_likes ls)) ≡ count (λ l. l.submission_id == id) ls
unfolding lookup
lookup-group_likes id [] = refl
lookup-group_likes id (l ∷ ls) = ground (
  arith,
  lookup-insert l.submission_id id (or_no_likes (lookup l.submission_id (group_likes ls)) + 1)
      (group_likes ls),
  lookup-group_likes id ls,
  lookup-group_likes l.submission_id ls,
)

count-select_in :
    (ids : List ℕ) (id : ℕ) (ls : List SupportSubmissionLike)
    → in_ids ids id ≡ true
    → count (λ l. l.submission_id == id) (select (λ l. in_ids ids l.submission_id) ls)
      ≡ count (λ l. l.submission_id == id) ls
count-select_in ids id [] h = refl
count-select_in ids id (l ∷ ls) h =
    ground (arith, count-select_in ids id ls h, λ (e : l.submission_id ≡ id). ap (in_ids ids) e)

in_ids-liked :
    (ids : List ℕ) (id user_id : ℕ) (ls : List SupportSubmissionLike)
    → in_ids ids id ≡ true
    → in_ids
        (map
          (λ l. l.submission_id)
          (select (λ l. in_ids ids l.submission_id && l.user_id == user_id) ls))
        id
      ≡ exists (is_like id user_id) ls
in_ids-liked ids id user_id [] h = refl
in_ids-liked ids id user_id (l ∷ ls) h =
    ground
      (arith, in_ids-liked ids id user_id ls h, λ (e : l.submission_id ≡ id). ap (in_ids ids) e)

All-in_ids : (ss : List SupportSubmission) → All (λ s. in_ids (map (λ s. s.id) ss) s.id ≡ true) ss
All-in_ids [] = tt
All-in_ids (s ∷ ss) = (ground arith, All-map _ _ (λ r h. ground arith) ss (All-in_ids ss))

-- the entry of a submission by its own counts
abbrev pub own_entry : Database → User → SupportSubmission → SupportSubmissionResponse
own_entry db current_user s =
    build_response s (likes_of s.id db) (exists (is_like s.id current_user.id) db.likes)
      (is_complaint s.type && not (is_admin current_user.role))

list_entry-own :
    (ids : List ℕ) (db : Database) (u : User) (r : SupportSubmission)
    → in_ids ids r.id ≡ true
    → list_entry (bulk_like_counts ids db) (bulk_liked_ids ids u.id db) u r ≡ own_entry db u r
list_entry-own ids db u r h =
    rw
      (
        lookup-group_likes r.id (select (λ l. in_ids ids l.submission_id) db.likes),
        count-select_in ids r.id db.likes h,
        in_ids-liked ids r.id u.id db.likes h,
      )
      refl

-- The list of the board, whose likes are counted and looked up in bulk for all its submissions,
-- shows for each submission its own number of likes and whether the user likes it.
pub list_submissions-own :
    (u : User) (t : Option SupportType) (st : Option SupportStatus) (s : Session)
    → (list_submissions u t st s).0 ≡ ok (map (own_entry s.work u) (listed t st s.work))
unfolding list_submissions ◌>>=◌
list_submissions-own u t st s =
    let ss = listed t st s.work in
    ap ok (
      map_congr _ _ ss
        (All-map _ _ (list_entry-own (map (λ r. r.id) ss) s.work u) ss (All-in_ids ss)))
