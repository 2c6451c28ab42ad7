-- ===== src/Chat/Pages.antt =====
-- The pages of a room's messages: the page at a cursor goes on where the one before it ended.
use book_club_be.Prelude.{
  ℕ, ◌≡◌, refl, sym, subst, ap, ◌∙◌, Bool, true, false, inl, inr, some, List, [], ◌∷◌, ◌++◌, arith,
  ◌==◌, if◌then◌else◌, take, select, All, All-map, All-select, Bool-cases,
}
use book_club_be.Models.{ChatMessage}
use book_club_be.Database.{Database}
use book_club_be.Chat.Repository.{
  MessageRow, is_newer, insert_message, by_recency, is_before, cursor_timestamp, messages_of, page,
}

-- no later row is newer
abbrev pub IsNewestFirst : List MessageRow → Type 0
IsNewestFirst [] = Unit
IsNewestFirst (r ∷ rs) = All (λ q. is_newer q.message r.message ≡ false) rs × IsNewestFirst rs

not_newer_trans :
    (a b c : ChatMessage) → is_newer a b ≡ false → is_newer b c ≡ false → is_newer a c ≡ false
not_newer_trans a b c h k = ground arith

not_newer_swap : (a b : ChatMessage) → is_newer a b ≡ true → is_newer b a ≡ false
not_newer_swap a b h = ground arith

All-insert :
    (P : MessageRow → Type 0) (r : MessageRow) (rs : List MessageRow)
    → P r
    → All P rs
    → All P (insert_message r rs)
All-insert P r [] p h = (p, tt)
All-insert P r (q ∷ qs) p h = elim (Bool-cases (is_newer q.message r.message)) [
  | inl first ↦ rw first (h.0, All-insert P r qs p h.1)
  | inr later ↦ rw later (p, h)
]

insert-IsNewestFirst :
    (r : MessageRow) (rs : List MessageRow) → IsNewestFirst rs → IsNewestFirst (insert_message r rs)
insert-IsNewestFirst r [] h = (tt, tt)
insert-IsNewestFirst r (q ∷ qs) h = elim (Bool-cases (is_newer q.message r.message)) [
  | inl first ↦ rw first (
    All-insert (λ x. is_newer x.message q.message ≡ false) r qs
        (not_newer_swap q.message r.message first) h.0,
    insert-IsNewestFirst r qs h.1,
  )
  | inr later ↦ rw later (
    (later, All-map _ _ (λ x k. not_newer_trans x.message q.message r.message k later) qs h.0),
    h,
  )
]

by_recency-IsNewestFirst : (rs : List MessageRow) → IsNewestFirst (by_recency rs)
by_recency-IsNewestFirst [] = tt
by_recency-IsNewestFirst (r ∷ rs) =
    insert-IsNewestFirst r (by_recency rs) (by_recency-IsNewestFirst rs)

insert_first :
    (r : MessageRow) (rs : List MessageRow)
    → All (λ q. is_newer q.message r.message ≡ false) rs
    → insert_message r rs ≡ r ∷ rs
insert_first r [] h = refl
insert_first r (q ∷ qs) h = rw h.0 refl

module _ (p : MessageRow → Bool) where
  select-insert :
      (r : MessageRow) (rs : List MessageRow)
      → IsNewestFirst rs
      → select p (insert_message r rs)
        ≡ (if p r then insert_message r (select p rs) else select p rs)
  select-insert r [] h = ground arith
  select-insert r (q ∷ qs) h = elim (Bool-cases (is_newer q.message r.message)) [
    | inl first ↦ elim (Bool-cases (p q)) [
      | inl kept ↦ elim (Bool-cases (p r)) [
        | inl own ↦
            rw (first, kept, own, first) (ap (λ l. q ∷ l) (select-insert r qs h.1 ∙ rw own refl))
        | inr gone ↦
            rw (first, kept, gone) (ap (λ l. q ∷ l) (select-insert r qs h.1 ∙ rw gone refl))
      ]
      | inr dropped ↦ rw (first, dropped) (select-insert r qs h.1)
    ]
    | inr later ↦ rw later (elim (Bool-cases (p r)) [
      | inl own ↦ rw own (
          sym (
            insert_first r (select p (q ∷ qs)) (
              All-select (λ x. is_newer x.message r.message ≡ false) _ p (q ∷ qs) (λ x e k. k)
                (
                  later,
                  All-map _ _ (λ x k. not_newer_trans x.message q.message r.message k later) qs h.0,
                ))))
      | inr gone ↦ rw gone refl
    ])
  ]

  -- Selecting before sorting gives what selecting after it gives.
  by_recency-select : (rs : List MessageRow) → by_recency (select p rs) ≡ select p (by_recency rs)
  by_recency-select [] = refl
  by_recency-select (r ∷ rs) = elim (Bool-cases (p r)) [
    | inl own ↦ rw own (
        ap (insert_message r) (by_recency-select rs)
        ∙ sym (select-insert r (by_recency rs) (by_recency-IsNewestFirst rs) ∙ rw own refl))
    | inr gone ↦ rw gone (
        by_recency-select rs
        ∙ sym (select-insert r (by_recency rs) (by_recency-IsNewestFirst rs) ∙ rw gone refl))
  ]

select-All :
    (p : MessageRow → Bool) (rs : List MessageRow) → All (λ r. p r ≡ true) rs → select p rs ≡ rs
select-All p [] h = refl
select-All p (r ∷ rs) h = rw (h.0, select-All p rs h.1) refl

-- what lies before a message of a sorted list are the rows behind it
select-behind :
    (m : MessageRow) (xs ys : List MessageRow)
    → IsNewestFirst (xs ++ m ∷ ys)
    → All (λ y. (y.message.id == m.message.id) ≡ false) ys
    → select (is_before m.message.timestamp m.message.id) (xs ++ m ∷ ys) ≡ ys
select-behind m [] ys h other =
    ground (arith, select-All (is_before m.message.timestamp m.message.id) ys (both ys h.0 other))
  where
    both :
        (zs : List MessageRow)
        → All (λ y. is_newer y.message m.message ≡ false) zs
        → All (λ y. (y.message.id == m.message.id) ≡ false) zs
        → All (λ y. is_before m.message.timestamp m.message.id y ≡ true) zs
    both [] a b = tt
    both (z ∷ zs) a b = (ground arith, both zs a.1 b.1)
select-behind m (x ∷ xs) ys h other = rw (newer x xs h.0) (select-behind m xs ys h.1 other)
  where
    newer :
        (x : MessageRow) (zs : List MessageRow)
        → All (λ q. is_newer q.message x.message ≡ false) (zs ++ m ∷ ys)
        → is_before m.message.timestamp m.message.id x ≡ false
    newer x [] a = ground arith
    newer x (z ∷ zs) a = newer x zs a.1

-- The page at the cursor of a message holds the rows that follow the message in the order of all
-- the room's messages, newest first, when no row behind it has the message's id.
pub page_lem :
    (room_id limit : ℕ) (db : Database) (m : MessageRow) (xs ys : List MessageRow)
    → by_recency (messages_of room_id db) ≡ xs ++ m ∷ ys
    → cursor_timestamp m.message.id db ≡ some m.message
    → All (λ y. (y.message.id == m.message.id) ≡ false) ys
    → page room_id (some m.message.id) limit db ≡ take limit ys
page_lem room_id limit db m xs ys order found other = rw found (
    ap (take limit) (
      by_recency-select (is_before m.message.timestamp m.message.id) (messages_of room_id db)
      ∙ (ap (select (is_before m.message.timestamp m.message.id)) order
          ∙ select-behind m xs ys
              (subst IsNewestFirst order (by_recency-IsNewestFirst (messages_of room_id db)))
              other)))
