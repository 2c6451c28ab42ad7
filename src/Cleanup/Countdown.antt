-- ===== src/Cleanup/Countdown.antt =====
-- That the bot posts at most one countdown a day to a room, however often the pass runs.
use book_club_be.Prelude.{
  count-append, count-select-le, ℕ, ◌/◌, ◌≤◌, ◌≡◌, refl, sym, ap₂, ◌∙◌, Bool, true, false, not,
  ◌&&◌, List, [], ◌∷◌, arith, ◌==◌, leb, exists, count, Bool-cases, inl, inr, is_empty,
}
use book_club_be.Models.{ChatMessage}
use book_club_be.Database.{Database, integrity}
use book_club_be.Connections.{ConnectionManager, broadcast}
use book_club_be.ClubRepository.{in_ids}
use book_club_be.Chat.Service.{add_message}
use book_club_be.Clubs.Members.{day}
use book_club_be.Session.{
  Session, Result, ok, err, modify, commit, change_sockets, when, serve, begin, finish, ◌>>=◌,
  query,
}
use book_club_be.Session.Readers.{IsReader-query}
use book_club_be.Session.Holds.{
  Holds, After, Holds-read, Holds-bind, Holds-get_now, Holds-modify, Holds-commit,
  Holds-commit_last, Holds-pure,
}
use book_club_be.Cleanup.{
  Bot, EventRoom, is_posted, today_start, countdown_message, post_countdown, is_expired,
  lifecycle_loop, delete_rooms, delete_if_any, run_event_chat_lifecycle_pass,
}

-- a message of the bot in the room on the day
abbrev pub is_of_day : ℕ → ℕ → ℕ → ChatMessage → Bool
is_of_day system_user_id room_id d m =
    m.room_id == room_id && m.sender_id == system_user_id && m.timestamp / day == d

-- at most one of them on each day in each room
abbrev pub IsDaily : ℕ → Database → Type 0
IsDaily system_user_id db =
    (d room_id : ℕ) → count (is_of_day system_user_id room_id d) db.messages ≤ 1

day-since : (now t : ℕ) → t / day ≡ now / day → leb (today_start now) t ≡ true
day-since now t h = ground arith

count-none :
    (sys r now : ℕ) (ms : List ChatMessage)
    → exists (is_posted sys r (today_start now)) ms ≡ false
    → count (is_of_day sys r (now / day)) ms ≡ 0
count-none sys r now [] h = refl
count-none sys r now (m ∷ ms) h = ground (arith, count-none sys r now ms, day-since now m.timestamp)

count-none_at :
    (sys r now room_id d : ℕ) (ms : List ChatMessage)
    → exists (is_posted sys r (today_start now)) ms ≡ false
    → r ≡ room_id
    → now / day ≡ d
    → count (is_of_day sys room_id d) ms ≡ 0
count-none_at sys r now room_id d ms h same_room same_day =
    ap₂ (λ i e. count (is_of_day sys i e) ms) (sym same_room) (sym same_day)
    ∙ count-none sys r now ms h

abbrev Kept : ℕ → Session → Type 0
Kept sys s = IsDaily sys s.saved × IsDaily sys s.work

module _ (bot : Bot) (now : ℕ) where
  add-IsDaily :
      (r : EventRoom) (db : Database)
      → IsDaily bot.system_user_id db
      → exists (is_posted bot.system_user_id r.room_id (today_start now)) db.messages ≡ false
      → IsDaily bot.system_user_id (add_message (countdown_message bot now r) db)
  add-IsDaily r db h free d room_id = ground (
    arith,
    count-append (is_of_day bot.system_user_id room_id d) db.messages
        (countdown_message bot now r ∷ []),
    h d room_id,
    count-none_at bot.system_user_id r.room_id now room_id d db.messages free,
  )

  -- the countdown is stored before it is sent
  write-Kept :
      (r : EventRoom) (s : Session)
      → Kept bot.system_user_id s
      → exists (is_posted bot.system_user_id r.room_id (today_start now)) s.work.messages ≡ false
      → Holds
          (Kept bot.system_user_id)
          (Kept bot.system_user_id)
          (modify (add_message (countdown_message bot now r)) >>= λ _.
            commit >>= λ _. change_sockets (λ db. broadcast r.room_id (bot.send_json r.room_id)))
          s
  unfolding change_sockets
  write-Kept r s h free =
      let added = add-IsDaily r s.work h.1 free in
      Holds-modify _ _ s (Holds-commit _ _ (h.0, added) λ _. record { at = (added, added) })

  query-eq :
      {A : Type 0} (f : Database → A) (s : Session) (a : A) → (query f s).0 ≡ ok a → f s.work ≡ a
  unfolding query
  query-eq f s a h = cc

  post-Kept :
      (r : EventRoom) (s : Session)
      → Kept bot.system_user_id s
      → Holds (Kept bot.system_user_id) (Kept bot.system_user_id) (post_countdown bot now r) s
  unfolding post_countdown query change_sockets when
  post-Kept r s h = Holds-read _ _ s (IsReader-query _) h λ posted found. elim (Bool-cases posted) [
    | inl again ↦ rw again record { at = h }
    | inr first ↦ rw first record {
      at =
          (write-Kept r s h (
            query-eq
              (λ db. exists (is_posted bot.system_user_id r.room_id (today_start now)) db.messages)
              s posted found
            ∙ first)).at;
    }
  ]

  loop-Kept :
      (rs : List EventRoom) (s : Session)
      → Kept bot.system_user_id s
      → Holds (Kept bot.system_user_id) (Kept bot.system_user_id) (lifecycle_loop bot now rs) s
  unfolding lifecycle_loop
  loop-Kept [] s h = Holds-pure _ s h
  loop-Kept (r ∷ rs) s h = elim (Bool-cases (is_expired now r)) [
    | inl expired ↦ rw expired (Holds-bind _ _ s (loop-Kept rs s h) λ ids s' k. Holds-pure _ s' k)
    | inr open_ ↦ rw open_ (Holds-bind _ _ s (post-Kept r s h) λ _ s' k. loop-Kept rs s' k)
  ]

delete-IsDaily :
    (sys : ℕ) (ids : List ℕ) (db : Database) → IsDaily sys db → IsDaily sys (delete_rooms ids db)
unfolding delete_rooms
delete-IsDaily sys ids db h d room_id = omega (
  arith,
  h d room_id,
  count-select-le (is_of_day sys room_id d) (λ m. not (in_ids ids m.room_id)) db.messages,
)

pass-Kept :
    (bot : Bot) (s : Session)
    → Kept bot.system_user_id s
    → Holds
        (Kept bot.system_user_id)
        (Kept bot.system_user_id)
        (run_event_chat_lifecycle_pass bot)
        s
unfolding run_event_chat_lifecycle_pass delete_if_any when
pass-Kept bot s h = Holds-get_now _ s (
    Holds-read _ _ s (IsReader-query _) h λ rows _.
      Holds-bind _ _ s (loop-Kept bot s.now rows s h) λ ids s' k. elim (Bool-cases (is_empty ids)) [
        | inl nothing ↦ rw nothing record { at = k }
        | inr some_ids ↦ rw some_ids record {
          at =
              (Holds-modify _ _ s' (
                Holds-commit_last _ (k.0, delete-IsDaily _ ids s'.work k.1)
                  λ _. (delete-IsDaily _ ids s'.work k.1, delete-IsDaily _ ids s'.work k.1))).at;
        }
      ])

-- the stored tables and the connections after a pass, which a failure rolls back
pub record World : Type 0 where
  pub database : Database
  pub manager : ConnectionManager

unfoldable pub pass : Bot → ℕ → World → World
pass bot now w =
    let (_, s) = serve (run_event_chat_lifecycle_pass bot) w.database now w.manager in
    record { database = s.saved; manager = s.manager }

-- each pass with its time, and with the ids and the sends of its own
unfoldable pub passes : ℕ → List (ℕ × Bot) → World → World
passes sys [] w = w
passes sys ((now, bot) ∷ rest) w =
    passes sys rest (pass (record bot { system_user_id = sys }) now w)

finish-IsDaily :
    {A : Type 0} (sys : ℕ) (r : Result A) (s : Session)
    → After (Kept sys) (Kept sys) r s
    → IsDaily sys (finish (r, s)).1.saved
finish-IsDaily sys (ok a) s h = elim (Bool-cases (integrity s.work)) [
  | inl fine ↦ rw fine h.1
  | inr broken ↦ rw broken h.0
]
finish-IsDaily sys (err e) s h = h.0

pass-IsDaily :
    (bot : Bot) (now : ℕ) (w : World)
    → IsDaily bot.system_user_id w.database
    → IsDaily bot.system_user_id (pass bot now w).database
unfolding pass serve
pass-IsDaily bot now w h =
    let s = begin w.database now w.manager in
    finish-IsDaily bot.system_user_id (run_event_chat_lifecycle_pass bot s).0
      (run_event_chat_lifecycle_pass bot s).1 (pass-Kept bot s (h, h)).at

-- However often and whenever the pass over event rooms runs, and whether its commits succeed, the
-- bot has posted at most one message a day to each room, if that was so at first.
pub passes-IsDaily :
    (sys : ℕ) (ps : List (ℕ × Bot)) (w : World)
    → IsDaily sys w.database
    → IsDaily sys (passes sys ps w).database
unfolding passes
passes-IsDaily sys [] w h = h
passes-IsDaily sys ((now, bot) ∷ ps) w h =
    passes-IsDaily sys ps (pass (record bot { system_user_id = sys }) now w)
      (pass-IsDaily (record bot { system_user_id = sys }) now w h)
