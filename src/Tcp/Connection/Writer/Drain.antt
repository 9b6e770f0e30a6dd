-- ===== src/Tcp/Connection/Writer/Drain.antt =====
-- The write queue empties: each end of a write asks for the next one.
use diginext.Base.{
  ℕ, ◌≡◌, refl, sym, ap, ◌∙◌, Option, some, String, List, [], ◌∷◌, ◌++◌, append_assoc, append-nil,
  length, Outcome, ok, ◌>>=◌, bind_step, arith, false,
}
use diginext.Tcp.Connection.{
  Connection, ErrorCode, Effect, async_write_some, create, start, handle_write,
}
use diginext.Tcp.Connection.Writer.{
  Link, Reach, writes_of, handle_write_last, handle_write_more, writes_of-failed,
}
use diginext.Tcp.Connection.Writer.Queue.{idle, busy, Inv, fresh_link, fresh_link-Inv, Reach-Inv}

-- Each entry of the list ends the oldest write in flight, with that error code and number of
-- bytes; without a write in flight nothing happens.
end_oldest : Option ErrorCode × ℕ → Link → Outcome Link
end_oldest (error, bytes) l = elim l.in_flight [
  | [] ↦ ok l
  | f ∷ rest ↦ (do
    (c, es) ← handle_write error bytes l.conn
    ok (record l { conn = c; in_flight = rest ++ writes_of es; completed = l.completed ++ f ∷ [] }))
]

pub end_writes : List (Option ErrorCode × ℕ) → Link → Outcome Link
end_writes [] l = ok l
end_writes (r ∷ rs) l = end_oldest r l >>= end_writes rs

-- The link when its last write has ended, and when `f` has and `g` is next.
abbrev after_last : List ℕ → Link → Link
after_last f l = record l {
  conn = record (l.conn) { send_buffer = []; send_start = some false };
  in_flight = [];
  completed = l.completed ++ f ∷ [];
}

abbrev after_more : List ℕ → List ℕ → List (List ℕ) → Link → Link
after_more f g fs l = record l {
  conn = record (l.conn) { send_buffer = g ∷ fs };
  in_flight = g ∷ [];
  completed = l.completed ++ f ∷ [];
}

end_oldest-last :
    (error : Option ErrorCode) (bytes : ℕ) (f : List ℕ) (l : Link)
    → l.conn.send_buffer ≡ f ∷ []
    → l.in_flight ≡ f ∷ []
    → end_oldest (error, bytes) l ≡ ok (after_last f l)
unfolding end_oldest writes_of
end_oldest-last error bytes f l b n =
    ground (arith, handle_write_last error bytes f l.conn b, writes_of-failed error bytes l.conn [])

end_oldest-more :
    (error : Option ErrorCode) (bytes : ℕ) (f g : List ℕ) (fs : List (List ℕ)) (l : Link)
    → l.conn.send_buffer ≡ f ∷ g ∷ fs
    → l.in_flight ≡ f ∷ []
    → end_oldest (error, bytes) l ≡ ok (after_more f g fs l)
unfolding end_oldest writes_of
end_oldest-more error bytes f g fs l b n = ground (
  arith,
  handle_write_more error bytes f g fs l.conn b,
  writes_of-failed error bytes l.conn (async_write_some g ∷ []),
)

-- Everything of the buffer is written, and nothing else happens to the link.
abbrev IsDrained : Outcome Link → List (List ℕ) → Type 0
IsDrained r written =
    (m : Link) × (r ≡ ok m)
    × (m.in_flight ≡ [])
    × (m.conn.send_buffer ≡ [])
    × (m.completed ≡ written)

-- Busy with `f`, the rest of the buffer behind it.
drain_busy :
    (rs : List (Option ErrorCode × ℕ)) (f : List ℕ) (fs : List (List ℕ)) (l : Link)
    → l.conn.send_buffer ≡ f ∷ fs
    → l.in_flight ≡ f ∷ []
    → length rs ≡ length (f ∷ fs)
    → IsDrained (end_writes rs l) (l.completed ++ (f ∷ fs))
unfolding end_writes
drain_busy [] f fs l b n k = absurd (omega arith)
drain_busy ((error, bytes) ∷ []) f [] l b n k =
    (after_last f l, rw (end_oldest-last error bytes f l b n), refl, refl, refl)
drain_busy ((error, bytes) ∷ []) f (g ∷ fs) l b n k = absurd (omega arith)
drain_busy ((error, bytes) ∷ r ∷ rs) f [] l b n k = absurd (omega arith)
drain_busy ((error, bytes) ∷ r ∷ rs) f (g ∷ fs) l b n k =
    let (m, run, done, empty, order) =
      drain_busy (r ∷ rs) g fs (after_more f g fs l) refl refl (omega arith) in
    (
      m,
      bind_step (end_writes (r ∷ rs)) (end_oldest-more error bytes f g fs l b n) run,
      done,
      empty,
      order ∙ append_assoc l.completed (f ∷ []) (g ∷ fs),
    )

-- From any state that a started connection can reach, as many ends of writes as the buffer holds
-- frames, each with any error code and number of bytes, run without a fault. They leave no write in
-- flight and an empty buffer, and every frame that `send` has queued has then had its write, in
-- order.
pub end_writes-drains :
    (uuid : String) (c : Connection) (es : List Effect) (l : Link)
    (rs : List (Option ErrorCode × ℕ))
    → start (create uuid) ≡ ok (c, es)
    → Reach (fresh_link c) l
    → length rs ≡ length l.conn.send_buffer
    → (m : Link) × (end_writes rs l ≡ ok m)
      × (m.in_flight ≡ [])
      × (m.conn.send_buffer ≡ [])
      × (m.completed ≡ l.queued)
end_writes-drains uuid c es l rs run r k = drains (Reach-Inv (fresh_link-Inv uuid c es run) r) rs k
  where
    none_left :
        Inv l
        → l.in_flight ≡ []
        → l.conn.send_buffer ≡ []
        → (qs : List (Option ErrorCode × ℕ)) → length qs ≡ 0
        → IsDrained (end_writes qs l) l.queued
    none_left v n b [] h =
        (l, unfold end_writes in refl, n, b, ground (arith, v.order, append-nil l.completed))
    none_left v n b (q ∷ qs) h = absurd (omega arith)

    drains :
        Inv l
        → (qs : List (Option ErrorCode × ℕ)) → length qs ≡ length l.conn.send_buffer
        → IsDrained (end_writes qs l) l.queued
    drains v qs h = elim v.writing [
      | idle s b n ↦ none_left v n b qs (h ∙ ap length b)
      | busy f rest s b n ↦
          let (m, ended, done, empty, order) = drain_busy qs f rest l b n (h ∙ ap length b) in
          (m, ended, done, empty, order ∙ ap (λ q. l.completed ++ q) (sym b) ∙ v.order)
    ]
