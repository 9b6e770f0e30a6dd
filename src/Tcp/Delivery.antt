-- ===== src/Tcp/Delivery.antt =====
-- Two connections over a byte stream: what one `tcp_connection` sends, the other delivers.
use diginext.Base.{
  ℕ, ◌^◌, ◌<◌, ◌≡◌, refl, sym, ap, ◌∙◌, String, true, List, [], ◌∷◌, ◌++◌, append_assoc, flatten,
  length, All, ok, arith, inl, inr,
}
use diginext.Tcp.Message.{Splitter, frame}
use diginext.Tcp.Message.Stream.{frames, frames-append, IsSendable, non_empty, receive-frames}
use diginext.Tcp.Connection.{Connection, Effect, read_message, create, start}
use diginext.Tcp.Connection.Writer.{
  Link, Step, sends, ends, fills, reads, stops, closes, Reach, here, next,
}
use diginext.Tcp.Connection.Writer.Queue.{fresh_link, one_write_in_order}
use diginext.Tcp.Connection.Reader.{read_all, read_all-receive}

pub flatten-append : (xs ys : List (List ℕ)) → flatten (xs ++ ys) ≡ flatten xs ++ flatten ys
flatten-append [] ys = refl
flatten-append (x ∷ xs) ys = rw (flatten-append xs ys, append_assoc)

-- The frames queued are those of the messages that were given to `send`.
abbrev IsFramed : Link → Type 0
IsFramed l = frames l.messages ≡ ok (flatten l.queued)

sends-IsFramed :
    (l : Link) (msg f : List ℕ)
    → frame msg ≡ ok f
    → IsFramed l
    → frames (l.messages ++ msg ∷ []) ≡ ok (flatten (l.queued ++ f ∷ []))
sends-IsFramed l msg f e v =
    rw (frames-append l.messages (msg ∷ []), v, flatten-append l.queued (f ∷ []))
      (unfold frames in rw e)

Step-IsFramed : {l m : Link} → Step l m → IsFramed l → IsFramed m
Step-IsFramed {l} (sends msg f e run) v = sends-IsFramed l msg f e v
Step-IsFramed (ends error bytes f rest n run) v = v
Step-IsFramed (fills bytes) v = v
Step-IsFramed (reads b error bytes run) v = v
Step-IsFramed (stops run) v = v
Step-IsFramed (closes run) v = v

fresh_link-IsFramed : (c : Connection) → IsFramed (fresh_link c)
unfolding frames
fresh_link-IsFramed c = refl

Reach-IsFramed : {l m : Link} → IsFramed l → Reach l m → IsFramed m
Reach-IsFramed v here = v
Reach-IsFramed v (next r st) = Step-IsFramed st (Reach-IsFramed v r)

all_written :
    (uuid : String) (c : Connection) (es : List Effect) (l : Link)
    → start (create uuid) ≡ ok (c, es)
    → Reach (fresh_link c) l
    → l.in_flight ≡ []
    → l.completed ≡ l.queued
all_written uuid c es l run r n = elim (one_write_in_order uuid c es l run r) [
  | inl (_, _, all) ↦ all
  | inr (f, rest, m, _, _) ↦ absurd (ground arith)
]

-- A started connection has gone through any steps, has no write in flight, and was given messages
-- of fewer than 2 ^ 60 bytes, not exactly one. Another connection, with a slot for `onReadMessage`
-- and an empty buffer, reads the bytes of the ended writes, fewer than 2 ^ 62, cut into reads in
-- any way. It delivers the messages that are not empty, each once and in order, and keeps nothing
-- unfinished.
pub read_all-delivers :
    (b : Splitter) (uuid : String) (c : Connection) (es : List Effect) (l : Link)
    (chunks : List (List ℕ)) (d : Connection)
    → start (create uuid) ≡ ok (c, es)
    → Reach (fresh_link c) l
    → l.in_flight ≡ []
    → All IsSendable l.messages
    → flatten chunks ≡ flatten l.completed
    → length (flatten chunks) < 2 ^ 62
    → d.slots read_message ≡ true
    → d.message ≡ []
    → d.part_message ≡ []
    → read_all b chunks d ≡ ok (non_empty l.messages, record d { message = []; part_message = [] })
read_all-delivers b uuid c es l chunks d run r n sendable stream small slot empty part =
    read_all-receive b chunks d slot empty
    ∙ rw (part, receive-frames b l.messages chunks sendable sent small) refl
  where
    sent : frames l.messages ≡ ok (flatten chunks)
    sent =
        Reach-IsFramed (fresh_link-IsFramed c) r
        ∙ ap ok (ap (λ q. flatten q) (sym (all_written uuid c es l run r n)) ∙ sym stream)
