-- ===== src/Tcp/Connection/Writer/Queue.antt =====
-- The write queue is a FIFO queue of which only the front is being written.
use diginext.Base.{
  ℕ, ◌≡◌, refl, sym, ap, ◌∙◌, ◌⊎◌, inl, inr, String, true, false, Option, none, some, List, [], ◌∷◌,
  ◌++◌, append_assoc, append-nil, map, bind_inversion, ok, arith,
}
use diginext.Tcp.Message.{Splitter, frame, read_bytes}
use diginext.Tcp.Connection.{
  Connection, ErrorCode, Effect, async_write_some, post_close, on_disconnected, on_read_message,
  on_read_error, eof, connection_reset, other, Event, async_read_until, fire, read_failed, create,
  start, send, handle_read, stop, close_task, handle_write,
}
use diginext.Tcp.Connection.Writer.{
  Link, Step, sends, ends, fills, reads, stops, closes, Reach, here, next, writes_of, send_idle,
  send_busy, handle_write_last, handle_write_more, writes_of-failed, writes_of-fire,
  writes_of-fire_all,
}

-- Idle, with nothing queued or in flight, or busy with the front of the buffer.
pub data IsWriting (c : Connection) (flight : List (List ℕ)) : Type 0 where
  idle : c.send_start ≡ some false → c.send_buffer ≡ [] → flight ≡ [] → IsWriting c flight
  busy :
      (f : List ℕ) (rest : List (List ℕ))
      → c.send_start ≡ some true
      → c.send_buffer ≡ f ∷ rest
      → flight ≡ f ∷ []
      → IsWriting c flight

-- The frames that have been written, and then those in the buffer, are those queued.
pub record Inv (l : Link) : Type 0 where
  pub writing : IsWriting l.conn l.in_flight
  pub order : l.completed ++ l.conn.send_buffer ≡ l.queued

-- A method that leaves the queue alone and asks for no write.
abbrev Spares : Connection → Connection → List Effect → Type 0
Spares c d es =
    (d.send_start ≡ c.send_start) × (d.send_buffer ≡ c.send_buffer) × (writes_of es ≡ [])

IsWriting-spared :
    (c d : Connection) (flight : List (List ℕ)) (es : List Effect)
    → Spares c d es
    → IsWriting c flight
    → IsWriting d (flight ++ writes_of es)
IsWriting-spared c d flight es (s, b, w) (idle p q n) = idle (s ∙ p) (b ∙ q) (rw (n, w))
IsWriting-spared c d flight es (s, b, w) (busy f rest p q n) =
    busy f rest (s ∙ p) (b ∙ q) (rw (n, w))

spared-Inv :
    (l : Link) (d : Connection) (es : List Effect)
    → Spares l.conn d es
    → Inv l
    → Inv (record l { conn = d; in_flight = l.in_flight ++ writes_of es })
spared-Inv l d es h v = record {
  writing = IsWriting-spared l.conn d l.in_flight es h v.writing;
  order = ap (λ b. l.completed ++ b) h.1 ∙ v.order;
}

writes_of-fire_alone : (c : Connection) (e : Event) → writes_of (fire c e) ≡ []
unfolding writes_of
writes_of-fire_alone c e = ap writes_of (sym (append-nil (fire c e))) ∙ writes_of-fire c e []

writes_of-read_failed :
    (code : ErrorCode) (bytes : ℕ) (c : Connection) → writes_of (read_failed code bytes c) ≡ []
writes_of-read_failed eof bytes c = writes_of-fire_alone c on_disconnected
writes_of-read_failed connection_reset bytes c = writes_of-fire_alone c on_disconnected
writes_of-read_failed (other n) bytes c = writes_of-fire_alone c (on_read_error (other n) bytes)

handle_read-Spares :
    (b : Splitter) (error : Option ErrorCode) (bytes : ℕ) (c d : Connection) (es : List Effect)
    → handle_read b error bytes c ≡ ok (d, es)
    → Spares c d es
unfolding handle_read writes_of
handle_read-Spares b (some code) bytes c d es run =
    ground (arith, writes_of-read_failed code bytes c)
handle_read-Spares b none bytes c d es run =
    let ((messages, part), _, rest) =
      bind_inversion (read_bytes b c.part_message c.message) _ run in
    ground
      (arith, rest, writes_of-fire_all c (map on_read_message messages) (async_read_until ∷ []))

stop-Spares : (c d : Connection) (es : List Effect) → stop c ≡ ok (d, es) → Spares c d es
unfolding stop writes_of
stop-Spares c d es run = ground (arith, writes_of-fire c on_disconnected (post_close ∷ []))

close_task-Spares :
    (c d : Connection) (es : List Effect) → close_task c ≡ ok (d, es) → Spares c d es
unfolding close_task writes_of
close_task-Spares c d es run = ground arith

module _ (l : Link) (c : Connection) (es : List Effect) where
  sends-Inv :
      (msg f : List ℕ)
      → frame msg ≡ ok f
      → send msg l.conn ≡ ok (c, es)
      → Inv l
      → Inv (record l {
        conn = c;
        in_flight = l.in_flight ++ writes_of es;
        messages = l.messages ++ msg ∷ [];
        queued = l.queued ++ f ∷ [];
      })
  unfolding writes_of
  sends-Inv msg f e run v = elim v.writing [
    | idle s b n ↦
        let sent = send_idle msg f l.conn e s b in
        record {
          writing = busy f [] (ground (arith, sent)) (ground (arith, sent)) (ground (arith, sent));
          order = ground (arith, sent, v.order, append-nil l.completed);
        }
    | busy g rest s b n ↦
        let sent = send_busy msg f l.conn e s in
        record {
          writing =
              busy g (rest ++ f ∷ []) (ground (arith, sent)) (ground (arith, sent))
                (ground (arith, sent));
          order =
              ground (arith, sent, v.order, append_assoc l.completed l.conn.send_buffer (f ∷ []));
        }
  ]

  ends-Inv :
      (error : Option ErrorCode) (bytes : ℕ) (f : List ℕ) (rest : List (List ℕ))
      → l.in_flight ≡ f ∷ rest
      → handle_write error bytes l.conn ≡ ok (c, es)
      → Inv l
      → Inv (record l {
        conn = c;
        in_flight = rest ++ writes_of es;
        completed = l.completed ++ f ∷ [];
      })
  unfolding writes_of
  ends-Inv error bytes f rest n run v = elim v.writing [
    | idle s b m ↦ absurd (ground arith)
    | busy g [] s b m ↦
        let ended = handle_write_last error bytes g l.conn b in
        let none_asked = writes_of-failed error bytes l.conn [] in
        record {
          writing =
              idle (ground (arith, ended)) (ground (arith, ended))
                (ground (arith, ended, none_asked));
          order = ground (arith, ended, v.order, append_assoc l.completed (f ∷ []) c.send_buffer);
        }
    | busy g (h ∷ fs) s b m ↦
        let ended = handle_write_more error bytes g h fs l.conn b in
        let one_asked = writes_of-failed error bytes l.conn (async_write_some h ∷ []) in
        record {
          writing =
              busy h fs (ground (arith, ended)) (ground (arith, ended))
                (ground (arith, ended, one_asked));
          order = ground (arith, ended, v.order, append_assoc l.completed (f ∷ []) c.send_buffer);
        }
  ]

  reads-Inv :
      (b : Splitter) (error : Option ErrorCode) (bytes : ℕ)
      → handle_read b error bytes l.conn ≡ ok (c, es)
      → Inv l
      → Inv (record l { conn = c; in_flight = l.in_flight ++ writes_of es })
  reads-Inv b error bytes run v =
      spared-Inv l c es (handle_read-Spares b error bytes l.conn c es run) v

Step-Inv : {l m : Link} → Step l m → Inv l → Inv m
Step-Inv {l} (sends msg f e run) v = sends-Inv l _ _ msg f e run v
Step-Inv {l} (ends error bytes f rest n run) v = ends-Inv l _ _ error bytes f rest n run v
Step-Inv {l} (fills bytes) v = record {
  writing = elim v.writing [ idle s b n ↦ idle s b n | busy f rest s b n ↦ busy f rest s b n ];
  order = v.order;
}
Step-Inv {l} (reads b error bytes run) v = reads-Inv l _ _ b error bytes run v
Step-Inv {l} (stops run) v = spared-Inv l _ _ (stop-Spares l.conn _ _ run) v
Step-Inv {l} (closes run) v = spared-Inv l _ _ (close_task-Spares l.conn _ _ run) v

pub Reach-Inv : {l m : Link} → Inv l → Reach l m → Inv m
Reach-Inv v here = v
Reach-Inv v (next r st) = Step-Inv st (Reach-Inv v r)

-- A connection of `create` that has been started, with nothing asked for yet.
abbrev pub fresh_link : Connection → Link
fresh_link c = record { conn = c; in_flight = []; completed = []; messages = []; queued = [] }

pub fresh_link-Inv :
    (uuid : String) (c : Connection) (es : List Effect)
    → start (create uuid) ≡ ok (c, es)
    → Inv (fresh_link c)
unfolding start create
fresh_link-Inv uuid c es run = record {
  writing = idle (ground arith) (ground arith) refl;
  order = ground arith;
}

-- Whatever a started connection goes through, either no write is in flight and the frames whose
-- write has ended are all the frames that `send` has queued, or exactly one write is in flight, of
-- the front of the buffer, and the frames whose write has ended, followed by the buffer, are the
-- frames queued. In both cases each frame is there once and in the order of the calls.
pub one_write_in_order :
    (uuid : String) (c : Connection) (es : List Effect) (l : Link)
    → start (create uuid) ≡ ok (c, es)
    → Reach (fresh_link c) l
    → ((l.in_flight ≡ []) × (l.conn.send_buffer ≡ []) × (l.completed ≡ l.queued))
      ⊎ ((f : List ℕ) × (rest : List (List ℕ)) × (l.in_flight ≡ f ∷ [])
          × (l.conn.send_buffer ≡ f ∷ rest)
          × (l.completed ++ (f ∷ rest) ≡ l.queued))
one_write_in_order uuid c es l run r =
    let v = Reach-Inv (fresh_link-Inv uuid c es run) r in
    elim v.writing [
      | idle s b n ↦ inl (n, b, ground (arith, v.order, append-nil l.completed))
      | busy f rest s b n ↦ inr (f, rest, n, b, ap (λ k. l.completed ++ k) (sym b) ∙ v.order)
    ]
