-- ===== src/Tcp/Connection/Writer.antt =====
-- The write queue of `tcp_connection`: what `send`, `async_write` and `handle_write` do to
-- `sendBuffer`, `sendStart` and the writes that boost::asio has been asked for.
pub mod Queue
pub mod Drain
pub mod Flight
use diginext.Base.{
  ℕ, zero, suc, ◌+◌, ◌≤◌, ◌≡◌, refl, sym, ap, ◌∙◌, ◌⊎◌, inl, inr, Bool, true, false, Option, none,
  some, List, [], ◌∷◌, ◌++◌, append_assoc, append-nil, length, map, Outcome, ok, undefined, ◌>>=◌,
  bind_step, arith, if◌then◌else◌, Bool-cases,
}
use diginext.Tcp.Message.{Splitter, frame, read_bytes}
use diginext.Tcp.Connection.{
  Connection, ErrorCode, Event, Effect, async_write_some, fires, async_read_until, signal_of,
  on_send_error, fire, fire_all, start, handle_read, async_write, handle_write, send, push_frame,
  stop, close_task, write_front,
}

-- The writes among some effects.
unfoldable pub writes_of : List Effect → List (List ℕ)
writes_of [] = []
writes_of (async_write_some f ∷ es) = f ∷ writes_of es
writes_of (e ∷ es) = writes_of es

-- A connection, the writes asked for that have not ended, those that have, the messages given to
-- `send`, and the frames that it has queued, each in order.
pub record Link : Type 0 where
  pub conn : Connection
  pub in_flight : List (List ℕ)
  pub completed : List (List ℕ)
  pub messages : List (List ℕ)
  pub queued : List (List ℕ)

-- What can happen to a connection that has been started: a call of `send`, the end of the oldest
-- write, bytes for the `streambuf`, the end of a read, `stop`, and the task that it posts.
pub data Step (l : Link) : Link → Type 0 where
  sends :
      {c : Connection} {es : List Effect} (msg f : List ℕ)
      → frame msg ≡ ok f
      → send msg l.conn ≡ ok (c, es)
      → Step l (record l {
        conn = c;
        in_flight = l.in_flight ++ writes_of es;
        messages = l.messages ++ msg ∷ [];
        queued = l.queued ++ f ∷ [];
      })
  ends :
      {c : Connection} {es : List Effect} (error : Option ErrorCode) (bytes : ℕ) (f : List ℕ)
      (rest : List (List ℕ))
      → l.in_flight ≡ f ∷ rest
      → handle_write error bytes l.conn ≡ ok (c, es)
      → Step l (record l {
        conn = c;
        in_flight = rest ++ writes_of es;
        completed = l.completed ++ f ∷ [];
      })
  fills : (bytes : List ℕ) → Step l (record l { conn = record (l.conn) { message = bytes } })
  reads :
      {c : Connection} {es : List Effect} (b : Splitter) (error : Option ErrorCode) (bytes : ℕ)
      → handle_read b error bytes l.conn ≡ ok (c, es)
      → Step l (record l { conn = c; in_flight = l.in_flight ++ writes_of es })
  stops :
      {c : Connection} {es : List Effect}
      → stop l.conn ≡ ok (c, es)
      → Step l (record l { conn = c; in_flight = l.in_flight ++ writes_of es })
  closes :
      {c : Connection} {es : List Effect}
      → close_task l.conn ≡ ok (c, es)
      → Step l (record l { conn = c; in_flight = l.in_flight ++ writes_of es })

pub data Reach (l : Link) : Link → Type 0 where
  here : Reach l l
  next : {m n : Link} → Reach l m → Step m n → Reach l n

pub send_idle :
    (msg f : List ℕ) (c : Connection)
    → frame msg ≡ ok f
    → c.send_start ≡ some false
    → c.send_buffer ≡ []
    → send msg c
      ≡ ok (record c { send_buffer = f ∷ []; send_start = some true }, async_write_some f ∷ [])
unfolding send async_write write_front
send_idle msg f c e s b = ground arith

pub send_busy :
    (msg f : List ℕ) (c : Connection)
    → frame msg ≡ ok f
    → c.send_start ≡ some true
    → send msg c ≡ ok (record c { send_buffer = c.send_buffer ++ f ∷ [] }, [])
unfolding send async_write
send_busy msg f c e s = ground arith

-- A connection that has been created and not started.
pub send_unstarted :
    (msg f : List ℕ) (c : Connection)
    → frame msg ≡ ok f
    → c.send_start ≡ none
    → send msg c ≡ undefined
unfolding send async_write
send_unstarted msg f c e s = ground arith

unfoldable pub failed : Option ErrorCode → ℕ → Connection → List Effect
failed (some code) bytes c = fire c (on_send_error code bytes)
failed none bytes c = []

pub handle_write_last :
    (error : Option ErrorCode) (bytes : ℕ) (f : List ℕ) (c : Connection)
    → c.send_buffer ≡ f ∷ []
    → handle_write error bytes c
      ≡ ok (record c { send_buffer = []; send_start = some false }, failed error bytes c ++ [])
unfolding handle_write async_write write_front failed
handle_write_last (some code) bytes f c b = ground arith
handle_write_last none bytes f c b = ground arith

pub handle_write_more :
    (error : Option ErrorCode) (bytes : ℕ) (f g : List ℕ) (fs : List (List ℕ)) (c : Connection)
    → c.send_buffer ≡ f ∷ g ∷ fs
    → handle_write error bytes c
      ≡ ok (record c { send_buffer = g ∷ fs }, failed error bytes c ++ async_write_some g ∷ [])
unfolding handle_write async_write write_front failed
handle_write_more (some code) bytes f g fs c b = ground arith
handle_write_more none bytes f g fs c b = ground arith

pub writes_of-fire :
    (c : Connection) (e : Event) (es : List Effect) → writes_of (fire c e ++ es) ≡ writes_of es
unfolding writes_of
writes_of-fire c e es = elim (Bool-cases (c.slots (signal_of e))) [ inl p ↦ rw p | inr p ↦ rw p ]

pub writes_of-failed :
    (error : Option ErrorCode) (bytes : ℕ) (c : Connection) (es : List Effect)
    → writes_of (failed error bytes c ++ es) ≡ writes_of es
unfolding failed
writes_of-failed (some code) bytes c es = writes_of-fire c (on_send_error code bytes) es
writes_of-failed none bytes c es = refl

pub writes_of-fire_all :
    (c : Connection) (events : List Event) (es : List Effect)
    → writes_of (fire_all c events ++ es) ≡ writes_of es
writes_of-fire_all c [] es = refl
writes_of-fire_all c (e ∷ events) es =
    ap writes_of (append_assoc (fire c e) (fire_all c events) es)
    ∙ writes_of-fire c e (fire_all c events ++ es)
    ∙ writes_of-fire_all c events es

-- What `send` does to a started connection, whether or not a write is in flight.
unfoldable pub with_frame : List ℕ → Connection → Connection
with_frame f c = record c { send_buffer = c.send_buffer ++ f ∷ []; send_start = some true }

unfoldable pub first_of : List (List ℕ) → List ℕ → List ℕ
first_of [] f = f
first_of (g ∷ gs) f = g

unfoldable pub begun_write : Bool → List (List ℕ) → List ℕ → List Effect
unfolding first_of
begun_write true buffer f = []
begun_write false buffer f = async_write_some (first_of buffer f) ∷ []

write_front-append :
    (buffer : List (List ℕ)) (f : List ℕ) (c : Connection)
    → write_front (buffer ++ f ∷ []) c ≡ ok (c, async_write_some (first_of buffer f) ∷ [])
unfolding write_front first_of
write_front-append [] f c = refl
write_front-append (g ∷ gs) f c = refl

pub send_lem :
    (msg f : List ℕ) (c : Connection) (b : Bool)
    → frame msg ≡ ok f
    → c.send_start ≡ some b
    → send msg c ≡ ok (with_frame f c, begun_write b c.send_buffer f)
unfolding send async_write with_frame begun_write
send_lem msg f c true e s = ground (arith, e, s)
send_lem msg f c false e s = ground (
  arith,
  e,
  s,
  write_front-append c.send_buffer f
      (record c { send_buffer = c.send_buffer ++ f ∷ []; send_start = some true }),
)
