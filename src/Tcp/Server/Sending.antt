-- ===== src/Tcp/Server/Sending.antt =====
-- `send` of the server to one connection.
use diginext.Base.{
  Bool-cases, inl, inr, subst, ℕ, ◌≡◌, ◌≢◌, refl, sym, ap, ◌∙◌, Bool, true, false, Option, some,
  List, [], ◌∷◌, ◌++◌, append_assoc, append-nil, ok, bind_step, ◌==◌, ne→eqb, arith, if◌then◌else◌,
}
use diginext.Tcp.Message.Stream.{IsSendable, frame-reference}
use diginext.Tcp.Connection.{Connection, async_write_some}
use diginext.Tcp.Connection.Writer.{with_frame, begun_write, first_of, send_lem, writes_of}
use diginext.Tcp.Connection.Writer.Flight.{
  with_queue, Moved, Moved-none, Moved-more, Moved-with_frame,
}
use diginext.Tcp.Channel.{frame_of}
use diginext.Tcp.Server
use diginext.Tcp.Server.{ServerEffect, of_connection, set_object, handle_effects, call}

-- The connection has been started.
abbrev pub IsStarted : Connection → Type 0
IsStarted c = (b : Bool) × (c.send_start ≡ some b)

-- The writes that the connection `p` asks for.
abbrev pub own_write : ℕ → ServerEffect → List (List ℕ)
own_write p (of_connection q (async_write_some f)) = if q == p then f ∷ [] else []
own_write p _ = []

unfoldable pub writes_at : ℕ → List ServerEffect → List (List ℕ)
writes_at p [] = []
writes_at p (e ∷ es) = own_write p e ++ writes_at p es

pub writes_at-append :
    (p : ℕ) (es fs : List ServerEffect) → writes_at p (es ++ fs) ≡ writes_at p es ++ writes_at p fs
unfolding writes_at
writes_at-append p [] fs = refl
writes_at-append p (e ∷ es) fs =
    ap (λ l. own_write p e ++ l) (writes_at-append p es fs)
    ∙ sym (append_assoc (own_write p e) (writes_at p es) (writes_at p fs))

-- The connection with the frames at the end of its buffer, all else but `send_start` as it was, and
-- the writes that this has begun.
pub record Grown (frames : List (List ℕ)) (c d : Connection) (begun : List (List ℕ)) : Type 0 where
  pub start : Option Bool
  pub same : d ≡ with_queue (c.send_buffer ++ frames) start c
  pub started : IsStarted c → IsStarted d
  pub moved : Moved frames c d begun

pub Grown-none : (c : Connection) → Grown [] c c []
Grown-none c = record {
  start = c.send_start;
  same = ap (λ l. with_queue l c.send_start c) (sym (append-nil c.send_buffer));
  started = λ h. h;
  moved = Moved-none c;
}

pub Grown-more :
    (xs ys : List (List ℕ)) (c d e : Connection) (first more : List (List ℕ))
    → Grown xs c d first
    → Grown ys d e more
    → Grown (xs ++ ys) c e (first ++ more)
Grown-more xs ys c d e first more g h = record {
  start = h.start;
  same =
      h.same
      ∙ ap (λ k. with_queue (k.send_buffer ++ ys) h.start k) g.same
      ∙ ap (λ l. with_queue l h.start c) (append_assoc c.send_buffer xs ys);
  started = λ k. h.started (g.started k);
  moved = Moved-more xs ys c d e first more g.moved h.moved;
}

-- What sending has done: the frames are at the end of the buffer of `p`, and nothing else has
-- changed.
pub record Sent (p : ℕ) (frames : List (List ℕ)) (s t : Server.Server) (es : List ServerEffect)
    : Type 0 where
  pub listed : t.connections ≡ s.connections
  pub queued : Grown frames (s.objects p) (t.objects p) (writes_at p es)
  pub others : (k : ℕ) → k ≢ p → (t.objects k ≡ s.objects k) × (writes_at k es ≡ [])

pub own_object : (p : ℕ) (c : Connection) (s : Server.Server) → (set_object p c s).objects p ≡ c
own_object p c s = rw (same p) refl
  where
    same : (k : ℕ) → (k == k) ≡ true
    same k = ground arith

begun_effects : ℕ → Bool → List (List ℕ) → List ℕ → List ServerEffect
begun_effects p true buffer f = []
begun_effects p false buffer f = of_connection p (async_write_some (first_of buffer f)) ∷ []

handle_effects-begun_write :
    (p : ℕ) (b : Bool) (buffer : List (List ℕ)) (f : List ℕ) (s : Server.Server)
    → handle_effects p (begun_write b buffer f) s ≡ ok (s, begun_effects p b buffer f)
unfolding handle_effects begun_write begun_effects
handle_effects-begun_write p true buffer f s = refl
handle_effects-begun_write p false buffer f s = refl

writes_at-begun :
    (p : ℕ) (b : Bool) (buffer : List (List ℕ)) (f : List ℕ)
    → writes_at p (begun_effects p b buffer f) ≡ writes_of (begun_write b buffer f)
unfolding writes_at begun_effects begun_write writes_of
writes_at-begun p true buffer f = refl
writes_at-begun p false buffer f = ground arith

writes_at-other :
    (p : ℕ) (b : Bool) (buffer : List (List ℕ)) (f : List ℕ) (k : ℕ)
    → k ≢ p
    → writes_at k (begun_effects p b buffer f) ≡ []
unfolding writes_at begun_effects
writes_at-other p true buffer f k n = refl
writes_at-other p false buffer f k n = rw (ne→eqb p k (λ e. n (sym e))) refl

pub send_one :
    (p : ℕ) (text : List ℕ) (s : Server.Server)
    → IsSendable text
    → IsStarted (s.objects p)
    → (t : Server.Server) × (es : List ServerEffect) × (Server.send p text s ≡ ok (t, es))
      × Sent p (frame_of text ∷ []) s t es
unfolding Server.send call
send_one p text s h (b, e) = (
  set_object p (with_frame (frame_of text) (s.objects p)) s,
  begun_effects p b (s.objects p).send_buffer (frame_of text),
  bind_step _ (send_lem text (frame_of text) (s.objects p) b (frame-reference text h) e)
      (handle_effects-begun_write p b (s.objects p).send_buffer (frame_of text) (set_object p c s)),
  record {
    listed = refl;
    queued = record {
      start = some true;
      same = own ∙ unfold with_frame in refl;
      started = λ h. (true, ap (λ c. c.send_start) own ∙ unfold with_frame in refl);
      moved =
          subst
            (λ d.
              Moved (frame_of text ∷ []) (s.objects p) d
                (writes_at p (begun_effects p b (s.objects p).send_buffer (frame_of text))))
            (sym own)
            (subst (Moved (frame_of text ∷ []) (s.objects p) c)
              (sym (writes_at-begun p b (s.objects p).send_buffer (frame_of text)))
              (Moved-with_frame (frame_of text) (s.objects p) b e));
    };
    others = λ k n.
        (rw (ne→eqb k p n) refl, writes_at-other p b (s.objects p).send_buffer (frame_of text) k n);
  },
)
  where
    c : Connection
    c = with_frame (frame_of text) (s.objects p)

    own : (set_object p c s).objects p ≡ c
    own = own_object p c s

pub Sent-IsStarted :
    (p : ℕ) (frames : List (List ℕ)) (s t : Server.Server) (es : List ServerEffect) (k : ℕ)
    → Sent p frames s t es
    → IsStarted (s.objects k)
    → IsStarted (t.objects k)
Sent-IsStarted p frames s t es k sent started = elim (Bool-cases (k == p)) [
  | inl e ↦
      subst (λ j. IsStarted (s.objects j) → IsStarted (t.objects j)) (ground (arith, e))
        sent.queued.started started
  | inr e ↦ subst IsStarted (sym (sent.others k (ground (arith, e))).0) started
]

pub Grown-other :
    (p q : ℕ) (frames : List (List ℕ)) (s t : Server.Server) (es : List ServerEffect)
    → Sent q frames s t es
    → p ≢ q
    → Grown [] (s.objects p) (t.objects p) (writes_at p es)
Grown-other p q frames s t es sent n =
    subst (Grown [] (s.objects p) (t.objects p)) (sym (sent.others p n).1) (
      subst (λ c. Grown [] (s.objects p) c []) (sym (sent.others p n).0) (Grown-none (s.objects p)))
