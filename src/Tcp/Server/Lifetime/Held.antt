-- ===== src/Tcp/Server/Lifetime/Held.antt =====
-- The steps that leave every connection in the list keep what holds it.
use diginext.Base.{
  ℕ, ◌≡◌, ◌≢◌, refl, sym, ap, ◌∙◌, inl, inr, Bool-cases, true, false, Option, none, List, [], ◌∷◌,
  ◌++◌, length, ok, bind_inversion, arith, subst, ◌==◌,
}
use mathlib.Core.List.{Memᴰ}
use mathlib.Core.List.Memᴰ
use diginext.Tcp.Message.{Splitter}
use diginext.Tcp.Connection.{
  Connection, Handler, close_task, Effect, ErrorCode, disconnected, handle_read, handle_write, send,
  async_read_until,
}
use diginext.Tcp.Connection.Quiet.{
  close_task-IsQuiet, handle_read-Leaves, handle_write-Leaves, send-Leaves,
}
use diginext.Tcp.Server.{Server, ServerEffect, set_object, call}
use diginext.Tcp.Server.Lookup.{kept_by_set, same_pointer}
use diginext.Tcp.Server.Lifetime.{Operation, reading, writing, closing, Io, asked, with_bytes}
use diginext.Tcp.Server.Lifetime.Quiet.{operations, operations-append, call-IsQuiet, not_closing}

-- A connection in the list has the server's slot, and a read of it is pending; so is one of each
-- connection whose task of `stop` is still to run, and that one is not in the list.
pub record Held (io : Io) : Type 0 where
  pub listed :
      (k : ℕ)
      → Memᴰ k io.server.connections
      → Memᴰ (k, reading) io.pending × ((io.server.objects k).slots disconnected ≡ true)
  pub to_close :
      (k : ℕ)
      → Memᴰ (k, closing) io.pending
      → Memᴰ (k, reading) io.pending × ¬ Memᴰ k io.server.connections

pub other_than :
    {o x : ℕ × Operation} (before after : List (ℕ × Operation))
    → o ≢ x
    → Memᴰ o (before ++ x ∷ after)
    → Memᴰ o (before ++ after)
other_than before after n m = elim (Memᴰ.append_cases before m) [
  | inl l ↦ Memᴰ.append_left after l
  | inr r ↦ elim (Memᴰ.cases_cons r) [ inl e ↦ absurd (n e) | inr l ↦ Memᴰ.append_right before l ]
]

pub one_more :
    {o : ℕ × Operation} (x : ℕ × Operation) (before after : List (ℕ × Operation))
    → Memᴰ o (before ++ after)
    → Memᴰ o (before ++ x ∷ after)
one_more x before after m = elim (Memᴰ.append_cases before m) [
  | inl l ↦ Memᴰ.append_left (x ∷ after) l
  | inr r ↦ Memᴰ.append_right before (Memᴰ.tail r)
]

call-run :
    (p : ℕ) (h : Handler) (s t : Server) (fs : List ServerEffect)
    → call p h s ≡ ok (t, fs)
    → (d : Connection) × (es : List Effect) × (h (s.objects p) ≡ ok (d, es))
unfolding call
call-run p h s t fs e =
    let ((d, es), done, rest) = bind_inversion (h (s.objects p)) _ e in (d, es, done)

-- A handler that changes one object in what does not concern its slots.
Held-quiet :
    (io : Io) (p : ℕ) (s t : Server) (d : Connection) (pending : List (ℕ × Operation))
    → Held io
    → s.connections ≡ io.server.connections
    → ((k : ℕ) → (s.objects k).slots ≡ (io.server.objects k).slots)
    → t ≡ set_object p d s
    → d.slots ≡ (s.objects p).slots
    → ((k : ℕ) → Memᴰ (k, reading) io.pending → Memᴰ (k, reading) pending)
    → ((k : ℕ) → Memᴰ (k, closing) pending → Memᴰ (k, closing) io.pending)
    → Held (record { server = t; pending = pending })
Held-quiet io p s t d pending h conns earlier same slots reads ends =
    subst (λ u. Held (record { server = u; pending = pending })) (sym same)
      (record {
        listed = λ k m.
            let (reads_k, watched) = h.listed k (subst (Memᴰ k) conns m) in
            (
              reads k reads_k,
              ap (λ f. f disconnected) (kept_by_set (λ c. c.slots) s p d slots k ∙ earlier k)
                  ∙ watched,
            );
        to_close = λ k m.
            let (reads_k, gone) = h.to_close k (ends k m) in
            (reads k reads_k, λ l. gone (subst (Memᴰ k) conns l));
      })

module _ (b : Splitter) (io : Io) (h : Held io) (p : ℕ) (before after : List (ℕ × Operation)) where
  pub Held-write_ends :
      (error : Option ErrorCode) (bytes : ℕ) (t : Server) (fs : List ServerEffect)
      → io.pending ≡ before ++ (p, writing) ∷ after
      → call p (handle_write error bytes) io.server ≡ ok (t, fs)
      → Held (record { server = t; pending = (before ++ after) ++ asked fs })
  Held-write_ends error bytes t fs e run =
      let (d, es, done, (slots, quiet)) = handle_write-Leaves error bytes (io.server.objects p) in
      let (same, asks) =
        call-IsQuiet p (handle_write error bytes) io.server t fs d es done quiet run in
      Held-quiet io p io.server t d _ h refl (λ k. refl) same slots
        (λ k m. Memᴰ.append_left (asked fs) (
          other_than before after (λ q. absurd (ground (arith, ap (λ o. o.1) q)))
            (subst (Memᴰ (k, reading)) e m)))
        (λ k m. elim (Memᴰ.append_cases (before ++ after) m) [
          | inl l ↦ subst (Memᴰ (k, closing)) (sym e) (one_more (p, writing) before after l)
          | inr r ↦ absurd (not_closing k p es quiet (subst (Memᴰ (k, closing)) asks r))
        ])

  pub Held-read :
      (chunk : List ℕ) (t : Server) (fs : List ServerEffect)
      → io.pending ≡ before ++ (p, reading) ∷ after
      → call p (handle_read b none (length chunk)) (with_bytes p chunk io.server) ≡ ok (t, fs)
      → Held (record { server = t; pending = (before ++ after) ++ asked fs })
  Held-read chunk t fs e run =
      let (d, es, done) = call-run p (handle_read b none (length chunk)) _ t fs run in
      let ((slots, quiet), (first, again)) = handle_read-Leaves b (length chunk) _ d es done in
      let (same, asks) =
        call-IsQuiet p (handle_read b none (length chunk)) _ t fs d es done quiet run in
      Held-quiet io p (with_bytes p chunk io.server) t d _ h refl
        (λ k. kept_by_set (λ c. c.slots) io.server p _ refl k) same slots
        (λ k m. elim (Bool-cases (k == p)) [
          | inl y ↦
              subst (λ j. Memᴰ (j, reading) ((before ++ after) ++ asked fs))
                (sym (same_pointer k p y))
                (Memᴰ.append_right (before ++ after) (reads_again es first fs asks again))
          | inr n ↦ Memᴰ.append_left (asked fs) (
              other_than before after (λ q. absurd (ground (arith, n, ap (λ o. o.0) q)))
                (subst (Memᴰ (k, reading)) e m))
        ])
        (λ k m. elim (Memᴰ.append_cases (before ++ after) m) [
          | inl l ↦ subst (Memᴰ (k, closing)) (sym e) (one_more (p, reading) before after l)
          | inr r ↦ absurd (not_closing k p es quiet (subst (Memᴰ (k, closing)) asks r))
        ])
    where
      reads_again :
          (es first : List Effect) (fs : List ServerEffect)
          → asked fs ≡ operations p es
          → es ≡ first ++ async_read_until ∷ []
          → Memᴰ (p, reading) (asked fs)
      reads_again es first fs asks again =
          subst (Memᴰ (p, reading))
            (sym
              (asks ∙ ap (operations p) again ∙ operations-append p first (async_read_until ∷ [])))
            (Memᴰ.append_right (operations p first) (unfold operations in Memᴰ.head refl))

  pub Held-close :
      (t : Server) (fs : List ServerEffect)
      → io.pending ≡ before ++ (p, closing) ∷ after
      → call p close_task io.server ≡ ok (t, fs)
      → Held (record { server = t; pending = (before ++ after) ++ asked fs })
  Held-close t fs e run =
      let (d, es, done, quiet) = close_task-IsQuiet (io.server.objects p) in
      let (same, asks) = call-IsQuiet p close_task io.server t fs d es done quiet run in
      let gone : ¬ Memᴰ p io.server.connections =
        (h.to_close p
          (subst (Memᴰ (p, closing)) (sym e) (Memᴰ.append_right before (Memᴰ.head refl)))).1 in
      subst (λ u. Held (record { server = u; pending = (before ++ after) ++ asked fs })) (sym same)
        (record {
          listed = λ k m.
              let (reads_k, watched) = h.listed k m in
              (still k reads_k fs e, rw (not_same k m gone) watched);
          to_close = λ k m.
              let (reads_k, gone_k) = h.to_close k (elim (Memᴰ.append_cases (before ++ after) m) [
                | inl l ↦ subst (Memᴰ (k, closing)) (sym e) (one_more (p, closing) before after l)
                | inr r ↦ absurd (not_closing k p es quiet (subst (Memᴰ (k, closing)) asks r))
              ]) in
              (still k reads_k fs e, gone_k);
        })
    where
      still :
          (k : ℕ)
          → Memᴰ (k, reading) io.pending
          → (fs : List ServerEffect) → io.pending ≡ before ++ (p, closing) ∷ after
          → Memᴰ (k, reading) ((before ++ after) ++ asked fs)
      still k m fs e = Memᴰ.append_left (asked fs) (
          other_than before after (λ q. absurd (ground (arith, ap (λ o. o.1) q)))
            (subst (Memᴰ (k, reading)) e m))

      not_same :
          (k : ℕ) → Memᴰ k io.server.connections → ¬ Memᴰ p io.server.connections → (k == p) ≡ false
      not_same k m gone = elim (Bool-cases (k == p)) [
        | inl y ↦ absurd (gone (subst (λ j. Memᴰ j io.server.connections) (same_pointer k p y) m))
        | inr n ↦ n
      ]

  pub Held-send :
      (msg : List ℕ) (t : Server) (fs : List ServerEffect)
      → call p (send msg) io.server ≡ ok (t, fs)
      → Held (record { server = t; pending = io.pending ++ asked fs })
  Held-send msg t fs run =
      let (d, es, done) = call-run p (send msg) io.server t fs run in
      let (slots, quiet) = send-Leaves msg (io.server.objects p) d es done in
      let (same, asks) = call-IsQuiet p (send msg) io.server t fs d es done quiet run in
      Held-quiet io p io.server t d _ h refl (λ k. refl) same slots
        (λ k m. Memᴰ.append_left (asked fs) m)
        (λ k m. elim (Memᴰ.append_cases io.pending m) [
          | inl l ↦ l
          | inr r ↦ absurd (not_closing k p es quiet (subst (Memᴰ (k, closing)) asks r))
        ])
