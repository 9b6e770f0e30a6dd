-- ===== src/Tcp/Server/Broadcast.antt =====
-- `sendAll`.
use diginext.Base.{
  ℕ, ◌≡◌, refl, sym, ◌∙◌, subst, Bool-cases, inl, inr, List, [], ◌∷◌, ◌++◌, All, ok, bind_step,
  if◌then◌else◌, ◌==◌, arith,
}
use diginext.Tcp.Message.Stream.{IsSendable}
use diginext.Tcp.Channel.{frame_of, frames_of}
use diginext.Tcp.Server.{Server, ServerEffect, caught, send, for_each, send_all}
use diginext.Tcp.Server.Sending.{
  IsStarted, Grown, Grown-none, Grown-more, Sent, Sent-IsStarted, send_one, Grown-other, writes_at,
  writes_at-append,
}

-- The message, once for each time that the connection is in the list.
unfoldable pub copies_to : ℕ → List ℕ → List ℕ → List (List ℕ)
copies_to p msg [] = []
copies_to p msg (q ∷ qs) = if q == p then msg ∷ copies_to p msg qs else copies_to p msg qs

module _ (msg : List ℕ) (h : IsSendable msg) where
  caught-send :
      (q : ℕ) (s : Server)
      → IsStarted (s.objects q)
      → (t : Server) × (es : List ServerEffect) × (caught (send q msg) s ≡ ok (t, es))
        × Sent q (frame_of msg ∷ []) s t es
  caught-send q s started =
      let (t, es, run, sent) = send_one q msg s h started in (t, es, rw (run, caught) refl, sent)

  Grown-copies_to :
      (p q : ℕ) (qs : List ℕ) (s t u : Server) (es : List ServerEffect) (begun : List (List ℕ))
      → Sent q (frame_of msg ∷ []) s t es
      → Grown (frames_of (copies_to p msg qs)) (t.objects p) (u.objects p) begun
      → Grown
          (frames_of (copies_to p msg (q ∷ qs)))
          (s.objects p)
          (u.objects p)
          (writes_at p es ++ begun)
  unfolding copies_to
  Grown-copies_to p q qs s t u es begun sent g = elim (Bool-cases (q == p)) [
    | inl e ↦ rw e (
        Grown-more (frame_of msg ∷ []) (frames_of (copies_to p msg qs)) (s.objects p) (t.objects p)
          (u.objects p) (writes_at p es) begun
          (subst (λ j. Grown (frame_of msg ∷ []) (s.objects j) (t.objects j) (writes_at j es))
            (ground (arith, e)) sent.queued)
          g)
    | inr e ↦ rw e (
        Grown-more [] (frames_of (copies_to p msg qs)) (s.objects p) (t.objects p) (u.objects p)
          (writes_at p es) begun
          (Grown-other p q (frame_of msg ∷ []) s t es sent (ground (arith, e))) g)
  ]

  still_started :
      (q : ℕ) (s t : Server) (es : List ServerEffect) (qs : List ℕ)
      → Sent q (frame_of msg ∷ []) s t es
      → All (λ p. IsStarted (s.objects p)) qs
      → All (λ p. IsStarted (t.objects p)) qs
  still_started q s t es [] sent k = tt
  still_started q s t es (p ∷ qs) sent k =
      (Sent-IsStarted q (frame_of msg ∷ []) s t es p sent k.0, still_started q s t es qs sent k.1)

  send_each :
      (qs : List ℕ) (s : Server)
      → All (λ p. IsStarted (s.objects p)) qs
      → (t : Server) × (es : List ServerEffect) × (for_each (λ p. caught (send p msg)) qs s
          ≡ ok (t, es))
        × (t.connections ≡ s.connections)
        × ((p : ℕ)
            → Grown (frames_of (copies_to p msg qs)) (s.objects p) (t.objects p) (writes_at p es))
  unfolding for_each copies_to writes_at
  send_each [] s started = (s, [], refl, refl, λ p. Grown-none (s.objects p))
  send_each (q ∷ qs) s started =
      let (t, es, run, sent) = caught-send q s started.0 in
      let (u, fs, rest, listed, grown) =
        send_each qs t (still_started q s t es qs sent started.1) in
      (
        u,
        es ++ fs,
        bind_step _ run (bind_step _ rest refl),
        listed ∙ sent.listed,
        λ p.
            subst (Grown (frames_of (copies_to p msg (q ∷ qs))) (s.objects p) (u.objects p))
              (sym (writes_at-append p es fs))
              (Grown-copies_to p q qs s t u es (writes_at p fs) sent (grown p)),
      )

  -- sendAll of a message that fits a frame, on a server whose connections are all started, returns.
  -- It puts the message's frame behind the buffer of each connection once for each time that the
  -- connection is in the list, changes nothing else of it but send_start, begins a write where none
  -- is in flight, and leaves the list as it was.
  pub send_all-copies_to :
      (s : Server)
      → All (λ p. IsStarted (s.objects p)) s.connections
      → (t : Server) × (es : List ServerEffect) × (send_all msg s ≡ ok (t, es))
        × (t.connections ≡ s.connections)
        × ((p : ℕ)
            → Grown
                (frames_of (copies_to p msg s.connections))
                (s.objects p)
                (t.objects p)
                (writes_at p es))
  unfolding send_all
  send_all-copies_to s started = send_each s.connections s started
