-- ===== src/Tcp/Server/Lifetime/Ends.antt =====
-- The steps by which a connection leaves the list keep what holds the others.
use diginext.Base.{
  ℕ, ◌≡◌, refl, sym, ap, ◌∙◌, inl, inr, Bool-cases, Option-cases, true, false, some, List, [], ◌∷◌,
  ◌++◌, append-nil, ok, ok_injective, arith, subst, eqb, eqb_refl, ◌==◌,
}
use mathlib.Core.List.{Memᴰ}
use mathlib.Core.List.Memᴰ
use diginext.Tcp.Message.{Splitter}
use diginext.Tcp.Connection.{
  Connection, ErrorCode, disconnected, fire, on_disconnected, post_close, handle_read, read_failed,
}
use diginext.Tcp.Server.{
  Server, ServerEffect, calls, of_connection, on_client_disconnected, has_uuid, find_uuid,
  handle_effects, call, disconnect_by_uuid,
}
use diginext.Tcp.Server.Lookup.{kept_by_set, same_pointer, set_object_self, find_uuid-has_uuid}
use diginext.Tcp.Server.Disconnection.{cleared, disconnect_found}
use diginext.Tcp.Server.Lifetime.{Operation, reading, closing, Io, asked, with_bytes}
use diginext.Tcp.Server.Lifetime.Held.{Held, other_than, one_more}
use diginext.Tcp.Server.Lifetime.Gone.{in_list, apart, hang_up, Gone, Gone-cleared}

module _ (b : Splitter) (io : Io) (h : Held io) where
  -- The connection has gone from the list, and no read of it is pending.
  Held-Gone :
      (p : ℕ) (s t : Server) (fs : List ServerEffect) (before after : List (ℕ × Operation))
      → io.pending ≡ before ++ (p, reading) ∷ after
      → ¬ Memᴰ (p, closing) io.pending
      → s.connections ≡ io.server.connections
      → ((k : ℕ) → (s.objects k).slots ≡ (io.server.objects k).slots)
      → asked fs ≡ []
      → Gone p s t
      → Held (record { server = t; pending = (before ++ after) ++ asked fs })
  Held-Gone p s t fs before after e calm conns slots none_asked g =
      subst (λ l. Held (record { server = t; pending = l })) (sym rest)
        (record {
          listed = λ k m.
              let (reads_k, watched) = h.listed k (subst (Memᴰ k) conns (g.fewer k m)) in
              let away : (k == p) ≡ false = apart p k t.connections m g.absent in
              (
                still k away reads_k,
                ap (λ c. c.slots disconnected) (g.others k away)
                    ∙ ap (λ f. f disconnected) (slots k)
                    ∙ watched,
              );
          to_close = λ k m.
              let closing_k : Memᴰ (k, closing) io.pending =
                subst (Memᴰ (k, closing)) (sym e) (one_more (p, reading) before after m) in
              let (reads_k, gone_k) = h.to_close k closing_k in
              (
                still k (not_calm k closing_k) reads_k,
                λ l. gone_k (subst (Memᴰ k) conns (g.fewer k l)),
              );
        })
    where
      rest : (before ++ after) ++ asked fs ≡ before ++ after
      rest = ap (λ l. (before ++ after) ++ l) none_asked ∙ append-nil (before ++ after)

      still :
          (k : ℕ)
          → (k == p) ≡ false
          → Memᴰ (k, reading) io.pending
          → Memᴰ (k, reading) (before ++ after)
      still k n m =
          other_than before after (λ q. absurd (ground (arith, n, ap (λ o. o.0) q)))
            (subst (Memᴰ (k, reading)) e m)

      not_calm : (k : ℕ) → Memᴰ (k, closing) io.pending → (k == p) ≡ false
      not_calm k m = elim (Bool-cases (k == p)) [
        | inl y ↦ absurd (calm (subst (λ j. Memᴰ (j, closing) io.pending) (same_pointer k p y) m))
        | inr n ↦ n
      ]

  pub Held-hung_up :
      (p n : ℕ) (code : ErrorCode) (chunk : List ℕ) (t : Server) (fs : List ServerEffect)
      (before after : List (ℕ × Operation))
      → ((c : Connection) → read_failed code n c ≡ fire c on_disconnected)
      → io.pending ≡ before ++ (p, reading) ∷ after
      → ¬ Memᴰ (p, closing) io.pending
      → call p (handle_read b (some code) n) (with_bytes p chunk io.server) ≡ ok (t, fs)
      → Held (record { server = t; pending = (before ++ after) ++ asked fs })
  unfolding call handle_read
  Held-hung_up p n code chunk t fs before after ends e calm run =
      let s : Server = with_bytes p chunk io.server in
      let (u, gs, done, none_asked, gone) = hang_up p s (λ m.
        ap (λ f. f disconnected) (kept_by_set (λ c. c.slots) io.server p _ refl p)
        ∙ (h.listed p m).1) in
      let same : ◌≡◌ {A = Server × List ServerEffect} (u, gs) (t, fs) =
        ok_injective (u, gs) (t, fs)
          (sym done
            ∙ ap (λ l. handle_effects p l s) (sym (ends (s.objects p)))
            ∙ ap (handle_effects p (read_failed code n (s.objects p))) (sym (set_object_self p s))
            ∙ run) in
      subst
        (λ (r : Server × List ServerEffect).
          Held (record { server = r.0; pending = (before ++ after) ++ asked r.1 }))
        same
        (Held-Gone p s u gs before after e calm refl
          (λ k. kept_by_set (λ c. c.slots) io.server p _ refl k) none_asked gone)

  Held-cleared :
      (q : ℕ) (uuid : List ℕ)
      → find_uuid io.server.objects uuid io.server.connections ≡ some q
      → Held
          (record { server = cleared q uuid io.server; pending = io.pending ++ (q, closing) ∷ [] })
  unfolding has_uuid
  Held-cleared q uuid f =
      let gone : Gone q io.server (cleared q uuid io.server) = Gone-cleared q uuid io.server (
        ap (λ u. eqb u uuid) (find_uuid-has_uuid io.server.objects uuid io.server.connections q f)
        ∙ eqb_refl uuid) in
      record {
        listed = λ k m.
            let (reads, watched) = h.listed k (gone.fewer k m) in
            (
              Memᴰ.append_left ((q, closing) ∷ []) reads,
              ap (λ c. c.slots disconnected)
                    (gone.others k (apart q k (cleared q uuid io.server).connections m gone.absent))
                  ∙ watched,
            );
        to_close = λ k m. elim (Memᴰ.append_cases io.pending m) [
          | inl l ↦
              let (reads, away) = h.to_close k l in
              (Memᴰ.append_left ((q, closing) ∷ []) reads, λ x. away (gone.fewer k x))
          | inr r ↦
              subst
                (λ j.
                  Memᴰ (j, reading) (io.pending ++ (q, closing) ∷ [])
                  × ¬ Memᴰ j (cleared q uuid io.server).connections)
                (ap (λ o. o.0) (sym (Memᴰ.eq_of_singleton r)))
                (
                  Memᴰ.append_left ((q, closing) ∷ [])
                      (h.listed q (in_list io.server.objects uuid io.server.connections q f)).0,
                  gone.absent,
                )
        ];
      }

  pub Held-disconnect :
      (uuid : List ℕ) (t : Server) (fs : List ServerEffect)
      → disconnect_by_uuid uuid io.server ≡ ok (t, fs)
      → Held (record { server = t; pending = io.pending ++ asked fs })
  unfolding disconnect_by_uuid asked
  Held-disconnect uuid t fs run =
      elim (Option-cases (find_uuid io.server.objects uuid io.server.connections)) [
        | inl n ↦
            let same : ◌≡◌ {A = Server × List ServerEffect} (io.server, []) (t, fs) =
              ground (arith, run, n) in
            subst
              (λ (r : Server × List ServerEffect).
                Held (record { server = r.0; pending = io.pending ++ asked r.1 }))
              same (rw (append-nil io.pending) h)
        | inr (q, f) ↦
            let watched : (io.server.objects q).slots disconnected ≡ true =
              (h.listed q (in_list io.server.objects uuid io.server.connections q f)).1 in
            let same : ◌≡◌ {A = Server × List ServerEffect}
                (
                  cleared q uuid io.server,
                  calls (on_client_disconnected q) ∷ of_connection q post_close ∷ [],
                )
                (t, fs) =
              ok_injective _ (t, fs)
                (sym (disconnect_found q uuid io.server f watched) ∙ ground (arith, run, f)) in
            subst
              (λ (r : Server × List ServerEffect).
                Held (record { server = r.0; pending = io.pending ++ asked r.1 }))
              same (Held-cleared q uuid f)
      ]
