-- ===== src/Tcp/Server/Lifetime/Accepts.antt =====
-- A connection that is accepted is held by its read.
use diginext.Base.{
  ℕ, ◌≡◌, ◌≢◌, refl, sym, ap, ◌∙◌, inl, inr, Bool-cases, true, false, Option, none, some, String,
  List, [], ◌∷◌, ◌++◌, ok, ok_injective, ne→eqb, subst, ◌==◌, arith,
}
use mathlib.Core.List.{Memᴰ}
use mathlib.Core.List.Memᴰ
use diginext.Tcp.Connection.{ErrorCode, disconnected, async_read_until}
use diginext.Tcp.Server.{
  Server, ServerEffect, of_connection, calls, on_accepted, async_accept, handle_accept,
}
use diginext.Tcp.Server.Acceptance.{accepted, taken, failed_accept, handle_accept_lem, same_true}
use diginext.Tcp.Server.Lifetime.{reading, closing, Io, asked}
use diginext.Tcp.Server.Lifetime.Held.{Held}

asked-accept :
    (p : ℕ) (error : Option ErrorCode) (q : ℕ)
    → asked (
        failed_accept p error
        ++ (of_connection p async_read_until ∷ calls (on_accepted p) ∷ async_accept q ∷ []))
      ≡ (p, reading) ∷ []
unfolding asked failed_accept
asked-accept p none q = refl
asked-accept p (some code) q = refl

module _ (io : Io) (h : Held io) (p : ℕ) (q : ℕ) (uuid : String)
    (quiet : ¬ Memᴰ (p, closing) io.pending) (new : q ≢ p)
    (away : ¬ Memᴰ q io.server.connections) where
  abbrev after : Server
  after = accepted p q uuid io.server

  own_slot : (after.objects p).slots disconnected ≡ true
  unfolding accepted taken
  own_slot = rw (ne→eqb p q (λ e. new (sym e)), same_true p) refl

  kept_slot :
      (k : ℕ)
      → Memᴰ k io.server.connections
      → (io.server.objects k).slots disconnected ≡ true
      → (after.objects k).slots disconnected ≡ true
  unfolding accepted taken
  kept_slot k m e = elim (Bool-cases (k == p)) [
    | inl y ↦ rw (other, y) refl
    | inr n ↦ rw (other, n) e
  ]
    where
      other : (k == q) ≡ false
      other = ne→eqb k q (λ s. away (subst (λ j. Memᴰ j io.server.connections) s m))

  Held-accepted : Held (record { server = after; pending = io.pending ++ (p, reading) ∷ [] })
  unfolding accepted
  Held-accepted = record {
    listed = λ k m. elim (Memᴰ.append_cases io.server.connections m) [
      | inl l ↦
          let (reads, watched) = h.listed k l in
          (Memᴰ.append_left ((p, reading) ∷ []) reads, kept_slot k l watched)
      | inr r ↦
          let same : k ≡ p = Memᴰ.eq_of_singleton r in
          (
            Memᴰ.append_right io.pending (Memᴰ.head (ap (λ j. (j, reading)) same)),
            ap (λ j. (after.objects j).slots disconnected) same ∙ own_slot,
          )
    ];
    to_close = λ k m. elim (Memᴰ.append_cases io.pending m) [
      | inl l ↦
          let (reads, gone) = h.to_close k l in
          (
            Memᴰ.append_left ((p, reading) ∷ []) reads,
            λ x. elim (Memᴰ.append_cases io.server.connections x) [
              | inl y ↦ gone y
              | inr y ↦ quiet (subst (λ j. Memᴰ (j, closing) io.pending) (Memᴰ.eq_of_singleton y) l)
            ],
          )
      | inr r ↦ absurd (ground (arith, ap (λ o. o.1) (Memᴰ.eq_of_singleton r)))
    ];
  }

pub Held-accept :
    (io : Io) (h : Held io) (p : ℕ) (error : Option ErrorCode) (q : ℕ) (uuid : String) (s : Server)
    (es : List ServerEffect)
    → ¬ Memᴰ (p, closing) io.pending
    → q ≢ p
    → ¬ Memᴰ q io.server.connections
    → handle_accept p error q uuid io.server ≡ ok (s, es)
    → Held (record { server = s; pending = io.pending ++ asked es })
Held-accept io h p error q uuid s es quiet new away run =
    subst
      (λ (r : Server × List ServerEffect).
        Held (record { server = r.0; pending = io.pending ++ asked r.1 }))
      (ok_injective _ (s, es) (sym (handle_accept_lem p error q uuid io.server) ∙ run))
      (subst
        (λ l. Held (record { server = accepted p q uuid io.server; pending = io.pending ++ l }))
        (sym (asked-accept p error q)) (Held-accepted io h p q uuid quiet new away))
