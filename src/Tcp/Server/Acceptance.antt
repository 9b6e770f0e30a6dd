-- ===== src/Tcp/Server/Acceptance.antt =====
-- `handle_accept`, after an error too.
use diginext.Base.{
  ℕ, ◌≡◌, ◌≢◌, refl, sym, ap, fun_ext, true, false, Bool-cases, inl, inr, Option, none, some,
  String, List, [], ◌∷◌, ◌++◌, All, All-append, ok, bind_step, ◌==◌, ne→eqb, arith,
}
use diginext.Tcp.Connection.{ErrorCode, Connection, disconnected, async_read_until, create}
use diginext.Tcp.Connection
use diginext.Tcp.Server.{
  Server, ServerEffect, Action, caught, calls, of_connection, async_accept, on_accepted,
  on_accept_error, set_object, with_slots, handle_effects, call, take_connection, start_accept,
  handle_accept,
}
use diginext.Tcp.Server.Disconnection.{IsWatched}

-- The signal of a failed accept.
unfoldable pub failed_accept : ℕ → Option ErrorCode → List ServerEffect
failed_accept p (some code) = calls (on_accept_error p code) ∷ []
failed_accept p none = []

-- `p` after `start`, with the server's slots.
unfoldable pub taken : ℕ → Server → Connection
taken p s = record (s.objects p) {
  slots = with_slots (s.objects p).slots;
  send_start = some false;
  part_message = [];
}

-- The server with `p` in the list.
unfoldable pub accepted : ℕ → ℕ → String → Server → Server
accepted p q uuid s =
    set_object q (create uuid)
      (record (set_object p (taken p s) s) { connections = s.connections ++ p ∷ [] })

pub same_true : (p : ℕ) → (p == p) ≡ true
same_true p = ground arith

set_twice :
    (p : ℕ) (c d : Connection) (s : Server) (k : ℕ)
    → (set_object p c (set_object p d s)).objects k ≡ (set_object p c s).objects k
set_twice p c d s k = elim (Bool-cases (k == p)) [ inl h ↦ rw h refl | inr h ↦ rw h refl ]

take_connection_lem :
    (p : ℕ) (s : Server)
    → take_connection p s
      ≡ ok (
        record (set_object p (taken p s) s) { connections = s.connections ++ p ∷ [] },
        of_connection p async_read_until ∷ calls (on_accepted p) ∷ [],
      )
unfolding take_connection call Connection.start taken handle_effects
take_connection_lem p s = rw (same_true p) (
    ap
      (λ o. ok (
        record s { objects = o; connections = s.connections ++ p ∷ [] },
        of_connection p async_read_until ∷ calls (on_accepted p) ∷ [],
      ))
      (fun_ext (set_twice p (taken p s) _ s)))

caught_ok :
    (m : Action) (s : Server) (r : Server × List ServerEffect) → m s ≡ ok r → caught m s ≡ ok r
caught_ok m s r e = ground (arith, e)

-- Whether or not there was an error, handle_accept puts the connection in the list, connects the
-- slots, starts to read, fires onAccepted and asks for the next connection; an error is told
-- before.
pub handle_accept_lem :
    (p : ℕ) (error : Option ErrorCode) (q : ℕ) (uuid : String) (s : Server)
    → handle_accept p error q uuid s
      ≡ ok (
        accepted p q uuid s,
        failed_accept p error
            ++ (of_connection p async_read_until ∷ calls (on_accepted p) ∷ async_accept q ∷ []),
      )
unfolding handle_accept start_accept accepted failed_accept
handle_accept_lem p none q uuid s =
    bind_step _ (caught_ok (take_connection p) s _ (take_connection_lem p s)) refl
handle_accept_lem p (some code) q uuid s =
    bind_step _ (caught_ok (take_connection p) s _ (take_connection_lem p s)) refl

-- After handle_accept, with or without an error, the server has its slot for onDisconnected on
-- every connection in its list, if that held before and the next connection is a new object.
pub handle_accept-IsWatched :
    (p : ℕ) (error : Option ErrorCode) (q : ℕ) (uuid : String) (s : Server)
    → q ≢ p
    → All (λ k. k ≢ q) s.connections
    → IsWatched s
    → (t : Server) × (es : List ServerEffect) × (handle_accept p error q uuid s ≡ ok (t, es))
      × IsWatched t
unfolding accepted taken
handle_accept-IsWatched p error q uuid s new others w = (
  accepted p q uuid s,
  failed_accept p error
      ++ (of_connection p async_read_until ∷ calls (on_accepted p) ∷ async_accept q ∷ []),
  handle_accept_lem p error q uuid s,
  All-append _ s.connections (p ∷ []) (each s.connections others w) (own, tt),
)
  where
    own : ((accepted p q uuid s).objects p).slots disconnected ≡ true
    own = rw (ne→eqb p q (λ e. new (sym e)), same_true p) refl

    one :
        (k : ℕ)
        → k ≢ q
        → (s.objects k).slots disconnected ≡ true
        → ((accepted p q uuid s).objects k).slots disconnected ≡ true
    one k n e = elim (Bool-cases (k == p)) [
      | inl h ↦ rw (ne→eqb k q n, h) refl
      | inr h ↦ rw (ne→eqb k q n, h) e
    ]

    each :
        (l : List ℕ)
        → All (λ k. k ≢ q) l
        → All (λ k. (s.objects k).slots disconnected ≡ true) l
        → All (λ k. ((accepted p q uuid s).objects k).slots disconnected ≡ true) l
    each [] n e = tt
    each (k ∷ ks) n e = (one k n.0 e.0, each ks n.1 e.1)
