-- ===== src/Tcp/Server/Lifetime/Dangles.antt =====
-- A connection that is destroyed before the task of its `stop` runs.
use diginext.Base.{
  ℕ, ◌≡◌, ◌≢◌, refl, sym, ap, ◌∙◌, inl, inr, Bool-cases, eqb, eqb_refl, true, false, some, List, [],
  ◌∷◌, ◌++◌, append_assoc, append-nil, All, ok, arith, subst,
}
use mathlib.Core.List.{Memᴰ}
use mathlib.Core.List.Memᴰ
use diginext.Tcp.Message.{Splitter}
use diginext.Tcp.Connection.{
  Connection, ErrorCode, eof, connection_reset, other, post_close, disconnected, read_error,
  handle_read,
}
use diginext.Tcp.Server.{
  Server, ServerEffect, calls, of_connection, on_client_disconnected, on_client_read_error,
  has_uuid, uuid_of, find_uuid, set_object, handle_event, handle_effects, call, disconnect_by_uuid,
}
use diginext.Tcp.Server.Sending.{own_object}
use diginext.Tcp.Server.Lookup.{set_object_self}
use diginext.Tcp.Server.Removal.{without}
use diginext.Tcp.Server.Disconnection.{cleared, disconnect_found}
use diginext.Tcp.Server.Lifetime.{
  Operation, reading, writing, closing, Io, asked, Dangling, with_bytes, IoStep, read_ends,
  disconnects, read_ended, disconnect_called,
}

with_bytes-none : (p : ℕ) (s : Server) → with_bytes p [] s ≡ s
with_bytes-none p s =
    ap (λ m. set_object p (record (s.objects p) { message = m }) s)
      (append-nil (s.objects p).message)
    ∙ set_object_self p s

-- A read of a connection without slots fails.
read_silent :
    (b : Splitter) (p bytes : ℕ) (code : ErrorCode) (s : Server)
    → (s.objects p).slots disconnected ≡ false
    → (s.objects p).slots read_error ≡ false
    → call p (handle_read b (some code) bytes) s ≡ ok (s, [])
unfolding call handle_read handle_effects
read_silent b p bytes eof s d e = rw (d, set_object_self p s) refl
read_silent b p bytes connection_reset s d e = rw (d, set_object_self p s) refl
read_silent b p bytes (other n) s d e = rw (e, set_object_self p s) refl

-- A read of a connection in the list fails with another error: the connection stays in the list.
read_reported :
    (b : Splitter) (p bytes n : ℕ) (s : Server)
    → find_uuid s.objects (uuid_of s p) s.connections ≡ some p
    → (es : List ServerEffect) × (call p (handle_read b (some (other n)) bytes) s ≡ ok (s, es))
      × (asked es ≡ [])
unfolding call handle_read handle_effects handle_event asked
read_reported b p bytes n s found = elim (Bool-cases ((s.objects p).slots read_error)) [
  | inl e ↦ (
    calls (on_client_read_error p (other n) bytes) ∷ [],
    rw (e, set_object_self p s) (ground (arith, found)),
    refl,
  )
  | inr e ↦ ([], rw (e, set_object_self p s) refl, refl)
]

pub not_in_without :
    (o : ℕ → Connection) (uuid : List ℕ) (p : ℕ) (ps : List ℕ)
    → has_uuid o uuid p ≡ true
    → ¬ Memᴰ p (without o uuid ps)
unfolding without
not_in_without o uuid p [] e m = Memᴰ.not-nil m
not_in_without o uuid p (q ∷ ps) e m = elim (Bool-cases (has_uuid o uuid q)) [
  | inl h ↦ not_in_without o uuid p ps e (rw h at m)
  | inr h ↦ elim (Memᴰ.cases_cons (rw h at m)) [
    | inl same ↦ absurd (ground (arith, e, h, ap (λ k. has_uuid o uuid k) same))
    | inr below ↦ not_in_without o uuid p ps e below
  ]
]

only_closing :
    (p : ℕ) (op : Operation) (rest : List (ℕ × Operation))
    → All (λ o. o.0 ≢ p) rest
    → Memᴰ (p, op) (rest ++ (p, closing) ∷ [])
    → op ≡ closing
only_closing p op [] h m = ap (λ o. o.1) (Memᴰ.eq_of_singleton m)
only_closing p op (x ∷ rest) h m = elim (Memᴰ.cases_cons m) [
  | inl same ↦ absurd (h.0 (ap (λ o. o.0) (sym same)))
  | inr below ↦ only_closing p op rest h.1 below
]

-- A state in which nothing but the task of `stop` refers to the connection.
left_alone :
    (p : ℕ) (uuid : List ℕ) (s : Server) (rest pending : List (ℕ × Operation))
    → uuid_of s p ≡ uuid
    → All (λ o. o.0 ≢ p) rest
    → pending ≡ rest ++ (p, closing) ∷ []
    → Dangling p (record { server = cleared p uuid s; pending = pending })
unfolding has_uuid
left_alone p uuid s rest pending u h e = (
  subst (λ l. Memᴰ (p, closing) l) (sym e) (Memᴰ.append_right rest (Memᴰ.head refl)),
  λ alive. elim alive [
    | inl m ↦
        not_in_without s.objects uuid p s.connections (ap (λ x. eqb x uuid) u ∙ eqb_refl uuid) m
    | inr (inl m) ↦
        absurd
          (ground (arith, only_closing p reading rest h (subst (λ l. Memᴰ (p, reading) l) e m)))
    | inr (inr m) ↦
        absurd
          (ground (arith, only_closing p writing rest h (subst (λ l. Memᴰ (p, writing) l) e m)))
  ],
)

pub disconnected_by_uuid :
    (p : ℕ) (s : Server)
    → find_uuid s.objects (uuid_of s p) s.connections ≡ some p
    → (s.objects p).slots disconnected ≡ true
    → disconnect_by_uuid (uuid_of s p) s
      ≡ ok (
        cleared p (uuid_of s p) s,
        calls (on_client_disconnected p) ∷ of_connection p post_close ∷ [],
      )
unfolding disconnect_by_uuid
disconnected_by_uuid p s found watched =
    rw (found, disconnect_by_uuid) (disconnect_found p (uuid_of s p) s found watched)

module _ (b : Splitter) (p : ℕ) (s : Server) (before after : List (ℕ × Operation))
    (found : find_uuid s.objects (uuid_of s p) s.connections ≡ some p)
    (watched : (s.objects p).slots disconnected ≡ true)
    (alone : All (λ o. o.0 ≢ p) (before ++ after)) where
  abbrev listening : Io
  listening = record { server = s; pending = before ++ (p, reading) ∷ after }

  -- A connection of the server waits for a read, and for nothing else. Once it is disconnected by
  -- its uuid, a read that fails, with any error, leaves it destroyed while the task that closes its
  -- socket is still to run.
  pub disconnect-Dangling :
      (code : ErrorCode)
      → (j k : Io) × IoStep b listening (disconnect_called (uuid_of s p)) j
        × IoStep b j (read_ended p (some code) []) k
        × Dangling p k
  unfolding asked
  disconnect-Dangling code = (
    _,
    _,
    disconnects (uuid_of s p) (disconnected_by_uuid p s found watched),
    read_ends p (some code) [] before (after ++ (p, closing) ∷ [])
        (append_assoc before ((p, reading) ∷ after) ((p, closing) ∷ []))
        (ap (λ t. call p (handle_read b (some code) 0) t)
            (with_bytes-none p (cleared p (uuid_of s p) s))
          ∙ read_silent b p 0 code (cleared p (uuid_of s p) s)
              (ap (λ c. c.slots disconnected) (own_object p _ s))
              (ap (λ c. c.slots read_error) (own_object p _ s))),
    left_alone p (uuid_of s p) s (before ++ after) _ refl alone (
        append-nil (before ++ (after ++ (p, closing) ∷ []))
        ∙ sym (append_assoc before after ((p, closing) ∷ []))),
  )

  -- A connection of the server waits for a read, and for nothing else. Once that read has failed
  -- with an error other than the end of the stream and a reset, the connection is still in the
  -- list, and to disconnect it by its uuid leaves it destroyed while the task that closes its
  -- socket is still to run.
  pub handle_read-Dangling :
      (n : ℕ)
      → (j k : Io) × IoStep b listening (read_ended p (some (other n)) []) j
        × (j.server.connections ≡ s.connections)
        × IoStep b j (disconnect_called (uuid_of s p)) k
        × Dangling p k
  unfolding asked
  handle_read-Dangling n =
      let (es, run, none_asked) = read_reported b p 0 n s found in
      (
        _,
        _,
        read_ends {es = es} p (some (other n)) [] before after refl
            (ap (λ t. call p (handle_read b (some (other n)) 0) t) (with_bytes-none p s) ∙ run),
        refl,
        disconnects (uuid_of s p) (disconnected_by_uuid p s found watched),
        left_alone p (uuid_of s p) s (before ++ after) _ refl alone (
            ap (λ l. ((before ++ after) ++ l) ++ (p, closing) ∷ []) none_asked
            ∙ ap (λ l. l ++ (p, closing) ∷ []) (append-nil (before ++ after))),
      )
