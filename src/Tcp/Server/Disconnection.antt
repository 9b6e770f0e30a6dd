-- ===== src/Tcp/Server/Disconnection.antt =====
-- `disconnectAll`: each disconnection calls back `handle_tcp_connection_disconnected`, which
-- removes the connection from the list that the loop has copied.
use diginext.Base.{
  ℕ, ◌≡◌, refl, sym, ap, ◌∙◌, true, false, Bool-cases, inl, inr, some, Option-cases, List, [], ◌∷◌,
  ◌++◌, codes, eqb, eqb-true, eqb_refl, All, ok, bind_step, arith,
}
use diginext.Tcp.Connection.{Connection, disconnected, on_disconnected, fires, post_close, stop}
use diginext.Tcp.Connection
use diginext.Tcp.Server.{
  Server, ServerEffect, calls, on_client_disconnected, of_connection, drop_slots, has_uuid, uuid_of,
  find_uuid, remove_connection_by_uuid, handle_disconnected, handle_event, handle_effects, call,
  for_each, disconnect_by_uuid, disconnect, disconnect_all,
}
use diginext.Tcp.Server.Lookup.{
  find_uuid-has_uuid, find_uuid-All, find_uuid-same, without-same, without-All, uuid-drop_slots,
  set_object_self, other_uuid,
}
use diginext.Tcp.Server.Removal.{without, without-find_none, remove_connection_by_uuid-without}

-- The server has its slot for `onDisconnected` on every connection in its list.
abbrev pub IsWatched : Server → Type 0
IsWatched s = All (λ p. (s.objects p).slots disconnected ≡ true) s.connections

-- The server without the connections that have a uuid; `q` has lost its slots.
abbrev pub cleared : ℕ → List ℕ → Server → Server
cleared q uuid s = record (drop_slots q s) { connections = without s.objects uuid s.connections }

pub handle_disconnected_lem :
    (q r : ℕ) (uuid : List ℕ) (s : Server)
    → uuid_of s q ≡ uuid
    → find_uuid s.objects uuid s.connections ≡ some r
    → handle_disconnected q s ≡ ok (cleared q uuid s, calls (on_client_disconnected r) ∷ [])
unfolding handle_disconnected
handle_disconnected_lem q r uuid s e f = rw (found, handle_disconnected) (bind_step _ removed refl)
  where
    found : find_uuid s.objects (uuid_of s q) s.connections ≡ some r
    found = ap (λ u. find_uuid s.objects u s.connections) e ∙ f

    removed :
        remove_connection_by_uuid (uuid_of (drop_slots q s) r) (drop_slots q s)
        ≡ ok (cleared q uuid s)
    removed =
        ap (λ u. remove_connection_by_uuid u (drop_slots q s))
          (ap codes (uuid-drop_slots q s r) ∙ find_uuid-has_uuid s.objects uuid s.connections r f)
        ∙ remove_connection_by_uuid-without uuid (drop_slots q s)
        ∙ ap (λ l. ok (record (drop_slots q s) { connections = l }))
            (without-same (drop_slots q s).objects s.objects (uuid-drop_slots q s) uuid
              s.connections)

-- A watched connection fires `onDisconnected` at its server, and then asks for its end.
pub disconnect_found :
    (q : ℕ) (uuid : List ℕ) (s : Server)
    → find_uuid s.objects uuid s.connections ≡ some q
    → (s.objects q).slots disconnected ≡ true
    → call q Connection.disconnect s
      ≡ ok (cleared q uuid s, calls (on_client_disconnected q) ∷ of_connection q post_close ∷ [])
unfolding call handle_effects handle_event Connection.disconnect stop
disconnect_found q uuid s f w =
    rw (w, set_object_self q s)
      (bind_step _
        (handle_disconnected_lem q q uuid s (find_uuid-has_uuid s.objects uuid s.connections q f) f)
        refl)

-- What a step of the loop leaves.
abbrev Cleared : List ℕ → Server → Server → Type 0
Cleared uuid s t =
    (t.connections ≡ without s.objects uuid s.connections)
    × ((k : ℕ) → (t.objects k).uuid ≡ (s.objects k).uuid)
    × ((k : ℕ) → has_uuid s.objects uuid k ≡ false → t.objects k ≡ s.objects k)

disconnect_step :
    (p : ℕ) (s : Server)
    → IsWatched s
    → (t : Server) × (es : List ServerEffect) × (disconnect p s ≡ ok (t, es))
      × Cleared (uuid_of s p) s t
unfolding disconnect disconnect_by_uuid
disconnect_step p s w = elim (Option-cases (find_uuid s.objects (uuid_of s p) s.connections)) [
  | inl n ↦ (
    s,
    [],
    rw (n, disconnect_by_uuid) refl,
    (sym (without-find_none s.objects (uuid_of s p) s.connections n), λ k. refl, λ k h. refl),
  )
  | inr (q, f) ↦ (
    cleared q (uuid_of s p) s,
    calls (on_client_disconnected q) ∷ of_connection q post_close ∷ [],
    rw (f, disconnect_by_uuid)
        (disconnect_found q (uuid_of s p) s f (
          find_uuid-All (λ k. (s.objects k).slots disconnected ≡ true) s.objects (uuid_of s p)
            s.connections q f w)),
    (
      refl,
      uuid-drop_slots q s,
      λ k h.
          rw
            (other_uuid s.objects k q (uuid_of s p)
              (find_uuid-has_uuid s.objects (uuid_of s p) s.connections q f) h)
            refl,
    ),
  )
]

-- The uuid of every connection in the list is one of `ps`.
abbrev IsCovered : List ℕ → Server → Type 0
IsCovered ps s = All (λ k. (q : ℕ) × (find_uuid s.objects (uuid_of s k) ps ≡ some q)) s.connections

Cleared-IsWatched : (uuid : List ℕ) (s t : Server) → Cleared uuid s t → IsWatched s → IsWatched t
Cleared-IsWatched uuid s t (conns, uuids, kept) w = rw conns (
    without-All (λ k. (s.objects k).slots disconnected ≡ true)
      (λ k. (t.objects k).slots disconnected ≡ true) s.objects uuid
      (λ k h e. ap (λ c. c.slots disconnected) (kept k h) ∙ e) s.connections w)

find_uuid-tail :
    (o : ℕ → Connection) (p : ℕ) (ps : List ℕ) (k q : ℕ)
    → has_uuid o (codes (o p).uuid) k ≡ false
    → find_uuid o (codes (o k).uuid) (p ∷ ps) ≡ some q
    → find_uuid o (codes (o k).uuid) ps ≡ some q
unfolding find_uuid has_uuid
find_uuid-tail o p ps k q h e = elim (Bool-cases (eqb (codes (o p).uuid) (codes (o k).uuid))) [
  | inr n ↦ ground (arith, e, n)
  | inl y ↦ absurd (
      ground (
        arith,
        h,
        ap (λ u. eqb (codes (o k).uuid) u) (eqb-true _ _ y) ∙ eqb_refl (codes (o k).uuid),
      ))
]

Cleared-IsCovered :
    (p : ℕ) (ps : List ℕ) (s t : Server)
    → Cleared (uuid_of s p) s t
    → IsCovered (p ∷ ps) s
    → IsCovered ps t
Cleared-IsCovered p ps s t (conns, uuids, kept) c = rw conns (
    without-All (λ k. (q : ℕ) × (find_uuid s.objects (uuid_of s k) (p ∷ ps) ≡ some q))
      (λ k. (q : ℕ) × (find_uuid t.objects (uuid_of t k) ps ≡ some q)) s.objects (uuid_of s p)
      (λ k h (q, e). (
        q,
        ap (λ u. find_uuid t.objects (codes u) ps) (uuids k)
            ∙ find_uuid-same t.objects s.objects uuids (uuid_of s k) ps
            ∙ find_uuid-tail s.objects p ps k q h e,
      ))
      s.connections c)

uncovered :
    (s : Server) (l : List ℕ)
    → All (λ k. (q : ℕ) × (find_uuid s.objects (uuid_of s k) [] ≡ some q)) l
    → l ≡ []
unfolding find_uuid
uncovered s [] h = refl
uncovered s (k ∷ ks) h = absurd (ground (arith, h.0.1))

for_each-disconnect :
    (ps : List ℕ) (s : Server)
    → IsWatched s
    → IsCovered ps s
    → (t : Server) × (es : List ServerEffect) × (for_each disconnect ps s ≡ ok (t, es))
      × (t.connections ≡ [])
unfolding for_each
for_each-disconnect [] s w c = (s, [], refl, uncovered s s.connections c)
for_each-disconnect (p ∷ ps) s w c =
    let (t, es, run, step) = disconnect_step p s w in
    let (u, fs, rest, empty) =
      for_each-disconnect ps t (Cleared-IsWatched (uuid_of s p) s t step w)
        (Cleared-IsCovered p ps s t step c) in
    (u, es ++ fs, bind_step _ run (bind_step _ rest refl), empty)

find_uuid-own :
    (o : ℕ → Connection) (ps more : List ℕ)
    → All (λ k. (q : ℕ) × (find_uuid o (codes (o k).uuid) ps ≡ some q)) more
    → (p : ℕ) → All (λ k. (q : ℕ) × (find_uuid o (codes (o k).uuid) (p ∷ ps) ≡ some q)) more
unfolding find_uuid
find_uuid-own o ps [] h p = tt
find_uuid-own o ps (k ∷ ks) h p = elim (Bool-cases (has_uuid o (codes (o k).uuid) p)) [
  | inl y ↦ ((p, rw y refl), find_uuid-own o ps ks h.1 p)
  | inr n ↦ ((h.0.0, rw n h.0.1), find_uuid-own o ps ks h.1 p)
]

covered_by_itself :
    (o : ℕ → Connection) (ps : List ℕ)
    → All (λ k. (q : ℕ) × (find_uuid o (codes (o k).uuid) ps ≡ some q)) ps
covered_by_itself o [] = tt
covered_by_itself o (p ∷ ps) = (
  (p, unfold find_uuid has_uuid in rw (eqb_refl (codes (o p).uuid)) refl),
  find_uuid-own o ps ps (covered_by_itself o ps) p,
)

-- If the server has its slot for onDisconnected on every connection in its list, disconnectAll
-- returns, and the list is empty then.
pub disconnect_all-empties :
    (s : Server)
    → IsWatched s
    → (t : Server) × (es : List ServerEffect) × (disconnect_all s ≡ ok (t, es))
      × (t.connections ≡ [])
unfolding disconnect_all
disconnect_all-empties s w =
    for_each-disconnect s.connections s w (covered_by_itself s.objects s.connections)
