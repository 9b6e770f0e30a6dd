-- ===== src/Tcp/Server/Lifetime/Gone.antt =====
-- A connection goes from the list of the server, and the others stay as they were.
use diginext.Base.{
  ℕ, ◌≡◌, refl, ap, inl, inr, Bool-cases, Option-cases, true, false, none, some, List, [], ◌∷◌, ok,
  bind_step, arith, subst, eqb_refl, ◌==◌,
}
use mathlib.Core.List.{Memᴰ}
use mathlib.Core.List.Memᴰ
use diginext.Tcp.Connection.{Connection, disconnected, fire, on_disconnected}
use diginext.Tcp.Server.{
  Server, ServerEffect, calls, on_client_disconnected, has_uuid, uuid_of, find_uuid,
  handle_disconnected, handle_event, handle_effects,
}
use diginext.Tcp.Server.Lookup.{same_pointer}
use diginext.Tcp.Server.Removal.{without}
use diginext.Tcp.Server.Disconnection.{cleared, handle_disconnected_lem}
use diginext.Tcp.Server.Lifetime.{asked}
use diginext.Tcp.Server.Lifetime.Dangles.{not_in_without}

pub in_list :
    (o : ℕ → Connection) (uuid : List ℕ) (ps : List ℕ) (q : ℕ)
    → find_uuid o uuid ps ≡ some q
    → Memᴰ q ps
unfolding find_uuid
in_list o uuid [] q e = absurd (ground (arith, e))
in_list o uuid (p ∷ ps) q e = elim (Bool-cases (has_uuid o uuid p)) [
  | inl t ↦ Memᴰ.head (ground (arith, e, t))
  | inr t ↦ Memᴰ.tail (in_list o uuid ps q (ground (arith, e, t)))
]

not_in_list :
    (o : ℕ → Connection) (uuid : List ℕ) (ps : List ℕ) (p : ℕ)
    → find_uuid o uuid ps ≡ none
    → has_uuid o uuid p ≡ true
    → ¬ Memᴰ p ps
unfolding find_uuid
not_in_list o uuid [] p e h m = Memᴰ.not-nil m
not_in_list o uuid (q ∷ ps) p e h m = elim (Bool-cases (has_uuid o uuid q)) [
  | inl t ↦ absurd (ground (arith, e, t))
  | inr t ↦ elim (Memᴰ.cases_cons m) [
    | inl same ↦ absurd (ground (arith, h, t, ap (λ k. has_uuid o uuid k) same))
    | inr below ↦ not_in_list o uuid ps p (ground (arith, e, t)) h below
  ]
]

kept_in_list :
    (o : ℕ → Connection) (uuid : List ℕ) (ps : List ℕ) (k : ℕ)
    → Memᴰ k (without o uuid ps)
    → Memᴰ k ps
unfolding without
kept_in_list o uuid [] k m = m
kept_in_list o uuid (q ∷ ps) k m = elim (Bool-cases (has_uuid o uuid q)) [
  | inl t ↦ Memᴰ.tail (kept_in_list o uuid ps k (rw t at m))
  | inr t ↦ elim (Memᴰ.cases_cons (rw t at m)) [
    | inl same ↦ Memᴰ.head same
    | inr below ↦ Memᴰ.tail (kept_in_list o uuid ps k below)
  ]
]

own_uuid : (s : Server) (p : ℕ) → has_uuid s.objects (uuid_of s p) p ≡ true
unfolding has_uuid
own_uuid s p = eqb_refl (uuid_of s p)

-- What is left of the list when a connection goes: it is not there, and the others are as they
-- were.
pub record Gone (p : ℕ) (s t : Server) : Type 0 where
  pub absent : ¬ Memᴰ p t.connections
  pub fewer : (k : ℕ) → Memᴰ k t.connections → Memᴰ k s.connections
  pub others : (k : ℕ) → (k == p) ≡ false → t.objects k ≡ s.objects k

pub Gone-cleared :
    (p : ℕ) (uuid : List ℕ) (s : Server)
    → has_uuid s.objects uuid p ≡ true
    → Gone p s (cleared p uuid s)
Gone-cleared p uuid s e = record {
  absent = not_in_without s.objects uuid p s.connections e;
  fewer = kept_in_list s.objects uuid s.connections;
  others = λ k n. rw n refl;
}

Gone-absent : (p : ℕ) (s : Server) → ¬ Memᴰ p s.connections → Gone p s s
Gone-absent p s n = record { absent = n; fewer = λ k m. m; others = λ k e. refl }

pub apart : (p k : ℕ) (l : List ℕ) → Memᴰ k l → ¬ Memᴰ p l → (k == p) ≡ false
apart p k l m gone = elim (Bool-cases (k == p)) [
  | inl y ↦ absurd (gone (subst (λ j. Memᴰ j l) (same_pointer k p y) m))
  | inr n ↦ n
]

skip_unknown :
    (p : ℕ) (s : Server)
    → find_uuid s.objects (uuid_of s p) s.connections ≡ none
    → handle_disconnected p s ≡ ok (s, [])
unfolding handle_disconnected
skip_unknown p s n = rw (n, handle_disconnected) refl

-- The read of a connection ends with the end of the stream or a reset.
pub hang_up :
    (p : ℕ) (s : Server)
    → (Memᴰ p s.connections → (s.objects p).slots disconnected ≡ true)
    → (t : Server) × (fs : List ServerEffect) × (handle_effects p
          (fire (s.objects p) on_disconnected)
          s
        ≡ ok (t, fs))
      × (asked fs ≡ [])
      × Gone p s t
unfolding handle_effects handle_event asked
hang_up p s h = elim (Bool-cases ((s.objects p).slots disconnected)) [
  | inr e ↦ (s, [], rw e refl, refl, Gone-absent p s (λ m. absurd (ground (arith, e, h m))))
  | inl e ↦ elim (Option-cases (find_uuid s.objects (uuid_of s p) s.connections)) [
    | inl n ↦ (
      s,
      [],
      rw e (bind_step _ (skip_unknown p s n) refl),
      refl,
      Gone-absent p s (not_in_list s.objects (uuid_of s p) s.connections p n (own_uuid s p)),
    )
    | inr (q, f) ↦ (
      cleared p (uuid_of s p) s,
      calls (on_client_disconnected q) ∷ [],
      rw e (bind_step _ (handle_disconnected_lem p q (uuid_of s p) s refl f) refl),
      refl,
      Gone-cleared p (uuid_of s p) s (own_uuid s p),
    )
  ]
]
