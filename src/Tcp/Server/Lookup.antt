-- ===== src/Tcp/Server/Lookup.antt =====
-- The lookup of a connection by its uuid, and what it reads of the server.
use diginext.Base.{
  ℕ, ◌≡◌, refl, sym, ap, ◌∙◌, subst, fun_ext, true, false, Bool-cases, inl, inr, some, List, [],
  ◌∷◌, codes, eqb, eqb-true, eqb_refl, All, ◌==◌, arith,
}
use diginext.Tcp.Connection.{Connection}
use diginext.Tcp.Server.{Server, set_object, drop_slots, has_uuid, find_uuid}
use diginext.Tcp.Server.Removal.{without}

pub find_uuid-has_uuid :
    (o : ℕ → Connection) (uuid ps : List ℕ) (q : ℕ)
    → find_uuid o uuid ps ≡ some q
    → codes (o q).uuid ≡ uuid
unfolding find_uuid has_uuid
find_uuid-has_uuid o uuid [] q e = absurd (ground (arith, e))
find_uuid-has_uuid o uuid (p ∷ ps) q e = elim (Bool-cases (eqb (codes (o p).uuid) uuid)) [
  | inl h ↦ ap (λ r. codes (o r).uuid) (ground (arith, e, h)) ∙ eqb-true _ _ h
  | inr h ↦ find_uuid-has_uuid o uuid ps q (ground (arith, e, h))
]

pub find_uuid-All :
    (P : ℕ → Type 0) (o : ℕ → Connection) (uuid ps : List ℕ) (q : ℕ)
    → find_uuid o uuid ps ≡ some q
    → All P ps
    → P q
unfolding find_uuid
find_uuid-All P o uuid [] q e h = absurd (ground (arith, e))
find_uuid-All P o uuid (p ∷ ps) q e h = elim (Bool-cases (has_uuid o uuid p)) [
  | inl t ↦ subst P (ground (arith, e, t)) h.0
  | inr t ↦ find_uuid-All P o uuid ps q (ground (arith, e, t)) h.1
]

-- The lookup reads the uuids only.
module _ (a b : ℕ → Connection) (same : (k : ℕ) → (a k).uuid ≡ (b k).uuid) (uuid : List ℕ) where
  pub find_uuid-same : (ps : List ℕ) → find_uuid a uuid ps ≡ find_uuid b uuid ps
  unfolding find_uuid has_uuid
  find_uuid-same [] = refl
  find_uuid-same (p ∷ ps) = rw (same p, find_uuid-same ps) refl

  pub without-same : (ps : List ℕ) → without a uuid ps ≡ without b uuid ps
  unfolding without has_uuid
  without-same [] = refl
  without-same (p ∷ ps) = rw (same p, without-same ps) refl

pub without-All :
    (P Q : ℕ → Type 0) (o : ℕ → Connection) (uuid : List ℕ)
    → ((k : ℕ) → has_uuid o uuid k ≡ false → P k → Q k)
    → (ps : List ℕ) → All P ps
    → All Q (without o uuid ps)
unfolding without
without-All P Q o uuid f [] h = tt
without-All P Q o uuid f (p ∷ ps) h = elim (Bool-cases (has_uuid o uuid p)) [
  | inl t ↦ rw t (without-All P Q o uuid f ps h.1)
  | inr t ↦ rw t (f p t h.0, without-All P Q o uuid f ps h.1)
]

pub same_pointer : (k p : ℕ) → (k == p) ≡ true → k ≡ p
same_pointer k p h = ground (arith, h)

pub uuid-drop_slots :
    (p : ℕ) (s : Server) (k : ℕ) → ((drop_slots p s).objects k).uuid ≡ (s.objects k).uuid
uuid-drop_slots p s k = elim (Bool-cases (k == p)) [
  | inl h ↦ rw h (ap (λ r. (s.objects r).uuid) (sym (same_pointer k p h)))
  | inr h ↦ rw h refl
]

pub set_object_self : (p : ℕ) (s : Server) → set_object p (s.objects p) s ≡ s
set_object_self p s =
    ap (λ o. record s { objects = o })
      (fun_ext (λ k. elim (Bool-cases (k == p)) [
        | inl h ↦ rw h (ap s.objects (sym (same_pointer k p h)))
        | inr h ↦ rw h refl
      ]))

pub other_uuid :
    (o : ℕ → Connection) (k q : ℕ) (uuid : List ℕ)
    → codes (o q).uuid ≡ uuid
    → has_uuid o uuid k ≡ false
    → (k == q) ≡ false
unfolding has_uuid
other_uuid o k q uuid e h = elim (Bool-cases (k == q)) [
  | inr n ↦ n
  | inl y ↦ absurd (
      ground (
        arith,
        h,
        ap (λ r. eqb (codes (o r).uuid) uuid) (same_pointer k q y)
            ∙ ap (λ u. eqb u uuid) e
            ∙ eqb_refl uuid,
      ))
]

-- What a change of one object leaves as it was, at every object.
pub kept_by_set :
    {X : Type 0} (f : Connection → X) (s : Server) (p : ℕ) (d : Connection)
    → f d ≡ f (s.objects p)
    → (k : ℕ) → f ((set_object p d s).objects k) ≡ f (s.objects k)
kept_by_set f s p d e k = elim (Bool-cases (k == p)) [
  | inl h ↦ rw h (e ∙ ap (λ j. f (s.objects j)) (sym (same_pointer k p h)))
  | inr h ↦ rw h refl
]
