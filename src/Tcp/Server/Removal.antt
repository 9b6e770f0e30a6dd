-- ===== src/Tcp/Server/Removal.antt =====
-- The removal of connections by uuid.
use diginext.Base.{
  ℕ, zero, suc, ◌<◌, ◌≡◌, refl, sym, ap, ◌∙◌, Bool-cases, inl, inr, none, some, Option-cases, List,
  [], ◌∷◌, length, ok, if◌then◌else◌, arith,
}
use diginext.Tcp.Connection.{Connection}
use diginext.Tcp.Server.{
  Server, has_uuid, find_uuid, erase_uuid, remove_from, remove_connection_by_uuid,
}

-- The connections with another uuid, in order.
unfoldable pub without : (ℕ → Connection) → List ℕ → List ℕ → List ℕ
without s uuid [] = []
without s uuid (p ∷ ps) = if has_uuid s uuid p then without s uuid ps else p ∷ without s uuid ps

module _ (s : ℕ → Connection) (uuid : List ℕ) where
  pub without-find_none : (ps : List ℕ) → find_uuid s uuid ps ≡ none → without s uuid ps ≡ ps
  unfolding without find_uuid
  without-find_none [] e = refl
  without-find_none (p ∷ ps) e = elim (Bool-cases (has_uuid s uuid p)) [
    | inl h ↦ absurd (ground (arith, e, h))
    | inr h ↦ rw h (ap (λ l. p ∷ l) (without-find_none ps (ground (arith, e, h))))
  ]

  erase_uuid-find_none : (ps : List ℕ) → find_uuid s uuid ps ≡ none → erase_uuid s uuid ps ≡ ps
  unfolding erase_uuid find_uuid
  erase_uuid-find_none [] e = refl
  erase_uuid-find_none (p ∷ ps) e = elim (Bool-cases (has_uuid s uuid p)) [
    | inl h ↦ absurd (ground (arith, e, h))
    | inr h ↦ rw h (ap (λ l. p ∷ l) (erase_uuid-find_none ps (ground (arith, e, h))))
  ]

  length-erase_uuid :
      (ps : List ℕ) (q : ℕ)
      → find_uuid s uuid ps ≡ some q
      → suc (length (erase_uuid s uuid ps)) ≡ length ps
  unfolding erase_uuid find_uuid
  length-erase_uuid [] q e = absurd (ground (arith, e))
  length-erase_uuid (p ∷ ps) q e = elim (Bool-cases (has_uuid s uuid p)) [
    | inl h ↦ rw h refl
    | inr h ↦ rw h (ap suc (length-erase_uuid ps q (ground (arith, e, h))))
  ]

  without-erase_uuid : (ps : List ℕ) → without s uuid (erase_uuid s uuid ps) ≡ without s uuid ps
  unfolding without erase_uuid
  without-erase_uuid [] = refl
  without-erase_uuid (p ∷ ps) = elim (Bool-cases (has_uuid s uuid p)) [
    | inl h ↦ rw h refl
    | inr h ↦ rw h (rw h (ap (λ l. p ∷ l) (without-erase_uuid ps)))
  ]

  -- While the uuid is still found after an erasure, that erasure has shortened the list.
  erase_uuid-shorter :
      (ps : List ℕ) (q : ℕ)
      → find_uuid s uuid (erase_uuid s uuid ps) ≡ some q
      → length (erase_uuid s uuid ps) < length ps
  erase_uuid-shorter ps q e = elim (Option-cases (find_uuid s uuid ps)) [
    | inl n ↦ absurd (ground (arith, n, e, erase_uuid-find_none ps n))
    | inr (r, f) ↦ omega (arith, length-erase_uuid ps r f)
  ]

remove_from_lem :
    (fuel : ℕ) (uuid : List ℕ) (s : Server)
    → length s.connections < fuel
    → remove_from fuel uuid s ≡ ok (record s { connections = without s.objects uuid s.connections })
unfolding remove_from
remove_from_lem zero uuid s enough = absurd (omega arith)
remove_from_lem (suc fuel) uuid s enough =
    elim (Option-cases (find_uuid s.objects uuid (erase_uuid s.objects uuid s.connections))) [
      | inl n ↦ ground (arith, n, all_erased n)
      | inr (q, f) ↦ ground (
        arith,
        f,
        remove_from_lem fuel uuid s' (shorter q f),
        without-erase_uuid s.objects uuid s.connections,
      )
    ]
  where
    s' : Server
    s' = record s { connections = erase_uuid s.objects uuid s.connections }

    all_erased :
        find_uuid s.objects uuid s'.connections ≡ none
        → s'.connections ≡ without s.objects uuid s.connections
    all_erased n =
        sym (without-find_none s.objects uuid s'.connections n)
        ∙ without-erase_uuid s.objects uuid s.connections

    shorter :
        (q : ℕ) → find_uuid s.objects uuid s'.connections ≡ some q → length s'.connections < fuel
    shorter q f = omega (arith, enough, erase_uuid-shorter s.objects uuid s.connections q f)

-- removeConnectionByUUID ends, and it leaves exactly the connections with another uuid, in order.
pub remove_connection_by_uuid-without :
    (uuid : List ℕ) (s : Server)
    → remove_connection_by_uuid uuid s
      ≡ ok (record s { connections = without s.objects uuid s.connections })
unfolding remove_connection_by_uuid
remove_connection_by_uuid-without uuid s =
    remove_from_lem (suc (length s.connections)) uuid s (omega arith)
