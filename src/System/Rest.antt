-- ===== src/System/Rest.antt =====
-- Every reachable system can come to rest at a client, with all its messages answered.
use diginext.Base.{ℕ, ◌≡◌, sym, ap, ◌∙◌, refl, [], ◌++◌}
use diginext.Tcp.Message.{Splitter}
use diginext.Storage.Json.{JsonLib}
use diginext.Storage.Host.Queues.{replies_to}
use diginext.Storage.Host.Requests.{of_one}
use diginext.System.{Net, Reach}
use diginext.System.Order.{Begun, reached, Reach-quiet}
use diginext.System.Drain.{Answerable, Reach-append, client_drains, host_hears}
use diginext.System.Drain.Back.{host_drains, client_hears}

pub Reach-all_answered :
    (b : Splitter) (lib : JsonLib) (IsPeer : ℕ → Type 0) {n m : Net} (p : ℕ)
    → Begun lib IsPeer n
    → Reach b lib IsPeer n m
    → IsPeer p
    → Answerable lib p m
    → (l : Net) × Reach b lib IsPeer m l
      × (l.sent p ≡ m.sent p)
      × (of_one p l.log ≡ m.sent p)
      × (l.up p ≡ [])
      × (l.client_writes p ≡ 0)
      × (l.down p ≡ [])
      × (l.server_writes p ≡ 0)
      × (l.received p ≡ replies_to lib p l.log n.host.store)
Reach-all_answered b lib IsPeer {n} {m} p begun run peer texts =
    let (m₁, run₁, h₁, quiet₁, sent₁, log₁, host₁) =
      client_drains b lib IsPeer n.host.store begun.utf8 p peer (m.client p).send_buffer m
        (reached b lib IsPeer begun run) refl in
    let (m₂, run₂, h₂, up₂, quiet₂, sent₂) =
      host_hears b lib IsPeer n.host.store begun.utf8 p peer (m₁.up p) m₁ h₁ refl quiet₁
        (still m m₁ sent₁ log₁ host₁ texts) in
    let (m₃, run₃, h₃, back₃, up₃, quiet₃, sent₃) =
      host_drains b lib IsPeer n.host.store begun.utf8 p peer (m₂.host.server.objects p).send_buffer
        m₂ h₂ refl in
    let (l, run₄, h₄, down, up₄, quiet₄, back₄, sent₄) =
      client_hears b lib IsPeer n.host.store begun.utf8 p peer (m₃.down p) m₃ h₃ refl in
    let sent : l.sent p ≡ m.sent p = sent₄ ∙ sent₃ ∙ sent₂ ∙ sent₁ in
    let rest : Reach b lib IsPeer m l =
      Reach-append b lib IsPeer run₁
        (Reach-append b lib IsPeer run₂ (Reach-append b lib IsPeer run₃ run₄)) in
    let up : l.up p ≡ [] = up₄ ∙ up₃ ∙ up₂ in
    let quiet : l.client_writes p ≡ 0 = quiet₄ ∙ quiet₃ ∙ quiet₂ in
    let back : l.server_writes p ≡ 0 = back₄ ∙ back₃ in
    let (handled, answered) =
      Reach-quiet b lib IsPeer begun (Reach-append b lib IsPeer run rest) p peer up quiet down
        back in
    (l, rest, sent, handled ∙ sent, up, quiet, down, back, answered)
  where
    still :
        (m l : Net)
        → l.sent p ≡ m.sent p
        → l.log ≡ m.log
        → l.host ≡ m.host
        → Answerable lib p m
        → Answerable lib p l
    still m l sent log host texts asked e =
        rw host (texts asked (sym sent ∙ e ∙ ap (λ x. of_one p x ++ asked) log))
