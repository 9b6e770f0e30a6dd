-- ===== src/Storage/Host/Life.antt =====
-- `Started` and `Start` of `StorageServer`, on the thread of its `tcp_server`. `Stop` has no
-- effect:
-- it only logs.
use diginext.Base.{ℕ, ◌≡◌, ap, ◌∙◌, if_false, List, Bool, false, if◌then◌else◌}
use diginext.Tcp.Worker
use diginext.Tcp.Worker.{Worker, Fate, returns, ◌>>=◌, RunStep, Pace, meanwhile}

unfoldable pub started : Worker → Bool
started w = w.started_status

-- The thread's steps between the tries of `waitStart`, and during the sleep of five seconds.
unfoldable pub start : Pace → (ℕ → List RunStep) → List RunStep → Worker → Fate
unfolding started
start pace steps settling w =
    if started w
    then returns w
    else (do w₁ ← Worker.start pace steps w; returns (meanwhile settling w₁))

pub start_lem :
    (pace : Pace) (steps : ℕ → List RunStep) (settling : List RunStep) (w w₁ : Worker)
    → w.started_status ≡ false
    → Worker.start pace steps w ≡ returns w₁
    → start pace steps settling w ≡ returns (meanwhile settling w₁)
unfolding start started
start_lem pace steps settling w w₁ e h =
    if_false w.started_status _ _ e ∙ ap (λ f. f >>= λ w₂. returns (meanwhile settling w₂)) h
