-- ===== src/Tcp/Client/Life.antt =====
-- `start` and `stop` of `tcp_client`: what they do to the connection, beside the thread.
use diginext.Base.{ℕ, Bool, List, [], Outcome, ok, if◌then◌else◌}
use diginext.Tcp.Worker
use diginext.Tcp.Worker.{Worker, Fate, returns, RunStep, Pace, new_thread, wait_until}
use diginext.Tcp.Client
use diginext.Tcp.Client.{Client, ClientEffect}

-- The object: its connection and its thread.
pub record TcpClient : Type 0 where
  pub client : Client
  pub worker : Worker

-- A call's outcome for the connection, and its fate for the thread.
abbrev pub Called : Type 0
Called = Outcome (Client × List ClientEffect) × Fate

unfoldable pub started : TcpClient → Bool
started c = c.worker.started_status

unfoldable pub stop : Pace → TcpClient → Called
unfolding started
stop pace c =
    if started c
    then (Client.disconnect c.client, Worker.stop pace c.worker)
    else (ok (c.client, []), returns c.worker)

unfoldable pub start : Pace → (ℕ → List RunStep) → TcpClient → Called
unfolding started
start pace steps c =
    (if started c then (stop pace c).0 else ok (c.client, []), Worker.start pace steps c.worker)
