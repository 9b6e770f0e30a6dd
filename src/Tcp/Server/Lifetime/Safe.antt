-- ===== src/Tcp/Server/Lifetime/Safe.antt =====
-- The task of `stop` finds its connection alive, while reads fail only where they may.
use diginext.Base.{ℕ, refl, none, some, [], inl, inr, length}
use mathlib.Core.List.{Memᴰ}
use diginext.Tcp.Message.{Splitter}
use diginext.Tcp.Connection.{eof, connection_reset, other}
use diginext.Tcp.Server
use diginext.Tcp.Server.Lifetime.{
  closing, Io, Alive, Occurrence, IoStep, read_ends, write_ends, closes, disconnects, sends,
  accepts, IsCalm, CalmReach, here, next,
}
use diginext.Tcp.Server.Lifetime.Held.{Held, Held-write_ends, Held-read, Held-close, Held-send}
use diginext.Tcp.Server.Lifetime.Accepts.{Held-accept}
use diginext.Tcp.Server.Lifetime.Ends.{Held-hung_up, Held-disconnect}

module _ (b : Splitter) where
  IoStep-Held : (io k : Io) (o : Occurrence) → IsCalm o io → IoStep b io o k → Held io → Held k
  unfolding IsCalm Server.send
  IoStep-Held io k o calm (read_ends {s} {es} p none chunk before after e run) h =
      Held-read b io h p before after chunk s es e run
  IoStep-Held io k o calm (read_ends {s} {es} p (some eof) chunk before after e run) h =
      Held-hung_up b io h p (length chunk) eof chunk s es before after (λ c. refl) e calm run
  IoStep-Held io k o calm (read_ends {s} {es} p (some connection_reset) chunk before after e run)
        h =
      Held-hung_up b io h p (length chunk) connection_reset chunk s es before after (λ c. refl) e
        calm run
  IoStep-Held io k o calm (read_ends {s} {es} p (some (other n)) chunk before after e run) h =
      absurd calm
  IoStep-Held io k o calm (write_ends {s} {es} p error bytes before after e run) h =
      Held-write_ends b io h p before after error bytes s es e run
  IoStep-Held io k o calm (closes {s} {es} p before after e alive run) h =
      Held-close b io h p before after s es e run
  IoStep-Held io k o calm (disconnects {s} {es} uuid run) h = Held-disconnect b io h uuid s es run
  IoStep-Held io k o calm (sends {s} {es} p msg m run) h = Held-send b io h p [] [] msg s es run
  IoStep-Held io k o calm (accepts {s} {es} p error q uuid quiet new away run) h =
      Held-accept io h p error q uuid s es quiet new away run

  CalmReach-Held : {io k : Io} → Held io → CalmReach b io k → Held k
  CalmReach-Held h here = h
  CalmReach-Held h (next {j} {k} {o} run calm step) =
      IoStep-Held j k o calm step (CalmReach-Held h run)

  -- Where each connection in the list has the server's slot and a pending read, no task of `stop`
  -- is still to run, and from then on reads fail only at the end of the stream or by a reset and
  -- not while the task of `stop` of their connection is still to run, whatever else happens: every
  -- such task finds its connection alive.
  pub CalmReach-Alive :
      {io k : Io} (p : ℕ) → Held io → CalmReach b io k → Memᴰ (p, closing) k.pending → Alive p k
  CalmReach-Alive p h run m = inr (inl ((CalmReach-Held h run).to_close p m).0)
