-- ===== src/Tcp/Server/Readiness.antt =====
-- Connections that are ready to be read: an accept makes one, and leaves the others so.
use diginext.Base.{ℕ, ◌≡◌, ◌≢◌, true, Option, some, String, [], codes}
use diginext.Tcp.Connection.{Connection, ErrorCode, read_message}
use diginext.Tcp.Server.{Server, find_uuid}
use diginext.Tcp.Server.Sending.{IsStarted}
use diginext.Tcp.Server.Acceptance.{accepted}

-- A connection that is started, listed under its uuid, with a slot for its messages and no bytes
-- left to read.
pub record Ready (s : Server) (k : ℕ) : Type 0 where
  pub started : IsStarted (s.objects k)
  pub has_slot : (s.objects k).slots read_message ≡ true
  pub no_bytes : (s.objects k).message ≡ []
  pub listed : find_uuid s.objects (codes (s.objects k).uuid) s.connections ≡ some k

module _ (p : ℕ) (error : Option ErrorCode) (q : ℕ) (uuid : String) (s : Server) (new : q ≢ p) where
  abbrev after : Server
  after = accepted p q uuid s
