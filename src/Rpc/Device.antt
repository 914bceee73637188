-- ===== src/Rpc/Device.antt =====
-- `SSLIOStreamDevice` of src/rpcprotocol.h: what is done to the stream below it. The stream itself is a
-- parameter; whether a handshake succeeds, or throws, is given by the role in which it is made.
use fidinventor.Base.{ℕ, Bool, true, false, not, List, [], ◌∷◌, ◌++◌, if◌then◌else◌}
use fidinventor.Base.Text.{Bytes}

pub data Role : Type 0 where
  server client : Role

-- What happens to the stream: a handshake, and reading and writing with encryption or in plain.
pub data Event : Type 0 where
  shakes : Role → Event
  reads_ssl : ℕ → Event
  reads_plain : ℕ → Event
  writes_ssl : Bytes → Event
  writes_plain : Bytes → Event

-- `fUseSSL` and `fNeedHandshake`.
pub record Device : Type 0 where
  pub use_ssl : Bool
  pub need_handshake : Bool

-- `SSLIOStreamDevice(streamIn, fUseSSLIn)`
unfoldable pub new_device : Bool → Device
new_device use_ssl = record { use_ssl = use_ssl; need_handshake = use_ssl }

-- What an operation leaves: the device, what was done to the stream, and whether it went without a
-- throw.
pub record Did : Type 0 where
  pub device : Device
  pub events : List Event
  pub went : Bool

module _ (succeeds : Role → Bool) where
  -- `handshake(role)`; the flag is reset before the handshake is made, which may throw.
  unfoldable pub handshake : Role → Device → Did
  handshake role d =
      if not d.need_handshake then record { device = d; events = []; went = true } else record {
        device = record d { need_handshake = false };
        events = shakes role ∷ [];
        went = succeeds role;
      }

  -- The rest of an operation, which a throw of the handshake skips.
  abbrev pub after_handshake : Did → (Device → Event) → Did
  after_handshake did event =
      if did.went then record did { events = did.events ++ event did.device ∷ [] } else did

  -- `read(s, n)`
  unfoldable pub read : ℕ → Device → Did
  unfolding handshake
  read n d =
      after_handshake (handshake server d) (λ x. if x.use_ssl then reads_ssl n else reads_plain n)

  -- `write(s, n)`
  unfoldable pub write : Bytes → Device → Did
  unfolding handshake
  write s d =
      after_handshake (handshake client d) (λ x. if x.use_ssl then writes_ssl s else writes_plain s)

-- A use of the device.
pub data Use : Type 0 where
  to_read : ℕ → Use
  to_write : Bytes → Use

module _ (succeeds : Role → Bool) where
  unfoldable pub use_once : Use → Device → Did
  unfolding read write
  use_once (to_read n) d = read succeeds n d
  use_once (to_write s) d = write succeeds s d

  -- All that is done to the stream by uses of the device, where each is made whatever the one before
  -- it came to.
  unfoldable pub use_all : List Use → Device → List Event
  unfolding use_once
  use_all [] d = []
  use_all (u ∷ us) d = (use_once u d).events ++ use_all us (use_once u d).device
