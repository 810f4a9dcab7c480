-- ===== src/Net.antt =====
-- net/: packets on their way down and up the layers, and the pools and tables behind them.
pub mod Headers
pub mod Receive
pub mod Layers
pub mod Frames
pub mod Address
pub mod Pool
pub mod Ports
pub mod Arp
mod Tests
use operating_system_cortex.Prelude.{ℕ}

-- What the layers keep of a `struct netbuf`: the address of its `buf`, the moving pointer to the
-- header of the layer, the length of the frame from there on, and the address it waits for.
pub record Netbuf : Type 0 where
  pub buf : ℕ
  pub ptr : ℕ
  pub frame_len : ℕ
  pub ip : ℕ
