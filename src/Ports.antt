-- ===== src/Ports.antt =====
-- `outb` and `inb` of io.c. The devices behind the ports are not part of the kernel: `Device` is
-- what a read of a port answers after a history of port operations, the newest first.
use d.Base.{List, ℕ, ◌%◌, ◌^◌, ◌∷◌}

pub data PortOp : Type 0 where
  wrote : (port value : ℕ) → PortOp
  was_read : (port value : ℕ) → PortOp

abbrev pub Log : Type 0
Log = List PortOp

abbrev pub Device : Type 0
Device = Log → ℕ → ℕ

-- `port` is a `uint16_t` and `value` a `uint8_t`.
unfoldable pub outb : (port value : ℕ) → Log → Log
outb port value log = wrote (port % 2 ^ 16) (value % 256) ∷ log

unfoldable pub inb : Device → (port : ℕ) → Log → Log × ℕ
inb dev port log =
    let value = dev log (port % 2 ^ 16) % 256 in (was_read (port % 2 ^ 16) value ∷ log, value)

-- Two jumps to the next instruction, for the time that they take.
unfoldable pub io_wait : Log → Log
io_wait log = log
