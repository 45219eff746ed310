-- ===== src/Vm/Steps.antt =====
-- What the rounds of `vm_run` share.
use d.Base.{ℕ, ◌%◌, ◌+◌, ◌^◌}
use d.Memory.{Mem, load16, store16}
use d.Vm.{ip_at}
use d.Vm.Ops.{sizeof_ins}

-- `ip` moves behind the instruction.
abbrev pub advanced : (vm : ℕ) → Mem → Mem
advanced vm m = store16 m (ip_at vm) ((load16 m (ip_at vm) + sizeof_ins) % 2 ^ 16)
