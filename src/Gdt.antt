-- ===== src/Gdt.antt =====
-- gdt.c: the segment descriptors and their table of three.
pub mod Decode
use d.Base.{bit_and, bit_or, if◌then◌else◌, ℕ, ◌%◌, ◌*◌, ◌-◌, ◌/◌, ◌==◌, ◌^◌}

pub record GdtEntry : Type 0 where
  pub limit_low : ℕ
  pub base_low : ℕ
  pub base_middle : ℕ
  pub access : ℕ
  pub granularity : ℕ
  pub base_high : ℕ

pub record GdtPtr : Type 0 where
  pub limit : ℕ
  pub base : ℕ

-- `struct gdt_entry gdt[3]`, by index.
abbrev pub Gdt : Type 0
Gdt = ℕ → GdtEntry

unfoldable pub gdt_entry : (base limit access gran : ℕ) → GdtEntry
gdt_entry base limit access gran = record {
  base_low = bit_and base 0xFFFF % 2 ^ 16;
  base_middle = bit_and (base / 2 ^ 16) 0xFF % 256;
  base_high = bit_and (base / 2 ^ 24) 0xFF % 256;
  limit_low = bit_and limit 0xFFFF % 2 ^ 16;
  granularity = bit_or (bit_and (limit / 2 ^ 16) 0x0F % 256) (bit_and gran 0xF0) % 256;
  access = access % 256;
}

unfoldable pub gdt_set_gate : Gdt → (num base limit access gran : ℕ) → Gdt
gdt_set_gate gdt num base limit access gran n =
    if n == num then gdt_entry base limit access gran else gdt n

-- The pointer and the table that `gdt_flush`, in assembler, hands to the processor; `at` is the
-- address of the table.
unfoldable pub gdt_install : (at : ℕ) → Gdt → GdtPtr × Gdt
unfolding gdt_set_gate
gdt_install at gdt = (
  record { limit = 8 * 3 - 1; base = at },
  gdt_set_gate (gdt_set_gate (gdt_set_gate gdt 0 0 0 0 0) 1 0 0xFFFFFFFF 0x9A 0xCF) 2 0 0xFFFFFFFF
      0x92 0xCF,
)

-- `init_gdt`.
unfoldable pub init_gdt : (at : ℕ) → Gdt → GdtPtr × Gdt
unfolding gdt_install
init_gdt at gdt = gdt_install at gdt
