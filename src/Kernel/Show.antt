-- ===== src/Kernel/Show.antt =====
-- The printing functions: `mem_dump` and `print_mem_map` of mem.c, `vm_dump_registers` of vm.c, and
-- `fault_handler` of idt.c.
pub mod Prints
pub mod Dump
pub mod MemMap
pub mod Registers
use d.Base.{
  List, Option, Run, [], codes, done, faults, get_elem?, if◌then◌else◌, none, some, spins, suc,
  zero, ℕ, ◌%◌, ◌+◌, ◌==◌, ◌>>=◌, ◌^◌, ◌∷◌,
}
use d.Memory.{load8, load16, load32}
use d.Kernel.{Globals, write_number, kernel_panic}
use d.Str.{sign_extend8}
use d.Mm.Pages.{address_at, next_at, size_at}
use d.Term.{Screen, write_text}
use d.Vm.{bp_at, flags_at, ip_at, regs_at, sign_extend16, sp_at}

module _ (g : Globals) where
  -- `while(i < size)`, over the bytes from `addr + i` on.
  unfoldable pub dump_loop : (left i addr : ℕ) → Screen → Run Screen
  unfolding write_number
  dump_loop zero i addr s = done s
  dump_loop (suc left) i addr s = do
    t ← write_number g (load8 s.mem (addr + i)) 16 s
    dump_loop left (i + 1) addr (write_text (codes ":") t)

  unfoldable pub mem_dump : (addr size : ℕ) → Screen → Run Screen
  unfolding write_number dump_loop
  mem_dump addr size s = do
    t ← write_number g addr 16 (write_text (codes "\n") s)
    u ← dump_loop size 0 addr (write_text (codes "|") t)
    done (write_text (codes "\n") u)

  -- One line of the memory map.
  unfoldable pub show_page : (entry : ℕ) (label : List ℕ) → Screen → Run Screen
  unfolding write_number
  show_page entry label s = do
    a ← write_number g (load32 s.mem (size_at entry)) 10 (write_text (codes "\n    ") s)
    b ← write_number g (load32 a.mem (address_at entry)) 16 (write_text (codes "  0x") a)
    let end = (load32 b.mem (address_at entry) + load32 b.mem (size_at entry)) % 2 ^ 32
    c ← write_number g end 16 (write_text (codes "-") b)
    done (write_text label c)

  -- `while(entry->next != NULL)`.
  unfoldable pub show_pages : (fuel entry : ℕ) (label : List ℕ) → Screen → Run Screen
  unfolding show_page
  show_pages zero entry label s = spins
  show_pages (suc fuel) entry label s =
      let more =
        show_page entry label s >>= λ t. show_pages fuel (load32 t.mem (next_at entry)) label t in
      if load32 s.mem (next_at entry) == 0 then done s else more

  unfoldable pub print_mem_map : Screen → Run Screen
  unfolding show_pages
  print_mem_map s = do
    t ← show_pages g.fuel g.mm_free (codes "  [FREE]") s
    u ← show_pages g.fuel g.mm_used (codes "  [USED]") t
    done (write_text (codes "\n") u)

  -- A register of the machine, with the label in front of it.
  unfoldable pub show_register : (label : List ℕ) (at : ℕ) → Screen → Run Screen
  unfolding write_number
  show_register label at s =
      let t = write_text label s in write_number g (sign_extend16 (load16 t.mem at)) 16 t

  unfoldable pub vm_dump_registers : (vm : ℕ) → Screen → Run Screen
  unfolding show_register write_number
  vm_dump_registers vm s = do
    a ← show_register (codes "  ip: ") (ip_at vm) s
    b ← show_register (codes "  sp: ") (sp_at vm) a
    c ← show_register (codes "  bp: ") (bp_at vm) b
    d ← show_register (codes "  r0: ") (regs_at vm) c
    e ← show_register (codes "  r1: ") (regs_at vm + 2) d
    f ← show_register (codes "  r2: ") (regs_at vm + 4) e
    h ← show_register (codes "  r3: ") (regs_at vm + 6) f
    let i = write_text (codes "  fr: ") h
    j ← write_number g (sign_extend8 (load8 i.mem (flags_at vm))) 2 i
    done (write_text (codes "\n") j)

-- `exception_messages`.
unfoldable pub exception_messages : (int_no : ℕ) → Option (List ℕ)
exception_messages int_no =
    get_elem?
      (codes "Division By Zero"
        ∷ codes "Debug"
        ∷ codes "Non Maskable Interrupt"
        ∷ codes "Breakpoint"
        ∷ codes "Into Detected Overflow"
        ∷ codes "Out of Bounds"
        ∷ codes "Invalid Opcode"
        ∷ codes "No Coprocessor"
        ∷ codes "Double Fault"
        ∷ codes "Coprocessor Segment Overrun"
        ∷ codes "Bad TSS"
        ∷ codes "Segment Not Present"
        ∷ codes "Stack Fault"
        ∷ codes "General Protection Fault"
        ∷ codes "Page Fault"
        ∷ codes "Unknown Interrupt"
        ∷ codes "Coprocessor Fault"
        ∷ codes "Alignment Check"
        ∷ codes "Machine Check"
        ∷ reserved 13)
      int_no
  where
    reserved : ℕ → List (List ℕ)
    reserved zero = []
    reserved (suc n) = codes "Reserved" ∷ reserved n

-- An interrupt number behind the table would be a read out of range.
unfoldable pub fault_handler : (fuel int_no : ℕ) → Screen → Run Screen
unfolding kernel_panic exception_messages
fault_handler fuel int_no s = elim (exception_messages int_no) [
  | none ↦ faults
  | some message ↦ kernel_panic fuel message s
]
