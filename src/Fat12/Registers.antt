-- ===== src/Fat12/Registers.antt =====
-- The registers, masks and commands of the floppy controller, from fat12.h.
use d.Base.{ℕ}

-- `FLPYDSK_IO`.
abbrev pub port_dor : ℕ
port_dor = 0x3f2

abbrev pub port_msr : ℕ
port_msr = 0x3f4

abbrev pub port_fifo : ℕ
port_fifo = 0x3f5

abbrev pub port_ctrl : ℕ
port_ctrl = 0x3f7

-- `FLPYDSK_DOR_MASK`.
abbrev pub dor_reset : ℕ
dor_reset = 4

abbrev pub dor_dma : ℕ
dor_dma = 8

abbrev pub dor_drive0_motor : ℕ
dor_drive0_motor = 16

abbrev pub dor_drive1_motor : ℕ
dor_drive1_motor = 32

abbrev pub dor_drive2_motor : ℕ
dor_drive2_motor = 64

abbrev pub dor_drive3_motor : ℕ
dor_drive3_motor = 128

-- `FLPYDSK_MSR_MASK`.
abbrev pub msr_datareg : ℕ
msr_datareg = 128

-- `FLPYDSK_CMD`.
abbrev pub cmd_specify : ℕ
cmd_specify = 3

abbrev pub cmd_read_sect : ℕ
cmd_read_sect = 6

abbrev pub cmd_calibrate : ℕ
cmd_calibrate = 7

abbrev pub cmd_check_int : ℕ
cmd_check_int = 8

abbrev pub cmd_seek : ℕ
cmd_seek = 0xf

-- `FLPYDSK_CMD_EXT`.
abbrev pub ext_skip : ℕ
ext_skip = 0x20

abbrev pub ext_density : ℕ
ext_density = 0x40

abbrev pub ext_multitrack : ℕ
ext_multitrack = 0x80

-- `FLPYDSK_GAP3_LENGTH` and `FLPYDSK_SECTOR_DTL`.
abbrev pub gap3_length_3_5 : ℕ
gap3_length_3_5 = 27

abbrev pub sector_dtl_512 : ℕ
sector_dtl_512 = 2
