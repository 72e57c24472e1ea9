-- ===== src/Boot.antt =====
-- Start-up: `entry` of chapOS/student-distrib/kernel.c, with the structures of multiboot.h in memory.
-- `printf` finds its arguments at `esp` and its buffer at `conv`; a format lies at `lit` of its text.
pub mod Startup
pub mod Refused
use Prim.Native.String.{String}
use chap_os.Common.{
  ℕ, zero, suc, ◌+◌, ◌-◌, ◌*◌, ◌/◌, ◌%◌, ◌^◌, ◌&&◌, Bool, not, Option, none, some, List, [], ◌∷◌,
  ltb, ◌==◌, if◌then◌else◌, ◌>>=◌, Mem, load32, codes,
}
use chap_os.Block.{store32}
use chap_os.Pic.{Devices, i8259_init, sti}
use chap_os.Rtc.{rtc_init}
use chap_os.Scheduler.{pit_init}
use chap_os.Paging.{Layout, initialize_paging}
use chap_os.Screen.{Display, clear}
use chap_os.Screen.Printf.{with_mem, printf}
use chap_os.FileSys.{file_sys_init}
use chap_os.Keyboard.{Console, Control, open_keyboard}
use chap_os.Keyboard.Terminal.{init_terminals}
use chap_os.Process.{Kernel, on_console, on_io, rtc_of, set_rtc}
use chap_os.Segments.{SegDesc, ldt_descriptor, tss_descriptor}

-- `CHECK_FLAG (mbi->flags, bit)`
abbrev pub check_flag : Display → ℕ → ℕ → Bool
check_flag d mbi bit = load32 d.mem mbi / 2 ^ bit % 2 == 1

-- `mbi->mmap_addr + mbi->mmap_length`
abbrev pub map_end : Display → ℕ → ℕ
map_end d mbi = (load32 d.mem (mbi + 48) + load32 d.mem (mbi + 44)) % 2 ^ 32

-- The arguments of a call, pushed below one another.
abbrev pub push_args : ℕ → List ℕ → Mem → Mem
push_args esp [] m = m
push_args esp (v ∷ vs) m = push_args (esp + 4) vs (store32 m esp v)

-- A `char` as the `int` that it is passed as.
abbrev pub promoted : ℕ → ℕ
promoted c = if ltb c 128 then c else 2 ^ 32 - 256 + c

-- Whether `entry` goes on.
pub data Checked : Type 0 where
  refused accepted : Checked

module _ (fuel conv esp : ℕ) (lit : List ℕ → ℕ) where
  unfoldable pub print : String → List ℕ → Display → Option Display
  print format args d =
      printf fuel conv (lit (codes format)) esp (with_mem (push_args esp args d.mem) d) >>= λ r.
      some r.1

  abbrev pub print_if : Bool → String → List ℕ → Display → Option Display
  print_if test format args d = if test then print format args d else some d

  -- `for(i = 0; i<16; i++)`, for `left` more bytes from `i` on.
  unfoldable pub print_bytes : (left : ℕ) → ℕ → ℕ → Display → Option Display
  print_bytes zero i mod_start d = some d
  print_bytes (suc left) i mod_start d =
      print "0x%x " (promoted (d.mem (mod_start + i)) ∷ []) d >>= print_bytes left (i + 1) mod_start

  -- `while(mod_count < mbi->mods_count)`, for `left` more modules.
  unfoldable pub print_modules : (left : ℕ) → ℕ → ℕ → Display → Option Display
  print_modules zero mod_count module_at d = some d
  print_modules (suc left) mod_count module_at d = do
    let mod_start = load32 d.mem module_at
    d1 ← print "Module %d loaded at address: 0x%#x\n" (mod_count ∷ mod_start ∷ []) d
    d2 ←
        print "Module %d ends at address: 0x%#x\n" (mod_count ∷ load32 d1.mem (module_at + 4) ∷ [])
          d1
    d3 ← print "First few bytes of module:\n" [] d2
    d4 ← print_bytes 16 0 mod_start d3
    d5 ← print "\n" [] d4
    print_modules left (mod_count + 1) (module_at + 16) d5

  -- The loop over the memory map, for at most `rounds` entries.
  unfoldable pub print_map : (rounds : ℕ) → (mbi mmap : ℕ) → Display → Option Display
  print_map zero mbi mmap d = none
  print_map (suc rounds) mbi mmap d =
      let size = load32 d.mem mmap in
      let printed =
        print " size = 0x%x,     base_addr = 0x%#x%#x\n     type = 0x%x,  length    = 0x%#x%#x\n"
          (size
            ∷ load32 d.mem (mmap + 8)
            ∷ load32 d.mem (mmap + 4)
            ∷ load32 d.mem (mmap + 20)
            ∷ load32 d.mem (mmap + 16)
            ∷ load32 d.mem (mmap + 12)
            ∷ [])
          d
        >>= print_map rounds mbi ((mmap + size + 4) % 2 ^ 32) in
      if ltb mmap (map_end d mbi) then printed else some d

  -- From `clear` to the descriptors: what the boot loader says, printed.
  unfoldable pub boot_information : (magic mbi : ℕ) → Display → Option (Checked × Display)
  boot_information magic mbi start = do
    let d = clear start
    if not (magic == 0x2BADB002)
        then (do d1 ← print "Invalid magic number: 0x%#x\n" (magic ∷ []) d; some (refused, d1))
        else (do
          d1 ← print "flags = 0x%#x\n" (load32 d.mem mbi ∷ []) d
          d2 ←
              print_if (check_flag d1 mbi 0) "mem_lower = %uKB, mem_upper = %uKB\n"
                (load32 d1.mem (mbi + 4) ∷ load32 d1.mem (mbi + 8) ∷ []) d1
          d3 ←
              print_if (check_flag d2 mbi 1) "boot_device = 0x%#x\n" (load32 d2.mem (mbi + 12) ∷ [])
                d2
          d4 ← print_if (check_flag d3 mbi 2) "cmdline = %s\n" (load32 d3.mem (mbi + 16) ∷ []) d3
          d5 ←
              (if check_flag d4 mbi 3
                then print_modules (load32 d4.mem (mbi + 20)) 0 (load32 d4.mem (mbi + 24)) d4
                else some d4)
          if check_flag d5 mbi 4 && check_flag d5 mbi 5
              then (do d6 ← print "Both bits 4 and 5 are set.\n" [] d5; some (refused, d6))
              else (do
                d6 ←
                    print_if (check_flag d5 mbi 5)
                      "elf_sec: num = %u, size = 0x%#x, addr = 0x%#x, shndx = 0x%#x\n"
                      (load32 d5.mem (mbi + 28)
                        ∷ load32 d5.mem (mbi + 32)
                        ∷ load32 d5.mem (mbi + 36)
                        ∷ load32 d5.mem (mbi + 40)
                        ∷ [])
                      d5
                d7 ←
                    print_if (check_flag d6 mbi 6) "mmap_addr = 0x%#x, mmap_length = 0x%x\n"
                      (load32 d6.mem (mbi + 48) ∷ load32 d6.mem (mbi + 44) ∷ []) d6
                d8 ←
                    (if check_flag d7 mbi 6
                      then print_map fuel mbi (load32 d7.mem (mbi + 48)) d7
                      else some d7)
                some (accepted, d8)))

-- What is set up: the kernel, and the two descriptors in the descriptor table.
pub record Started : Type 0 where
  pub kernel : Kernel
  pub ldt_desc : SegDesc
  pub tss_desc : SegDesc
  pub ldt_segment_selector : ℕ

-- `i8259_init`, `rtc_init`, `pit_init` and `open_keyboard`.
unfoldable pub init_devices : Devices → Kernel → Kernel
init_devices devices k =
    let k1 = on_io i8259_init k in
    let k2 = on_io pit_init (set_rtc (rtc_init devices (rtc_of k1)) k1) in
    on_console (λ c. (open_keyboard c).1) k2

abbrev pub on_display : (Display → Display) → Kernel → Kernel
on_display f k = on_console (λ c. record c { display = f c.display }) k

-- The addresses that the linker gives, and the bytes of the local descriptors.
pub record Places : Type 0 where
  pub ldt : ℕ
  pub ldt_size : ℕ
  pub tss : ℕ
  pub tss_size : ℕ
  pub ldt_bytes : SegDesc
  pub tss_bytes : SegDesc

module _ (devices : Devices) (layout : Layout) (fuel conv esp : ℕ) (lit : List ℕ → ℕ) where
  -- From the descriptors to the terminals, once the boot information has been printed.
  unfoldable pub start : Places → ℕ → Kernel → Option (Started × Control)
  start places mbi k = do
    let k1 = record k { tss_ss0 = 0x18; tss_esp0 = 0x800000 }
    r ←
        file_sys_init conv
          (load32 k1.console.display.mem (load32 k1.console.display.mem (mbi + 24)))
          k1.console.display
    let k2 = record (on_display (λ _. r.1) k1) { fs = r.0 }
    let k3 = init_devices devices k2
    d ← print fuel conv esp lit "Enabling Interrupts\n" [] k3.console.display
    let k4 = on_io sti (on_display (λ _. d) k3)
    let k5 = on_console (λ c. record c { paging = initialize_paging layout c.paging }) k4
    t ← init_terminals layout k5.console
    some (
      record {
        kernel = on_console (λ _. t.1) k5;
        ldt_desc = ldt_descriptor places.ldt places.ldt_size places.ldt_bytes;
        tss_desc = tss_descriptor places.tss places.tss_size places.tss_bytes;
        ldt_segment_selector = 0x38;
      },
      t.0,
    )

  -- `entry`, up to the shell that the terminals start.
  unfoldable pub entry :
      Places → (magic addr : ℕ) → Kernel → Option (Option (Started × Control) × Kernel)
  entry places magic addr k = do
    r ← boot_information fuel conv esp lit magic addr k.console.display
    let k1 = on_display (λ _. r.1) k
    elim r.0 [
      | refused ↦ some (none, k1)
      | accepted ↦ do s ← start places addr k1; some (some s, s.0.kernel)
    ]
