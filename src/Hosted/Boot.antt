-- ===== src/Hosted/Boot.antt =====
-- The tables of dug_os.c, and its boot functions.
use dug_os.Common.{
  ℕ, zero, suc, ◌+◌, ◌-◌, String, List, [], ◌∷◌, get_or, set, replicate, ◌==◌, if◌then◌else◌,
}
use dug_os.Common.Int.{ℤ, pos, negsuc, sub_ℕ}
use dug_os.Strings.{Bytes, codes}
use dug_os.Hosted.{Print, text, num}

abbrev pub nr_tasks : ℕ
nr_tasks = 4

abbrev pub nr_procs : ℕ
nr_procs = 64

abbrev pub nr_sys_procs : ℕ
nr_sys_procs = 32

abbrev pub slot_free : ℕ
slot_free = 0x01

abbrev pub no_map : ℕ
no_map = 0x02

abbrev pub sys_proc : ℕ
sys_proc = 0x10

abbrev pub p_name_len : ℕ
p_name_len = 16

-- `struct proc`
pub record Proc : Type 0 where
  pub p_nr : ℤ
  pub p_rts_flags : ℕ
  pub p_priority : ℕ
  pub p_quantum_size : ℕ
  pub p_ticks_left : ℕ
  pub p_name : Bytes

-- `struct priv`
pub record Priv : Type 0 where
  pub s_proc_nr : ℤ
  pub s_id : ℕ
  pub s_flags : ℕ

-- `struct boot_image`
pub record HostImage : Type 0 where
  pub proc_nr : ℤ
  pub priority : ℕ
  pub quantum : ℕ
  pub flags : ℕ
  pub proc_name : String

abbrev pub host_image : List HostImage
host_image =
    record {
      proc_nr = negsuc 3;
      priority = 0;
      quantum = 0;
      flags = sys_proc;
      proc_name = "HARDWARE";
    }
    ∷ record {
      proc_nr = negsuc 2;
      priority = 1;
      quantum = 10;
      flags = sys_proc;
      proc_name = "IDLE";
    }
    ∷ record {
      proc_nr = negsuc 1;
      priority = 2;
      quantum = 10;
      flags = sys_proc;
      proc_name = "CLOCK";
    }
    ∷ record {
      proc_nr = negsuc 0;
      priority = 2;
      quantum = 10;
      flags = sys_proc;
      proc_name = "SYSTEM";
    }
    ∷ record { proc_nr = pos 0; priority = 3; quantum = 10; flags = sys_proc; proc_name = "PM" }
    ∷ record { proc_nr = pos 1; priority = 3; quantum = 10; flags = sys_proc; proc_name = "FS" }
    ∷ record { proc_nr = pos 2; priority = 3; quantum = 10; flags = sys_proc; proc_name = "TTY" }
    ∷ record { proc_nr = pos 3; priority = 4; quantum = 10; flags = 0; proc_name = "INIT" }
    ∷ []

abbrev pub zero_proc : Proc
zero_proc = record {
  p_nr = pos 0;
  p_rts_flags = 0;
  p_priority = 0;
  p_quantum_size = 0;
  p_ticks_left = 0;
  p_name = replicate p_name_len 0;
}

abbrev pub zero_priv : Priv
zero_priv = record { s_proc_nr = pos 0; s_id = 0; s_flags = 0 }

-- The static tables when the program starts.
abbrev pub bss_procs : List Proc
bss_procs = replicate (nr_tasks + nr_procs) zero_proc

abbrev pub bss_privs : List Priv
bss_privs = replicate nr_sys_procs zero_priv

-- `strncpy` into an array of `n` bytes.
unfoldable pub strncpy : ℕ → Bytes → Bytes
strncpy zero s = []
strncpy (suc n) [] = 0 ∷ strncpy n []
strncpy (suc n) (c ∷ s) = c ∷ strncpy n s

-- `boot_proc_table`, on the slots from the one with this index on.
unfoldable pub clear_procs : ℕ → List Proc → List Proc
clear_procs i [] = []
clear_procs i (p ∷ procs) =
    record p { p_rts_flags = slot_free; p_nr = sub_ℕ i nr_tasks } ∷ clear_procs (i + 1) procs

-- `boot_priv_table`, on the slots from the one with this index on.
unfoldable pub clear_privs : ℕ → List Priv → List Priv
clear_privs i [] = []
clear_privs i (p ∷ privs) = record p { s_proc_nr = negsuc 0; s_id = i } ∷ clear_privs (i + 1) privs

-- `NR_TASKS + ip->proc_nr`
abbrev pub slot_of : ℤ → ℕ
slot_of (pos n) = nr_tasks + n
slot_of (negsuc n) = nr_tasks - (n + 1)

-- `rp->p_nr == HARDWARE`
abbrev pub boot_flags : ℤ → ℕ
boot_flags (pos n) = 0
boot_flags (negsuc n) = if n == 3 then no_map else 0

-- The loop of `boot_image_init`.
unfoldable pub load_images : List HostImage → List Proc → List Proc
unfolding strncpy
load_images [] procs = procs
load_images (ip ∷ images) procs = load_images images (
    set procs (slot_of ip.proc_nr) (record {
      p_nr = ip.proc_nr;
      p_priority = ip.priority;
      p_quantum_size = ip.quantum;
      p_ticks_left = ip.quantum;
      p_name = strncpy p_name_len (codes ip.proc_name);
      p_rts_flags = boot_flags ip.proc_nr;
    }))

-- The three boot functions on the tables.
unfoldable pub host_boot : List Proc × List Priv → List Proc × List Priv
unfolding clear_procs clear_privs load_images
host_boot (procs, privs) = (load_images host_image (clear_procs 0 procs), clear_privs 0 privs)

-- What `intr_init` prints.
unfoldable pub intr_init : ℕ → List Print
intr_init minit =
    if minit == 0
    then text "  [kernel] intr_init: restoring BIOS defaults ... OK\n" ∷ []
    else text "  [kernel] intr_init: remapping 8259A PIC ... OK\n"
      ∷ text "  [kernel] IRQs 0-7  -> vectors 0x20-0x27\n"
      ∷ text "  [kernel] IRQs 8-15 -> vectors 0x28-0x2F\n"
      ∷ []

-- What the boot functions and `announce` print.
unfoldable pub host_boot_text : List Print
host_boot_text =
    text "  [kernel] proc_table: "
    ∷ num (pos (nr_tasks + nr_procs))
    ∷ text " slots cleared ... OK\n"
    ∷ text "  [kernel] priv_table: "
    ∷ num (pos nr_sys_procs)
    ∷ text " slots cleared ... OK\n"
    ∷ text "  [kernel] boot_image: "
    ∷ num (pos 8)
    ∷ text " processes loaded  ... OK\n"
    ∷ text "  [kernel] DugOS v1.0 -- Built on MINIX 3.1.0 concepts\n"
    ∷ text "  [kernel] Executing in 32-bit protected mode.\n"
    ∷ []

-- `proc_table[i]` and `priv_table[i]` behind the boot.
abbrev pub booted_proc : ℕ → Proc
booted_proc i = get_or (host_boot (bss_procs, bss_privs)).0 i zero_proc

abbrev pub booted_priv : ℕ → Priv
booted_priv i = get_or (host_boot (bss_procs, bss_privs)).1 i zero_priv
