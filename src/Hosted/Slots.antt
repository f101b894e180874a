-- ===== src/Hosted/Slots.antt =====
-- The tables of dug_os.c behind its boot functions.
use dug_os.Common.{
  ℕ, zero, suc, ◌+◌, ◌<◌, ◌≤◌, ◌≡◌, refl, ap, ◌∙◌, List, [], ◌∷◌, get_or, replicate, take, map,
  length, length-replicate, ltb, ◌==◌, if◌then◌else◌, arith,
}
use dug_os.Common.Int.{negsuc, sub_ℕ}
use dug_os.Strings.{codes}
use dug_os.Hosted.Boot.{
  Proc, Priv, nr_tasks, nr_procs, nr_sys_procs, slot_free, no_map, p_name_len, host_image,
  zero_proc, zero_priv, bss_procs, bss_privs, strncpy, clear_procs, clear_privs, host_boot,
  booted_proc, booted_priv,
}

clear_procs_at :
    (k i : ℕ) (procs : List Proc)
    → i < length procs
    → ((get_or (clear_procs k procs) i zero_proc).p_nr ≡ sub_ℕ (k + i) nr_tasks)
      × ((get_or (clear_procs k procs) i zero_proc).p_rts_flags ≡ slot_free)
unfolding clear_procs
clear_procs_at k i [] h = absurd (omega arith)
clear_procs_at k zero (p ∷ procs) h = let same : k + 0 ≡ k = omega arith in rw (same) (refl, refl)
clear_procs_at k (suc i) (p ∷ procs) h =
    let next : k + suc i ≡ k + 1 + i = omega arith in
    rw (next) (clear_procs_at (k + 1) i procs (omega arith))

clear_privs_at :
    (k i : ℕ) (privs : List Priv)
    → i < length privs
    → ((get_or (clear_privs k privs) i zero_priv).s_id ≡ k + i)
      × ((get_or (clear_privs k privs) i zero_priv).s_proc_nr ≡ negsuc 0)
unfolding clear_privs
clear_privs_at k i [] h = absurd (omega arith)
clear_privs_at k zero (p ∷ privs) h = (omega arith, refl)
clear_privs_at k (suc i) (p ∷ privs) h =
    let next : k + suc i ≡ k + 1 + i = omega arith in
    rw (next) (clear_privs_at (k + 1) i privs (omega arith))

-- What the boot leaves in a slot: the number of the process, and whether the slot is free.
abbrev pub IsBooted : ℕ → Proc → Type 0
IsBooted i p =
    (p.p_nr ≡ sub_ℕ i nr_tasks)
    × (p.p_rts_flags ≡ (if i == 0 then no_map else if ltb i 8 then 0 else slot_free))

late_flags :
    (n : ℕ) → 8 ≤ n → slot_free ≡ (if n == 0 then no_map else if ltb n 8 then 0 else slot_free)
late_flags n h = ground arith

-- Behind the boot each of the 68 slots has the number of its own process, the eight of the boot image
-- are in use under their names with full quanta, only the hardware's has no map, and all others are
-- free; each slot of the privilege table has its own id and no process.
pub host_boot_lem :
    (i : ℕ)
    → ((i < nr_tasks + nr_procs) → IsBooted i (booted_proc i))
      × ((i < nr_sys_procs) → ((booted_priv i).s_id ≡ i) × ((booted_priv i).s_proc_nr ≡ negsuc 0))
      × (map (λ p. p.p_name) (take 8 (host_boot (bss_procs, bss_privs)).0)
          ≡ map (λ ip. strncpy p_name_len (codes ip.proc_name)) host_image)
      × (map (λ p. p.p_ticks_left) (take 8 (host_boot (bss_procs, bss_privs)).0)
          ≡ map (λ ip. ip.quantum) host_image)
unfolding host_boot
host_boot_lem i = (slot i, priv i, refl, refl)
  where
    slot : (i : ℕ) → i < 68 → IsBooted i (booted_proc i)
    slot zero h = (refl, refl)
    slot (suc zero) h = (refl, refl)
    slot (suc (suc zero)) h = (refl, refl)
    slot (suc (suc (suc zero))) h = (refl, refl)
    slot (suc (suc (suc (suc zero)))) h = (refl, refl)
    slot (suc (suc (suc (suc (suc zero))))) h = (refl, refl)
    slot (suc (suc (suc (suc (suc (suc zero)))))) h = (refl, refl)
    slot (suc (suc (suc (suc (suc (suc (suc zero))))))) h = (refl, refl)
    slot (suc (suc (suc (suc (suc (suc (suc (suc i)))))))) h =
        let free =
          clear_procs_at 8 i (replicate 60 zero_proc)
            (omega (arith, length-replicate 60 zero_proc)) in
        let next : 8 + i ≡ suc (suc (suc (suc (suc (suc (suc (suc i))))))) = omega arith in
        (
          free.0 ∙ ap (λ n. sub_ℕ n nr_tasks) next,
          free.1
              ∙ late_flags (8 + i) (omega arith)
              ∙ ap (λ n. if n == 0 then no_map else if ltb n 8 then 0 else slot_free) next,
        )

    priv : (i : ℕ) → i < 32 → ((booted_priv i).s_id ≡ i) × ((booted_priv i).s_proc_nr ≡ negsuc 0)
    priv i h =
        let at =
          clear_privs_at 0 i bss_privs (omega (arith, length-replicate nr_sys_procs zero_priv)) in
        (at.0 ∙ omega arith, at.1)
