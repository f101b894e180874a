-- ===== src/Pic/Mask.antt =====
-- `pic_mask` and `pic_unmask` of src/pic.c: they set and clear the mask bit of one line.
use Prim.Native.Nat.{bit_and, bit_or}
use dug_os.Common.{
  ℕ, ◌-◌, ◌%◌, ◌<◌, ◌≡◌, refl, ap, ◌∙◌, Bool, true, false, arith, ltb, ◌==◌, if◌then◌else◌,
  if_cases, ◌≤◌, Bool-cases, inl, inr,
}
use dug_os.Port.{Bus, outb, inb}
use dug_os.Pic.{pic1_data, pic2_data, line_bit, line_hole, pic_mask, pic_unmask}
use dug_os.Pic.Bits.{bit, bit-bit_or, bit-bit_and}
use dug_os.Pic.Chip.{Chip, ready, Which, master, slave, data_of, Pair, chip-outb}

module _ {S : Type 0} (bus : Bus S) (pics : Pair bus) where
  abbrev pub IsReady : S → Type 0
  IsReady s = (w : Which) → (pics.chip w s).stage ≡ ready

  -- What the two functions do, with the byte that they write.
  abbrev pub rewrite : (ℕ → ℕ) → Which → S → S
  rewrite f w s = outb bus (data_of w) (f (inb bus (data_of w) s).0) (inb bus (data_of w) s).1

  pub inb-mask : (w : Which) (s : S) → IsReady s → (inb bus (data_of w) s).0 ≡ (pics.chip w s).mask
  unfolding inb
  inb-mask master s h =
      let low = pics.mask_size master s in
      let got = pics.reads master s (h master) in rw (got) (omega arith)
  inb-mask slave s h =
      let low = pics.mask_size slave s in
      let got = pics.reads slave s (h slave) in rw (got) (omega arith)

  pub inb-keeps : (w : Which) (port : ℕ) (s : S) → pics.chip w (inb bus port s).1 ≡ pics.chip w s
  unfolding inb
  inb-keeps w port s = pics.keeps w (port % 65536) s

  -- It sets the mask of its controller, and leaves the other.
  pub chip-rewrite_self :
      (f : ℕ → ℕ) (w : Which) (s : S)
      → IsReady s
      → pics.chip w (rewrite f w s) ≡ record (pics.chip w s) { mask = f (pics.chip w s).mask % 256 }
  chip-rewrite_self f master s h =
      let out =
        chip-outb bus pics master pic1_data (f (inb bus pic1_data s).0) (inb bus pic1_data s).1
          refl in
      rw (out, inb-mask master s h, inb-keeps master pic1_data s, h master) refl
  chip-rewrite_self f slave s h =
      let out =
        chip-outb bus pics slave pic2_data (f (inb bus pic2_data s).0) (inb bus pic2_data s).1
          refl in
      rw (out, inb-mask slave s h, inb-keeps slave pic2_data s, h slave) refl

  pub chip-rewrite_master :
      (f : ℕ → ℕ) (s : S) → pics.chip slave (rewrite f master s) ≡ pics.chip slave s
  chip-rewrite_master f s =
      chip-outb bus pics slave pic1_data (f (inb bus pic1_data s).0) (inb bus pic1_data s).1 refl
      ∙ inb-keeps slave pic1_data s

  pub chip-rewrite_slave :
      (f : ℕ → ℕ) (s : S) → pics.chip master (rewrite f slave s) ≡ pics.chip master s
  chip-rewrite_slave f s =
      chip-outb bus pics master pic2_data (f (inb bus pic2_data s).0) (inb bus pic2_data s).1 refl
      ∙ inb-keeps master pic2_data s

  -- Whether the controllers hold a line back.
  abbrev pub line_masked : ℕ → S → Bool
  line_masked irq s =
      if ltb irq 8
      then bit (pics.chip master s).mask irq
      else bit (pics.chip slave s).mask (irq - 8)

  -- A function of this kind that changes one bit of a byte to `b` changes one line.
  module _ (f : ℕ → ℕ → ℕ) (b : Bool)
      (bits : (n k v : ℕ)
        → n < 8
        → k < 8
        → v < 256
        → bit (f n v % 256) k ≡ (if n == k then b else bit v k)) where
    line_master :
        (i j : ℕ) (s : S)
        → IsReady s
        → i < 8
        → j < 16
        → line_masked j (rewrite (f i) master s) ≡ (if i == j then b else line_masked j s)
    line_master i j s h li lj = elim (Bool-cases (ltb j 8)) [
      | inl low ↦
          let one =
            bits i j (pics.chip master s).mask li (ground arith) (pics.mask_size master s) in
          let here = chip-rewrite_self (f i) master s h in rw (low, here, one) refl
      | inr high ↦
          let there = chip-rewrite_master (f i) s in
          let other : (i == j) ≡ false = ground arith in rw (high, there, other) refl
    ]

    line_slave :
        (i j : ℕ) (s : S)
        → IsReady s
        → 8 ≤ i
        → i < 16
        → j < 16
        → line_masked j (rewrite (f (i - 8)) slave s) ≡ (if i == j then b else line_masked j s)
    line_slave i j s h hi li lj = elim (Bool-cases (ltb j 8)) [
      | inl low ↦
          let there = chip-rewrite_slave (f (i - 8)) s in
          let other : (i == j) ≡ false = ground arith in rw (low, there, other) refl
      | inr high ↦
          let one =
            bits (i - 8) (j - 8) (pics.chip slave s).mask (omega arith) (ground arith)
              (pics.mask_size slave s) in
          let here = chip-rewrite_self (f (i - 8)) slave s h in
          let lines : (i - 8 == j - 8) ≡ (i == j) = ground arith in rw (high, here, one, lines) refl
    ]

    -- both controllers
    line_of_either :
        (i j : ℕ) (s : S)
        → IsReady s
        → i < 16
        → j < 16
        → line_masked j (if ltb i 8 then rewrite (f i) master s else rewrite (f (i - 8)) slave s)
          ≡ (if i == j then b else line_masked j s)
    line_of_either i j s h li lj =
        if_cases (λ s'. line_masked j s' ≡ (if i == j then b else line_masked j s)) (ltb i 8) _ _
          (λ low. line_master i j s h (ground arith) lj)
          (λ high. line_slave i j s h (ground arith) li lj)

    -- what does not look at the mask
    rewrite_keeps :
        {X : Type 0} (g : Chip → X)
        → ((c : Chip) (m : ℕ) → g (record c { mask = m }) ≡ g c)
        → (n : ℕ) (w v : Which) (s : S) → IsReady s
        → g (pics.chip v (rewrite (f n) w s)) ≡ g (pics.chip v s)
    rewrite_keeps g blind n master master s h =
        ap g (chip-rewrite_self (f n) master s h) ∙ blind _ _
    rewrite_keeps g blind n slave slave s h = ap g (chip-rewrite_self (f n) slave s h) ∙ blind _ _
    rewrite_keeps g blind n master slave s h = ap g (chip-rewrite_master (f n) s)
    rewrite_keeps g blind n slave master s h = ap g (chip-rewrite_slave (f n) s)

    either_keeps :
        {X : Type 0} (g : Chip → X)
        → ((c : Chip) (m : ℕ) → g (record c { mask = m }) ≡ g c)
        → (i : ℕ) (v : Which) (s : S) → IsReady s
        → g (pics.chip v (if ltb i 8 then rewrite (f i) master s else rewrite (f (i - 8)) slave s))
          ≡ g (pics.chip v s)
    either_keeps g blind i v s h =
        if_cases (λ s'. g (pics.chip v s') ≡ g (pics.chip v s)) (ltb i 8) _ _
          (λ low. rewrite_keeps g blind i master v s h)
          (λ high. rewrite_keeps g blind (i - 8) slave v s h)

    pub rewrite_line :
        (i j : ℕ) (s : S)
        → IsReady s
        → i < 16
        → j < 16
        → (s' : S) → s' ≡ (if ltb i 8 then rewrite (f i) master s else rewrite (f (i - 8)) slave s)
        → IsReady s'
          × ((v : Which) → (pics.chip v s').base ≡ (pics.chip v s).base)
          × (line_masked j s' ≡ (if i == j then b else line_masked j s))
    rewrite_line i j s h li lj s' e = rw (e) (
      λ v. either_keeps (λ c. c.stage) (λ c m. refl) i v s h ∙ h v,
      λ v. either_keeps (λ c. c.base) (λ c m. refl) i v s h,
      line_of_either i j s h li lj,
    )

  -- `pic_mask` holds back exactly the line that it is given: every other line, on both controllers, is
  -- masked as it was, and the vectors stay.
  pub pic_mask_lem :
      (i j : ℕ) (s : S)
      → IsReady s
      → i < 16
      → j < 16
      → IsReady (pic_mask bus i s)
        × ((v : Which) → (pics.chip v (pic_mask bus i s)).base ≡ (pics.chip v s).base)
        × (line_masked j (pic_mask bus i s) ≡ (if i == j then true else line_masked j s))
  unfolding pic_mask
  pic_mask_lem i j s h li lj =
      rewrite_line (λ n v. bit_or v (line_bit n)) true bit-bit_or i j s h li lj _ (ground arith)

  -- `pic_unmask` lets exactly the line through that it is given: every other line, on both controllers, is
  -- masked as it was, and the vectors stay.
  pub pic_unmask_lem :
      (i j : ℕ) (s : S)
      → IsReady s
      → i < 16
      → j < 16
      → IsReady (pic_unmask bus i s)
        × ((v : Which) → (pics.chip v (pic_unmask bus i s)).base ≡ (pics.chip v s).base)
        × (line_masked j (pic_unmask bus i s) ≡ (if i == j then false else line_masked j s))
  unfolding pic_unmask
  pic_unmask_lem i j s h li lj =
      rewrite_line (λ n v. bit_and v (line_hole n)) false bit-bit_and i j s h li lj _ (ground arith)
