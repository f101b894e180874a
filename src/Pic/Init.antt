-- ===== src/Pic/Init.antt =====
-- `pic_init` and `pic_restore` of src/pic.c, by what they leave in the controllers.
use dug_os.Common.{ℕ, ◌%◌, ◌≡◌, refl, ◌∙◌, ap, ap₂, [], arith}
use dug_os.Port.{Bus, outb, inb}
use dug_os.Pic.{pic1_data, pic2_data, remap, pic_init, pic_restore}
use dug_os.Pic.Mask.{IsReady, inb-mask, inb-keeps}
use dug_os.Pic.Chip.{Chip, ready, Which, master, slave, Pair, chip-outb, chip-send_all, written}

abbrev pub vectors : ℕ → ℕ → Which → ℕ
vectors a b master = a
vectors a b slave = b

abbrev pub fresh_chip : ℕ → ℕ → Chip
fresh_chip base mask = record { stage = ready; base = base; mask = mask; in_service = [] }

module _ {S : Type 0} (bus : Bus S) (pics : Pair bus) where
  chip-remap :
      (a b : ℕ) (w : Which) (s : S)
      → pics.chip w (remap bus a b s) ≡ fresh_chip (vectors (a % 256) (b % 256) w) 0
  chip-remap a b master s =
      chip-send_all bus pics master _ s
        (refl, (refl, (refl, (refl, (refl, (refl, (refl, (refl, tt))))))))
  chip-remap a b slave s =
      chip-send_all bus pics slave _ s
        (refl, (refl, (refl, (refl, (refl, (refl, (refl, (refl, tt))))))))

  own :
      (w : Which) (s : S)
      → vectors ((pics.chip master s).mask % 256) ((pics.chip slave s).mask % 256) w
        ≡ (pics.chip w s).mask
  own master s = omega (arith, pics.mask_size master s)
  own slave s = omega (arith, pics.mask_size slave s)

  -- The two masks behind an initialization.
  chip-masks :
      (a b m n : ℕ) (w : Which) (s : S)
      → pics.chip w (outb bus pic2_data n (outb bus pic1_data m (remap bus a b s)))
        ≡ fresh_chip (vectors (a % 256) (b % 256) w) (vectors (m % 256) (n % 256) w)
  chip-masks a b m n master s =
      let begun = remap bus a b s in
      let one = chip-outb bus pics master pic1_data m begun refl in
      let two = chip-outb bus pics master pic2_data n (outb bus pic1_data m begun) refl in
      two
      ∙ ap (written master pic2_data (n % 256))
          (one ∙ ap (written master pic1_data (m % 256)) (chip-remap a b master s))
  chip-masks a b m n slave s =
      let begun = remap bus a b s in
      let one = chip-outb bus pics slave pic1_data m begun refl in
      let two = chip-outb bus pics slave pic2_data n (outb bus pic1_data m begun) refl in
      two
      ∙ ap (written slave pic2_data (n % 256))
          (one ∙ ap (written slave pic1_data (m % 256)) (chip-remap a b slave s))

  -- `pic_restore` brings both controllers, in whatever state they are, to the BIOS's vectors with every
  -- line masked.
  pub pic_restore_lem :
      (w : Which) (s : S) → pics.chip w (pic_restore bus s) ≡ fresh_chip (vectors 0x08 0x70 w) 0xff
  unfolding pic_restore
  pic_restore_lem master s = chip-masks 0x08 0x70 0xff 0xff master s
  pic_restore_lem slave s = chip-masks 0x08 0x70 0xff 0xff slave s

  -- `pic_init`, after the BIOS has set the controllers up: the lines arrive at the vectors from 0x20
  -- and from 0x28, no interrupt is in service, and the masks are what they were.
  pub pic_init_lem :
      (w : Which) (s : S)
      → ((v : Which) → (pics.chip v s).stage ≡ ready)
      → pics.chip w (pic_init bus s).0 ≡ fresh_chip (vectors 0x20 0x28 w) (pics.chip w s).mask
  unfolding pic_init
  pic_init_lem w s h =
      let s1 = (inb bus pic1_data s).1 in
      let s2 = (inb bus pic2_data s1).1 in
      let mask1 = inb-mask bus pics master s h in
      let one = inb-keeps bus pics slave pic1_data s in
      let ready1 : IsReady bus pics s1 =
        λ v. ap (λ c. c.stage) (inb-keeps bus pics v pic1_data s) ∙ h v in
      let mask2 = inb-mask bus pics slave s1 ready1 ∙ ap (λ c. c.mask) one in
      chip-masks 0x20 0x28 (inb bus pic1_data s).0 (inb bus pic2_data s1).0 w s2
      ∙ ap (fresh_chip (vectors 0x20 0x28 w))
          (ap₂ (λ m n. vectors (m % 256) (n % 256) w) mask1 mask2 ∙ own w s)
