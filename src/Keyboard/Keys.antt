-- ===== src/Keyboard/Keys.antt =====
-- What src/keyboard.c makes of scan codes.
use dug_os.Common.{
  ℕ, zero, suc, ◌+◌, ◌-◌, ◌%◌, ◌≡◌, refl, sym, ◌∙◌, Bool, true, false, not, ◌&&◌, ◌||◌, List, [],
  ◌∷◌, ◌++◌, some, ltb, leb, ◌==◌, if◌then◌else◌, if_cases, Bool-cases, inl, inr, ◌↔◌, length,
  get_or, arith,
}
use dug_os.Keyboard.{
  Kbd, buf_size, xor, scancode_normal, scancode_shift, translate, kbd_isr, kbd_has_char, take_char,
  kbd_getchar,
}
use dug_os.Keyboard.Queue.{IsValid, queue, kbd_put-queue, take_char-queue}

-- A make code that types a character: it is neither a break code, nor Shift, nor Caps Lock.
abbrev pub types : ℕ → Kbd → Bool
types sc k =
    not (leb 128 sc)
    && not (sc == 0x2a || sc == 0x36 || sc == 0x3a)
    && not (translate k.shift_held k.caps_lock_on sc == 0)

-- What an interrupt leaves: the queue has one character more if the code types one and there is room,
-- and is as before otherwise.
abbrev pub Handles : ℕ → Kbd → Kbd → Type 0
Handles sc k k' =
    IsValid k'
    × (queue k' ≡ (
        if types sc k && ltb (length (queue k)) (buf_size - 1)
        then queue k ++ translate k.shift_held k.caps_lock_on sc ∷ []
        else queue k))

-- With the indices in the ring, an interrupt with any scan code appends the character that the code types
-- under the modifiers at that moment, if there is room, leaves the waiting characters as they are, and
-- keeps the indices in the ring.
pub kbd_isr-queue : (sc : ℕ) (k : Kbd) → IsValid k → Handles sc k (kbd_isr sc k)
unfolding kbd_isr
kbd_isr-queue sc k v =
    let c = translate k.shift_held k.caps_lock_on sc in
    let P : Kbd → Type 0 = Handles sc k in
    let same : types sc k ≡ false → P k = λ silent. (v, rw silent refl) in
    let modifier : (k' : Kbd)
        → k'.buf ≡ k.buf
        → k'.head ≡ k.head
        → k'.tail ≡ k.tail
        → types sc k ≡ false
        → P k' =
      λ k' b h t silent. (
        record { size = rw b v.size; head_in = rw h v.head_in; tail_in = rw t v.tail_in },
        rw (b, h, t, silent) refl,
      ) in
    if_cases P (leb 128 sc) _ _
      (λ release.
        if_cases P (sc % 128 == 0x2a || sc % 128 == 0x36) _ _
          (λ shift. modifier (record k { shift_held = false }) refl refl refl (rw release refl))
          (λ other. same (rw release refl)))
      (λ press.
        if_cases P (sc == 0x2a || sc == 0x36) _ _
          (λ shift. modifier (record k { shift_held = true }) refl refl refl (ground arith))
          (λ no_shift.
            if_cases P (sc == 0x3a) _ _
              (λ caps.
                modifier (record k { caps_lock_on = not k.caps_lock_on }) refl refl refl
                  (ground arith))
              (λ no_caps.
                if_cases P (c == 0) _ _ (λ nothing. same (ground arith))
                  (λ typed.
                    let put = kbd_put-queue c k v in
                    let typing : types sc k ≡ true = ground arith in (put.0, rw typing put.1)))))

abbrev pub is_lower : ℕ → Bool
is_lower c = leb b'a' c && leb c b'z'

-- Where one table has a small letter, the other has its capital.
abbrev capitals : List ℕ → List ℕ → Bool
capitals [] ys = true
capitals (x ∷ xs) [] = true
capitals (x ∷ xs) (y ∷ ys) = (if is_lower x then y + 32 == x else true) && capitals xs ys

capitals-get_or :
    (xs ys : List ℕ) (i : ℕ)
    → capitals xs ys ≡ true
    → length xs ≡ length ys
    → is_lower (get_or xs i 0) ≡ true
    → get_or ys i 0 + 32 ≡ get_or xs i 0
capitals-get_or [] ys i all size lower = absurd (ground arith)
capitals-get_or (x ∷ xs) [] i all size lower = absurd (ground arith)
capitals-get_or (x ∷ xs) (y ∷ ys) zero all size lower = ground arith
capitals-get_or (x ∷ xs) (y ∷ ys) (suc i) all size lower =
    capitals-get_or xs ys i (ground arith) (ground arith) lower

-- On a letter key the Shift key makes no difference: the table of shifted keys has the capital, and the
-- test of Caps Lock turns it back into the small letter.
pub translate_letter :
    (caps : Bool) (sc : ℕ)
    → is_lower (get_or scancode_normal sc 0) ≡ true
    → translate true caps sc ≡ translate false caps sc
unfolding translate
translate_letter caps sc lower =
    let pair = capitals-get_or scancode_normal scancode_shift sc refl refl lower in
    cases caps (get_or scancode_normal sc 0) (get_or scancode_shift sc 0) lower pair
  where
    shown : Bool → Bool → ℕ → ℕ
    shown shift caps c =
        if leb b'a' c && leb c b'z'
        then if xor caps shift then c - b'a' + b'A' else c
        else if leb b'A' c && leb c b'Z'
        then if xor caps shift then c - b'A' + b'a' else c
        else c

    cases :
        (caps : Bool) (x y : ℕ)
        → is_lower x ≡ true
        → y + 32 ≡ x
        → shown true caps y ≡ shown false caps x
    cases true x y lower pair = ground arith
    cases false x y lower pair = ground arith

-- If a character waits, `kbd_getchar` does not halt.
kbd_getchar_ready :
    (k : Kbd) (codes : List ℕ)
    → kbd_has_char k ≡ true
    → kbd_getchar k codes ≡ some ((take_char k).0, (take_char k).1, codes)
unfolding kbd_getchar
kbd_getchar_ready k [] h = rw h refl
kbd_getchar_ready k (sc ∷ codes) h = rw h refl

-- The flag and the queue agree.
kbd_has_char-queue : (k : Kbd) → IsValid k → ((kbd_has_char k ≡ false) ↔ (queue k ≡ []))
unfolding kbd_has_char
kbd_has_char-queue k v = (
  (λ h.
      let none_wait : (k.head + buf_size - k.tail) % buf_size ≡ 0 =
        (let e : k.head ≡ k.tail = ground arith in omega (arith, v.head_in, v.tail_in)) in
      rw none_wait refl),
  (λ h. elim (Bool-cases (kbd_has_char k)) [
    | inl waits ↦ absurd (let q = (take_char-queue k v waits).1 in let none_wait = sym h ∙ q in cc)
    | inr empty ↦ empty
  ]),
)

-- If no character waits and the very next interrupt types one.
kbd_getchar_next :
    (sc : ℕ) (codes : List ℕ) (k : Kbd)
    → IsValid k
    → queue k ≡ []
    → types sc k ≡ true
    → kbd_getchar k (sc ∷ codes)
      ≡ some (translate k.shift_held k.caps_lock_on sc, (take_char (kbd_isr sc k)).1, codes)
unfolding kbd_getchar
kbd_getchar_next sc codes k v empty typing =
    let k' = kbd_isr sc k in
    let c = translate k.shift_held k.caps_lock_on sc in
    let halts = (kbd_has_char-queue k v).1 empty in
    let handled = kbd_isr-queue sc k v in
    let one : queue k' ≡ c ∷ [] = handled.1 ∙ rw (empty, typing) refl in
    let waits : kbd_has_char k' ≡ true = elim (Bool-cases (kbd_has_char k')) [
      | inl yes_there ↦ yes_there
      | inr none_there ↦
          absurd (let e = sym one ∙ (kbd_has_char-queue k' handled.0).0 none_there in cc)
    ] in
    let first : (take_char k').0 ≡ c =
      (let q = sym (take_char-queue k' handled.0 waits).1 ∙ one in cc) in
    rw halts (kbd_getchar_ready k' codes waits ∙ rw first refl)

-- The state behind the interrupts of these scan codes.
abbrev pub after : List ℕ → Kbd → Kbd
after [] k = k
after (sc ∷ codes) k = after codes (kbd_isr sc k)

-- None of the scan codes types a character, under the modifiers that those before it leave.
abbrev pub AreSilent : List ℕ → Kbd → Type 0
AreSilent [] k = Unit
AreSilent (sc ∷ codes) k = (types sc k ≡ false) × AreSilent codes (kbd_isr sc k)

-- A silent interrupt leaves an empty queue empty, and `kbd_getchar` halts again.
silent_next :
    (sc : ℕ) (codes : List ℕ) (k : Kbd)
    → IsValid k
    → queue k ≡ []
    → types sc k ≡ false
    → IsValid (kbd_isr sc k)
      × (queue (kbd_isr sc k) ≡ [])
      × (kbd_getchar k (sc ∷ codes) ≡ kbd_getchar (kbd_isr sc k) codes)
unfolding kbd_getchar
silent_next sc codes k v empty silent =
    let handled = kbd_isr-queue sc k v in
    let halts = (kbd_has_char-queue k v).1 empty in
    (handled.0, handled.1 ∙ rw (silent) empty, rw (halts) refl)

-- With no character waiting, `kbd_getchar` halts through all interrupts that type nothing, however
-- many, and returns the character of the first one that types one, under the modifiers that the others
-- have set.
pub kbd_getchar_wakes :
    (silent : List ℕ) (sc : ℕ) (codes : List ℕ) (k : Kbd)
    → IsValid k
    → queue k ≡ []
    → AreSilent silent k
    → types sc (after silent k) ≡ true
    → let k' = after silent k in
      kbd_getchar k (silent ++ sc ∷ codes)
      ≡ some (translate k'.shift_held k'.caps_lock_on sc, (take_char (kbd_isr sc k')).1, codes)
kbd_getchar_wakes [] sc codes k v empty quiet typing = kbd_getchar_next sc codes k v empty typing
kbd_getchar_wakes (s ∷ silent) sc codes k v empty quiet typing =
    let next = silent_next s (silent ++ sc ∷ codes) k v empty quiet.0 in
    next.2 ∙ kbd_getchar_wakes silent sc codes (kbd_isr s k) next.0 next.1 quiet.1 typing
