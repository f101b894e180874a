-- ===== src/Keyboard/Queue.antt =====
-- The ring buffer of src/keyboard.c as a bounded queue.
use dug_os.Common.{
  ℕ, zero, suc, ◌+◌, ◌-◌, ◌%◌, ◌<◌, ◌≡◌, refl, ap, ap₂, ◌∙◌, ◌≢◌, true, false, not, List, [], ◌∷◌,
  ◌++◌, ltb, ◌==◌, if◌then◌else◌, if_cases, length, get_or, set, length-set, get_or-set_self,
  get_or-set_ne, arith,
}
use dug_os.Keyboard.{Kbd, buf_size, kbd_put, take_char, kbd_has_char}

-- `n` characters of the ring from `t` on.
abbrev pub read : List ℕ → ℕ → ℕ → List ℕ
read buf t zero = []
read buf t (suc n) = get_or buf t 0 ∷ read buf ((t + 1) % buf_size) n

pub length-read : (buf : List ℕ) (t n : ℕ) → length (read buf t n) ≡ n
length-read buf t zero = refl
length-read buf t (suc n) = ap suc (length-read buf ((t + 1) % buf_size) n)

-- How many characters are waiting, and which.
abbrev pub count : Kbd → ℕ
count k = (k.head + buf_size - k.tail) % buf_size

abbrev pub queue : Kbd → List ℕ
queue k = read k.buf k.tail (count k)

-- The indices are in the ring.
pub record IsValid (k : Kbd) : Type 0 where
  pub size : length k.buf ≡ buf_size
  pub head_in : k.head < buf_size
  pub tail_in : k.tail < buf_size

-- A write outside of what is read does not matter.
read-set_out :
    (buf : List ℕ) (t n h c : ℕ)
    → t < buf_size
    → n < buf_size
    → h ≡ (t + n) % buf_size
    → read (set buf h c) t n ≡ read buf t n
read-set_out buf t zero h c lt small e = refl
read-set_out buf t (suc n) h c lt small e =
    let here = get_or-set_ne buf h t c 0 (omega arith) in
    let rest =
      read-set_out buf ((t + 1) % buf_size) n h c (omega arith) (omega arith) (omega arith) in
    rw (here, rest) refl

-- One more character, behind the others.
read-set :
    (buf : List ℕ) (t n h c : ℕ)
    → length buf ≡ buf_size
    → t < buf_size
    → n + 1 < buf_size
    → h ≡ (t + n) % buf_size
    → read (set buf h c) t (suc n) ≡ read buf t n ++ c ∷ []
read-set buf t zero h c size lt small e =
    let here : h ≡ t = omega arith in
    let new = get_or-set_self buf t c 0 (omega (arith, size)) in rw (here, new) refl
read-set buf t (suc n) h c size lt small e =
    let here = get_or-set_ne buf h t c 0 (omega arith) in
    let rest =
      read-set buf ((t + 1) % buf_size) n h c size (omega arith) (omega arith) (omega arith) in
    ap₂ (λ x xs. x ∷ xs) here rest

head-count : (k : Kbd) → IsValid k → k.head ≡ (k.tail + count k) % buf_size
head-count k v = omega (arith, v.head_in, v.tail_in)

-- `kbd_put` appends to the queue while it has fewer than 255 characters, and drops the character
-- otherwise; the indices stay in the ring.
pub kbd_put-queue :
    (c : ℕ) (k : Kbd)
    → IsValid k
    → IsValid (kbd_put c k)
      × (queue (kbd_put c k)
          ≡ (if ltb (length (queue k)) (buf_size - 1) then queue k ++ c ∷ [] else queue k))
unfolding kbd_put
kbd_put-queue c k v =
    let next = (k.head + 1) % buf_size in
    let n = length-read k.buf k.tail (count k) in
    let P : Kbd → Type 0 = λ (q : Kbd).
      IsValid q
      × (queue q
          ≡ (if ltb (length (queue k)) (buf_size - 1) then queue k ++ c ∷ [] else queue k)) in
    if_cases P (not (next == k.tail)) _ _
      (λ room.
        let ne : next ≢ k.tail = ground arith in
        let fewer : count k + 1 < buf_size = omega (arith, v.head_in, v.tail_in) in
        let more : (next + buf_size - k.tail) % buf_size ≡ suc (count k) =
          omega (arith, v.head_in, v.tail_in, fewer) in
        let yes_room : ltb (length (queue k)) (buf_size - 1) ≡ true = ground (arith, n, fewer) in
        (
          record {
            size = length-set k.buf k.head c ∙ v.size;
            head_in = omega arith;
            tail_in = v.tail_in;
          },
          rw (more, yes_room)
              (read-set k.buf k.tail (count k) k.head c v.size v.tail_in fewer (head-count k v)),
        ))
      (λ full.
        let last : count k ≡ buf_size - 1 =
          (let e : next ≡ k.tail = ground arith in omega (arith, v.head_in, v.tail_in)) in
        let no_room : ltb (length (queue k)) (buf_size - 1) ≡ false = ground (arith, n, last) in
        (v, rw no_room refl))

-- If characters wait, `kbd_getchar` returns the one that came first and leaves the others in order.
pub take_char-queue :
    (k : Kbd)
    → IsValid k
    → kbd_has_char k ≡ true
    → IsValid (take_char k).1 × (queue k ≡ (take_char k).0 ∷ queue (take_char k).1)
unfolding take_char kbd_has_char
take_char-queue k v some_wait =
    let ne : k.head ≢ k.tail = ground arith in
    let next = (k.tail + 1) % buf_size in
    let n = (k.head + buf_size - next) % buf_size in
    let fewer : count k ≡ suc n = omega (arith, v.head_in, v.tail_in) in
    (record { size = v.size; head_in = v.head_in; tail_in = omega arith }, rw fewer refl)
