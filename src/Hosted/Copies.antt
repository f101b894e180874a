-- ===== src/Hosted/Copies.antt =====
-- `cmd_copy` of dug_os.c: the destination is opened, which empties it, before the source is read.
use mathlib.Core.Path.{subst}
use dug_os.Common.{
  ℕ, zero, suc, ◌+◌, ◌-◌, ◌<◌, ◌≤◌, ◌≡◌, refl, sym, ap, ◌∙◌, true, false, Option, some, [], ◌∷◌,
  ◌++◌, ◌==◌, if◌then◌else◌, if_cases, length, length-drop, take, drop, arith, Bool-cases, inl, inr,
}
use dug_os.Common.Int.{is_zero}
use dug_os.Strings.{Bytes, kstrlen, kstrcmp}
use dug_os.Strings.Cstr.{kstrcmp_iff}
use dug_os.Hosted.Files.{Host, World, set_file, contents, exists, copy_loop, cmd_copy}

-- A chunk behind what is copied.
take-chunk :
    (at k : ℕ) (bytes : Bytes)
    → at ≤ length bytes
    → take at bytes ++ take k (drop at bytes) ≡ take (at + length (take k (drop at bytes))) bytes
take-chunk zero k bytes h = start k bytes ∙ ap (λ n. take n bytes) (omega arith)
  where
    start : (k : ℕ) (bytes : Bytes) → take k bytes ≡ take (length (take k bytes)) bytes
    start zero bytes = refl
    start (suc k) [] = refl
    start (suc k) (b ∷ bytes) = ap (b ∷◌) (start k bytes)
take-chunk (suc at) k [] h = absurd (omega arith)
take-chunk (suc at) k (b ∷ bytes) h =
    let size = length (take k (drop at bytes)) in
    let one_more : suc (at + size) ≡ suc at + size = omega arith in
    ap (b ∷◌) (take-chunk at k bytes (omega arith)) ∙ ap (λ n. take n (b ∷ bytes)) one_more

-- A chunk is empty only at the end, and holds no more than what is left.
chunk_end :
    (at k : ℕ) (bytes : Bytes)
    → at ≤ length bytes
    → length (take (suc k) (drop at bytes)) ≡ 0
    → take at bytes ≡ bytes
chunk_end zero k [] h e = refl
chunk_end zero k (b ∷ bytes) h e = absurd (omega arith)
chunk_end (suc at) k [] h e = absurd (omega arith)
chunk_end (suc at) k (b ∷ bytes) h e = ap (b ∷◌) (chunk_end at k bytes (omega arith) e)

length-chunk : (k : ℕ) (bytes : Bytes) → length (take k bytes) ≤ length bytes
length-chunk zero bytes = omega arith
length-chunk (suc k) [] = omega arith
length-chunk (suc k) (b ∷ bytes) = omega (arith, length-chunk k bytes)

-- The destination has the bytes, and all other files are as they were.
abbrev Copies : Bytes → Bytes → (Bytes → Option Bytes) → (Bytes → Option Bytes) → Type 0
Copies to bytes files files' =
    (files' to ≡ some bytes)
    × ((other : Bytes) → is_zero (kstrcmp other to) ≡ false → files' other ≡ files other)

same_file : (file : Bytes) → is_zero (kstrcmp file file) ≡ true
same_file file = (kstrcmp_iff file file).1 refl

-- The loop between two files, from a place up to which the bytes are copied.
copy_loop-Copies :
    (n at : ℕ) (from to bytes : Bytes) (files : Bytes → Option Bytes)
    → is_zero (kstrcmp from to) ≡ false
    → files from ≡ some bytes
    → files to ≡ some (take at bytes)
    → at ≤ length bytes
    → length bytes < at + n
    → Copies to bytes files (copy_loop n at from to files)
unfolding copy_loop
copy_loop-Copies zero at from to bytes files ne source target h fuel = absurd (omega arith)
copy_loop-Copies (suc n) at from to bytes files ne source target h fuel =
    let buf = take 4096 (drop at bytes) in
    let next = set_file to (some (take at bytes ++ buf)) files in
    let fits : length buf ≤ length bytes - at =
      omega (arith, length-chunk 4096 (drop at bytes), length-drop at bytes) in
    rw (source, target)
      (if_cases (Copies to bytes files) (length buf == 0) _ _
        (λ end. (target ∙ ap some (chunk_end at 4095 bytes h (ground arith)), λ other o. refl))
        (λ more.
          let some_bytes : 0 < length buf = ground arith in
          let target' : next to ≡ some (take (at + length buf) bytes) =
            rw (same_file to) (ap some (take-chunk at 4096 bytes h)) in
          let source' : next from ≡ some bytes = rw ne source in
          let rest =
            copy_loop-Copies n (at + length buf) from to bytes next ne source' target' (omega arith)
              (omega arith) in
          (rest.0, λ other o. rest.1 other o ∙ rw o refl)))

-- A file that is copied to itself is at its end at once.
copy_loop-same :
    (n : ℕ) (from to : Bytes) (files : Bytes → Option Bytes)
    → files from ≡ some []
    → copy_loop n 0 from to files ≡ files
unfolding copy_loop
copy_loop-same zero from to files e = refl
copy_loop-same (suc n) from to files e = rw e refl

module _ {H : Type 0} (host : Host H) where
  -- The files behind a copy that is made.
  abbrev copied : Bytes → Bytes → World H → Bytes → Option Bytes
  copied from to w =
      let emptied = set_file to (some []) w.files in
      copy_loop (suc (length (contents (emptied from)))) 0 from to emptied

  opened :
      (src dst : Bytes) (w : World H)
      → (kstrlen src == 0) ≡ false
      → (kstrlen dst == 0) ≡ false
      → exists (host.file src w.host) w ≡ true
      → host.allows dst w.host ≡ true
      → (cmd_copy host (some src) (some dst) w).0.files
        ≡ copied (host.file src w.host) (host.file dst w.host) w
  unfolding cmd_copy
  opened src dst w named_src named_dst there allowed =
      rw (cmd_copy, named_src, named_dst, there, allowed) refl

  copied-Copies :
      (from to bytes : Bytes) (w : World H)
      → w.files from ≡ some bytes
      → Copies to (if is_zero (kstrcmp from to) then [] else bytes) w.files (copied from to w)
  copied-Copies from to bytes w there =
      let emptied = set_file to (some []) w.files in
      elim (Bool-cases (is_zero (kstrcmp from to))) [
        | inl same ↦
            let none_left : emptied from ≡ some [] = rw same refl in
            let kept =
              copy_loop-same (suc (length (contents (emptied from)))) from to emptied none_left in
            rw (kept, same) (rw (same_file to) refl, λ other o. rw o refl)
        | inr ne ↦
            let source : emptied from ≡ some bytes = rw ne there in
            let target : emptied to ≡ some [] = rw (same_file to) refl in
            let rounds = suc (length (contents (emptied from))) in
            let enough : length bytes < 0 + rounds = rw source (omega arith) in
            let done =
              copy_loop-Copies rounds 0 from to bytes emptied ne source target (omega arith)
                enough in
            let whole : (if is_zero (kstrcmp from to) then [] else bytes) ≡ bytes = rw ne refl in
            subst (λ b. Copies to b w.files (copied from to w)) (sym whole)
              (done.0, λ other o. done.1 other o ∙ rw o refl)
      ]

  -- `cmd_copy` of a file that is there to a name that may be written: the chunks that the loop moves
  -- give the destination the bytes of the source, and all other files stay. Where both names stand for
  -- one file, this file is left empty.
  pub cmd_copy_lem :
      (src dst bytes : Bytes) (w : World H)
      → (kstrlen src == 0) ≡ false
      → (kstrlen dst == 0) ≡ false
      → w.files (host.file src w.host) ≡ some bytes
      → host.allows dst w.host ≡ true
      → let from = host.file src w.host in
        let to = host.file dst w.host in
        let w' = (cmd_copy host (some src) (some dst) w).0 in
        (w'.files to ≡ some (if is_zero (kstrcmp from to) then [] else bytes))
        × ((other : Bytes) → is_zero (kstrcmp other to) ≡ false → w'.files other ≡ w.files other)
  cmd_copy_lem src dst bytes w named_src named_dst there allowed =
      let from = host.file src w.host in
      let to = host.file dst w.host in
      let found : exists from w ≡ true = rw (there, exists) refl in
      rw (opened src dst w named_src named_dst found allowed) (copied-Copies from to bytes w there)
