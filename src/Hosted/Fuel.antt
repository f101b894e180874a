-- ===== src/Hosted/Fuel.antt =====
-- The fuel of the loops of dug_os.c over lines and chunks is enough.
use dug_os.Common.{
  ℕ, zero, suc, ◌++◌, ◌≤◌, ◌<◌, ◌≡◌, refl, sym, ap, ◌∙◌, drop, length-drop, inl, inr, List, [], ◌∷◌,
  some, Option-cases, ◌==◌, if◌then◌else◌, length, take, arith,
}
use dug_os.Common.Int.{is_zero}
use dug_os.Strings.{Bytes, codes, cstr, kstrcmp}
use dug_os.Hosted.{Print, text, fgets, trim}
use dug_os.Hosted.Files.{chunk_lines, show_lines, show_chunks, type_lines}
use dug_os.Hosted.Input.{read_less}

-- A round of the loop behind the reading, with what the further rounds make.
abbrev after_line : Bytes → Bytes × Bytes → Bytes × Bytes × List Print → Bytes × Bytes × List Print
after_line content r t =
    if is_zero (kstrcmp (trim (cstr r.0)).0 (codes "."))
    then (r.1, content, [])
    else (t.0, t.1, text "  > " ∷ t.2)

type_lines_round :
    (n : ℕ) (input content : Bytes) (r : Bytes × Bytes)
    → fgets 256 input ≡ some r
    → type_lines (suc n) input content
      ≡ after_line content r (type_lines n r.1 (content ++ (trim (cstr r.0)).1))
unfolding type_lines
type_lines_round n input content r e = rw (e, type_lines) refl

-- One round more than the input has bytes is enough for the loop that takes lines.
pub type_lines_enough :
    (n : ℕ) (input content : Bytes)
    → length input < n
    → type_lines (suc n) input content ≡ type_lines n input content
unfolding type_lines
type_lines_enough zero input content h = absurd (omega arith)
type_lines_enough (suc n) input content h = elim (Option-cases (fgets 256 input)) [
  | inl end ↦ rw (end, type_lines) refl
  | inr line ↦
      let r = line.0 in
      let less = read_less 256 input r (omega arith) line.1 in
      let further = type_lines_enough n r.1 (content ++ (trim (cstr r.0)).1) (omega arith) in
      type_lines_round (suc n) input content r line.1
      ∙ ap (after_line content r) further
      ∙ sym (type_lines_round n input content r line.1)
]

-- A chunk is 4095 bytes, or what is left, so that as many rounds as bytes show all of them.
pub show_chunks_enough :
    (n : ℕ) (bytes : Bytes) → length bytes ≤ n → show_chunks (suc n) bytes ≡ show_chunks n bytes
unfolding show_chunks
show_chunks_enough zero [] h = refl
show_chunks_enough zero (b ∷ bytes) h = absurd (omega arith)
show_chunks_enough (suc n) [] h = refl
show_chunks_enough (suc n) (b ∷ bytes) h =
    let further =
      show_chunks_enough n (drop 4095 (b ∷ bytes)) (omega (arith, length-drop 4095 (b ∷ bytes))) in
    ap
      (λ rest.
        if length (b ∷ bytes) == 0
        then []
        else show_lines (chunk_lines [] (cstr (take 4095 (b ∷ bytes)))) ++ rest)
      further
