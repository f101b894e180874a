-- ===== src/Fs/Spec/Delete.antt =====
-- `fs_delete` as an operation on the map.
use dug_os.Common.{
  ℕ, ◌≡◌, refl, ◌∙◌, ◌≢◌, Bool, true, false, List, Option, some, arith, ◌==◌, if_cases, ℕ_discrete,
}
use dug_os.Strings.{Bytes, kstrlen}
use dug_os.Console.{Reply, readline}
use dug_os.Console.Reading.{value}
use dug_os.Console.Ensures.{Returns, Returns-say, Returns-read}
use dug_os.Fs.{Fs, max_files, file_at, find_file, is_file}
use dug_os.Fs.Invariant.{IsValid, file_at-set_self}
use dug_os.Fs.Effect.{Effect, found-IsOwned}
use dug_os.Fs.Effect.Interactive.{confirmed-Effect}
use dug_os.Fs.Command.{fs_delete, is_yes, cleared, delete_prompt}
use dug_os.Fs.Lookup.{lookup, lookup-Effect, IsUnique}
use dug_os.Fs.Spec.{is_file-titled, map_of, delete_map}
use dug_os.Fs.Spec.Rename.{found_texts}
use dug_os.Fs.Spec.Copy.{unused_is_file}

-- An entry that no name finds keeps names unique.
pub gone-IsUnique :
    {idx : ℕ} (fs fs' : Fs)
    → Effect idx fs fs'
    → IsUnique fs
    → ((n d : Bytes) → is_file n d (file_at fs'.files idx) ≡ false)
    → IsUnique fs'
gone-IsUnique {idx} fs fs' f unique gone n d i j hi hj p q = elim (ℕ_discrete i idx) [
  | yes i_here ↦ absurd (let none_there = gone n d in let hit = rw i_here at p in cc)
  | no i_other ↦ elim (ℕ_discrete j idx) [
    | yes j_here ↦ absurd (let none_there = gone n d in let hit = rw j_here at q in cc)
    | no j_other ↦
        let ei = f.entries i i_other in
        let ej = f.entries j j_other in unique n d i j hi hj (rw ei at p) (rw ej at q)
  ]
]

-- What is proved of the state behind `fs_delete`.
abbrev pub Deletes : Bytes → Bytes → Bool → Fs → Bytes → Bytes → Fs → Type 0
Deletes name dir confirmed fs n d fs' =
    IsUnique fs' × (lookup n d fs' ≡ delete_map name dir confirmed (map_of fs) n d)

-- The cleared entry is found by no name.
cleared-Spec :
    (name dir n d : Bytes) (fs fs' : Fs)
    → let idx = find_file name dir fs.files in
      IsValid fs
      → IsUnique fs
      → idx ≢ max_files
      → Effect idx fs fs'
      → file_at fs'.files idx ≡ cleared (file_at fs.files idx)
      → Deletes name dir true fs n d fs'
cleared-Spec name dir n d fs fs' v unique found f here =
    let idx = find_file name dir fs.files in
    let own = found-IsOwned name dir fs v found in
    let t = found_texts name dir fs found in
    let gone : (m e : Bytes) → is_file m e (file_at fs'.files idx) ≡ false =
      λ m e. rw here (unused_is_file m e (cleared (file_at fs.files idx)) refl) in
    let unique' : IsUnique fs' = gone-IsUnique fs fs' f unique gone in
    let old = is_file-titled n d name dir (file_at fs.files idx) t.0 t.1 t.2 in
    (unique', lookup-Effect n d fs fs' f v.n_files own.0 unique unique' ∙ rw (gone n d, old) refl)

-- `fs_delete` of a file that is there returns once the answer is typed, in a valid state where no name
-- finds two files. A confirmed call removes the file from the map and leaves every other name as it
-- was, any other answer changes nothing.
pub fs_delete-Spec :
    (name dir n d ans : Bytes) (fs : Fs) (keys rest : List ℕ)
    → IsValid fs
    → IsUnique fs
    → kstrlen name ≢ 0
    → find_file name dir fs.files ≢ max_files
    → value (readline 4 keys) ≡ some (ans, rest)
    → Returns (Deletes name dir (is_yes ans) fs n d) (fs_delete name dir fs keys)
unfolding fs_delete
fs_delete-Spec name dir n d ans fs keys rest v unique named found typed =
    let idx = find_file name dir fs.files in
    let e = file_at fs.files idx in
    let own = found-IsOwned name dir fs v found in
    let Q : Fs → Type 0 = Deletes name dir (is_yes ans) fs n d in
    let P : Option (Reply Fs) → Type 0 = Returns Q in
    if_cases P (kstrlen name == 0) _ _ (λ no_name. absurd (ground arith))
      (λ some_name.
        if_cases P (idx == max_files) _ _ (λ missing. absurd (ground arith))
          (λ there. Returns-say Q (delete_prompt name) _ (
            Returns-read Q (readline 4 keys) _ ans rest typed (
              if_cases P (is_yes ans) _ _
                (λ confirmed.
                  let all =
                    cleared-Spec name dir n d fs _ v unique found
                      (confirmed-Effect name dir fs v found)
                      (file_at-set_self fs.files idx (cleared e)
                        (omega (arith, own.0, v.n_files))) in
                  (all.0, all.1 ∙ rw confirmed refl))
                (λ cancelled. (unique, rw cancelled refl))))))
