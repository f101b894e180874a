-- ===== src/Fs/Effect/Interactive.antt =====
-- The effects of `fs_write`, `fs_edit` and `fs_delete`.
use dug_os.Common.{
  ℕ, ◌<◌, ◌≡◌, refl, ◌∙◌, ◌≢◌, true, List, [], Option, some, length, length-set, set, arith, ◌==◌,
  ltb, if◌then◌else◌, if_cases,
}
use dug_os.Strings.{Bytes, kstrlen, kstrncpy}
use dug_os.Strings.Copy.{length-kstrncpy}
use dug_os.Console.{Reply, readline}
use dug_os.Console.Ensures.{Ensures, Ensures-any, Ensures-say, Ensures-bind, Ensures-some}
use dug_os.Fs.{
  Fs, FileEntry, n_blocks, max_files, name_len, dir_len, fat_end, file_at, find_file,
  find_free_slot, free_chain, content,
}
use dug_os.Fs.Chain.{content-small}
use dug_os.Fs.Input.{Buffer, collect}
use dug_os.Fs.Collect.{Fits, collect-Fits}
use dug_os.Fs.Invariant.{IsOwned, IsValid, HasArrays, Change, file_at-set_self}
use dug_os.Fs.Invariant.Steps.{
  valid_but, Change-set_file, Change-free, Change-free_chain, store_buffer_lem, empty-IsOwned,
}
use dug_os.Fs.Command.{
  store_buffer, write_finish, write_body, reset_file, claim_slot, fs_write, edit_finish, fs_edit,
  fs_delete, write_prompt, edit_prompt, delete_prompt, is_yes, cleared,
}
use dug_os.Fs.Effect.{
  Effect, Effect-refl, finish_change, Change-same, found-IsOwned, free_slot_unused,
}

-- The slot that `fs_write` works on.
abbrev pub write_slot : Bytes → Bytes → Fs → ℕ
write_slot name dir fs =
    let idx = find_file name dir fs.files in
    if ltb idx max_files then idx else find_free_slot fs.files

-- From a state that work on the slot has led to.
pub write_finish-Effect :
    {idx : ℕ} (name : Bytes) (b : Buffer) (start fs : Fs) (keys : List ℕ)
    → Change idx start fs
    → idx < max_files
    → HasArrays (file_at fs.files idx)
    → Fits b
    → Effect idx start (write_finish name idx b fs keys).result
unfolding write_finish
write_finish-Effect {idx} name b start fs keys c lt arrays fits =
    let s = store_buffer_lem idx b fs c.valid fits.there in
    let r = store_buffer b fs in
    let same = s.same_files in
    if_cases (λ (q : Reply Fs). Effect idx start q.result) (r.0 == n_blocks) _ _
      (λ full. finish_change start fs r.1 _ c s.change lt (rw same arrays) (λ u. absurd (cc)))
      (λ room.
        finish_change start fs r.1 _ c s.change lt (rw same arrays)
          (λ u. (s.stored (ground arith) _ refl refl).0))

write_body-Effect :
    {idx : ℕ} (name : Bytes) (start fs : Fs) (keys : List ℕ)
    → Change idx start fs
    → idx < max_files
    → HasArrays (file_at fs.files idx)
    → Ensures (Effect idx start) (write_body name idx fs keys)
unfolding write_body
write_body-Effect {idx} name start fs keys c lt arrays =
    Ensures-say (Effect idx start) write_prompt _ (
      Ensures-bind Fits (Effect idx start) (collect empty keys) _
        (collect-Fits empty keys (omega arith))
        (λ b rest fits. write_finish-Effect name b start fs rest c lt arrays fits))
  where
    empty : Buffer
    empty = record { tmp = []; total = 0 }

pub claimed :
    (name dir : Bytes) (idx : ℕ) (fs : Fs)
    → idx < max_files
    → length fs.files ≡ max_files
    → HasArrays (file_at fs.files idx)
    → HasArrays (file_at (claim_slot name dir idx fs).files idx)
claimed name dir idx fs lt n arrays =
    let e = file_at fs.files idx in
    let e' = record e {
      name = kstrncpy e.name name name_len;
      dir = kstrncpy e.dir dir dir_len;
      used = true;
    } in
    rw (file_at-set_self fs.files idx e' (omega (arith, n))) (
      length-kstrncpy e.name name name_len ∙ arrays.0,
      length-kstrncpy e.dir dir dir_len ∙ arrays.1,
    )

pub fs_write-Ensures :
    (name dir : Bytes) (fs : Fs) (keys : List ℕ)
    → IsValid fs
    → Ensures (Effect (write_slot name dir fs) fs) (fs_write name dir fs keys)
unfolding fs_write
fs_write-Ensures name dir fs keys v =
    let slot = write_slot name dir fs in
    let idx = find_file name dir fs.files in
    let free = find_free_slot fs.files in
    let P : Option (Reply Fs) → Type 0 = Ensures (Effect slot fs) in
    if_cases P (kstrlen name == 0) _ _ (λ no_name. Effect-refl slot fs v)
      (λ named.
        if_cases P (ltb idx max_files) _ _
          (λ found.
            let here : slot ≡ idx = rw found in
            rw here (
              write_body-Effect name fs (reset_file idx fs) keys
                (Change-free idx (file_at fs.files idx) _ fs (valid_but idx v)
                  (found-IsOwned name dir fs v (ground arith)).1)
                (ground arith)
                (let at =
                    file_at-set_self fs.files idx
                      (record (file_at fs.files idx) { first_block = fat_end; size = 0 })
                      (omega (arith, v.n_files, (found-IsOwned name dir fs v (ground arith)).0)) in
                  rw at (found-IsOwned name dir fs v (ground arith)).2)))
          (λ new.
            if_cases P (free == max_files) _ _ (λ full. Effect-refl slot fs v)
              (λ room.
                let here : slot ≡ free = rw new in
                rw here (
                  write_body-Effect name fs (claim_slot name dir free fs) keys
                    (Change-set_file free _ fs (valid_but free v))
                    (free_slot_unused fs v (ground arith)).0
                    (claimed name dir free fs (free_slot_unused fs v (ground arith)).0 v.n_files
                      (free_slot_unused fs v (ground arith)).2)))))

-- `fs_write` works on the slot of the file, or on the first free slot.
pub fs_write-Effect :
    (name dir : Bytes) (fs : Fs) (keys : List ℕ) (r : Reply Fs)
    → IsValid fs
    → fs_write name dir fs keys ≡ some r
    → Effect (write_slot name dir fs) fs r.result
fs_write-Effect name dir fs keys r v e =
    Ensures-some (Effect (write_slot name dir fs) fs) (fs_write name dir fs keys) r e
      (fs_write-Ensures name dir fs keys v)

pub edit_finish-Effect :
    {idx : ℕ} (name : Bytes) (b : Buffer) (fs : Fs) (keys : List ℕ) (v : IsValid fs)
    → idx < max_files
    → IsOwned fs v.owner idx (file_at fs.files idx)
    → HasArrays (file_at fs.files idx)
    → Fits b
    → Effect idx fs (edit_finish name idx b fs keys).result
unfolding edit_finish
edit_finish-Effect {idx} name b fs keys v lt own arrays fits =
    let freed = record fs { fat = free_chain (file_at fs.files idx).first_block fs.fat } in
    let c = Change-free_chain idx (file_at fs.files idx) fs (valid_but idx v) own in
    let s = store_buffer_lem idx b freed c.valid fits.there in
    let r = store_buffer b freed in
    let same = s.same_files in
    if_cases (λ (q : Reply Fs). Effect idx fs q.result) (r.0 == n_blocks) _ _
      (λ full.
        finish_change fs freed r.1 _ c s.change lt (rw same arrays)
          (λ u. empty-IsOwned r.1 s.change.valid.owner idx _ refl refl))
      (λ room.
        finish_change fs freed r.1 _ c s.change lt (rw same arrays)
          (λ u. (s.stored (ground arith) _ refl refl).0))

pub content-Fits :
    (fs : Fs) (owner : ℕ → ℕ) (idx : ℕ) (e : FileEntry)
    → IsOwned fs owner idx e
    → Fits (record { tmp = content fs e; total = e.size })
content-Fits fs owner idx e own =
    omega (arith, own.complete, content-small fs (λ j. owner j ≡ idx) own.k e own.chain)

pub fs_edit-Ensures :
    (name dir : Bytes) (fs : Fs) (keys : List ℕ)
    → IsValid fs
    → Ensures (Effect (find_file name dir fs.files) fs) (fs_edit name dir fs keys)
unfolding fs_edit
fs_edit-Ensures name dir fs keys v =
    let idx = find_file name dir fs.files in
    let e = file_at fs.files idx in
    let P : Option (Reply Fs) → Type 0 = Ensures (Effect idx fs) in
    if_cases P (kstrlen name == 0) _ _ (λ no_name. Effect-refl idx fs v)
      (λ named.
        if_cases P (idx == max_files) _ _ (λ missing. Effect-refl idx fs v)
          (λ found.
            let own = found-IsOwned name dir fs v (ground arith) in
            let start : Buffer = record { tmp = content fs e; total = e.size } in
            Ensures-say (Effect idx fs) (edit_prompt name) _ (
              Ensures-bind Fits (Effect idx fs) (collect start keys) _
                (collect-Fits start keys (content-Fits fs v.owner idx e own.1))
                (λ b rest fits. edit_finish-Effect name b fs rest v own.0 own.1 own.2 fits))))

-- `fs_edit` works on the slot of the file.
pub fs_edit-Effect :
    (name dir : Bytes) (fs : Fs) (keys : List ℕ) (r : Reply Fs)
    → IsValid fs
    → fs_edit name dir fs keys ≡ some r
    → Effect (find_file name dir fs.files) fs r.result
fs_edit-Effect name dir fs keys r v e =
    Ensures-some (Effect (find_file name dir fs.files) fs) (fs_edit name dir fs keys) r e
      (fs_edit-Ensures name dir fs keys v)

-- The work of a confirmed `fs_delete`.
pub confirmed-Effect :
    (name dir : Bytes) (fs : Fs)
    → IsValid fs
    → find_file name dir fs.files ≢ max_files
    → let idx = find_file name dir fs.files in
      let e = file_at fs.files idx in
      Effect idx fs
        (record fs { fat = free_chain e.first_block fs.fat; files = set fs.files idx (cleared e) })
confirmed-Effect name dir fs v found =
    let idx = find_file name dir fs.files in
    let e = file_at fs.files idx in
    let own = found-IsOwned name dir fs v found in
    let freed = record fs { fat = free_chain e.first_block fs.fat } in
    let c = Change-free_chain idx e fs (valid_but idx v) own.1 in
    finish_change fs fs freed (cleared e) (Change-same idx fs v) c own.0
      (length-set e.name 0 0 ∙ own.2.0, own.2.1) (λ used. absurd (cc))

pub fs_delete-Ensures :
    (name dir : Bytes) (fs : Fs) (keys : List ℕ)
    → IsValid fs
    → Ensures (Effect (find_file name dir fs.files) fs) (fs_delete name dir fs keys)
unfolding fs_delete
fs_delete-Ensures name dir fs keys v =
    let idx = find_file name dir fs.files in
    let e = file_at fs.files idx in
    let P : Option (Reply Fs) → Type 0 = Ensures (Effect idx fs) in
    if_cases P (kstrlen name == 0) _ _ (λ no_name. Effect-refl idx fs v)
      (λ named.
        if_cases P (idx == max_files) _ _ (λ missing. Effect-refl idx fs v)
          (λ found. Ensures-say (Effect idx fs) (delete_prompt name) _ (
            Ensures-bind (λ _. Unit {0}) (Effect idx fs) (readline 4 keys) _
              (Ensures-any (readline 4 keys))
              (λ ans rest u.
                if_cases P (is_yes ans) _ _
                  (λ confirmed. confirmed-Effect name dir fs v (ground arith))
                  (λ cancelled. Effect-refl idx fs v)))))

-- `fs_delete` works on the slot of the file.
pub fs_delete-Effect :
    (name dir : Bytes) (fs : Fs) (keys : List ℕ) (r : Reply Fs)
    → IsValid fs
    → fs_delete name dir fs keys ≡ some r
    → Effect (find_file name dir fs.files) fs r.result
fs_delete-Effect name dir fs keys r v e =
    Ensures-some (Effect (find_file name dir fs.files) fs) (fs_delete name dir fs keys) r e
      (fs_delete-Ensures name dir fs keys v)
