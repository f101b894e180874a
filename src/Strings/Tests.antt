-- ===== src/Strings/Tests.antt =====
-- string.c at concrete inputs.
use dug_os.Common.{◌≡◌, refl, [], ◌∷◌, some}
use dug_os.Strings.{Bytes, kstrlen, kstrchr}

chr_found : kstrchr (b'a' ∷ b'/' ∷ 0 ∷ []) b'/' ≡ some 1
unfolding kstrchr
chr_found = refl

-- "ab", with a byte behind the NUL
abbrev ab : Bytes
ab = b'a' ∷ b'b' ∷ 0 ∷ 7 ∷ []

kstrlen-ab : kstrlen ab ≡ 2
unfolding kstrlen
kstrlen-ab = refl
