-- ===== src/Dir/Tests.antt =====
-- src/dir.c at a table with the root and "/home".
use dug_os.Common.{
  true, ◌≢◌, ◌↔◌, ◌+◌, ◌<◌, ◌≤◌, length, ◌≡◌, refl, [], ◌∷◌, some, replicate, arith,
}
use dug_os.Dir.Paths.{IsName, IsIn, no_slash, is_immediate_child_iff}
use dug_os.Dir.Build.{IsStep, build_path-parent_path}
use dug_os.Strings.{cstr, Bytes, kstrlen, kstrcmp, kstrncpy}
use dug_os.Console.{newline, readline}
use dug_os.Console.Reading.{value}
use dug_os.Console.Ensures.{Returns}
use dug_os.Fs.{bss}
use dug_os.Dir.{
  Dirs, cwd, dir_name_len, is_immediate_child, dir_max, find_dir, build_path, build_relative,
  with_separator, dir_init, bss_dirs,
}
use dug_os.Dir.Command.{mkdir_path, dir_mkdir, cd_path, dir_cd, dir_rmdir}
use dug_os.Dir.Valid.{IsValid, dir_init-IsValid, mkdir_path-IsValid}
use dug_os.Dir.Spec.Mkdir.{Adds, Moves, dir_mkdir-Spec, dir_cd-Spec}
use dug_os.Dir.Spec.Rmdir.{removes, Removes, dir_rmdir-Spec}

abbrev home : Bytes
home = b'h' ∷ b'o' ∷ b'm' ∷ b'e' ∷ []

-- the array with "/home"
abbrev home_path : Bytes
home_path = b'/' ∷ b'h' ∷ b'o' ∷ b'm' ∷ b'e' ∷ replicate 59 0

abbrev start : Dirs
start = dir_init bss_dirs

abbrev with_home : Dirs
with_home = (mkdir_path home_path start).0

kstrlen-home : kstrlen home ≡ 4
unfolding kstrlen
kstrlen-home = refl

kstrlen-home_path : kstrlen home_path ≡ 5
unfolding kstrlen
kstrlen-home_path = refl

start_builds : build_path home start ≡ home_path
unfolding build_path build_relative with_separator kstrncpy kstrlen kstrcmp dir_init bss_dirs
start_builds = refl

home_builds : build_path home with_home ≡ home_path
unfolding mkdir_path find_dir build_path build_relative with_separator kstrncpy kstrlen kstrcmp
    dir_init bss_dirs
home_builds = refl

cd_builds : cd_path home with_home ≡ home_path
unfolding cd_path mkdir_path find_dir build_path build_relative with_separator kstrncpy kstrlen
    kstrcmp dir_init bss_dirs
cd_builds = refl

with_home-IsValid : IsValid with_home
unfolding dir_init
with_home-IsValid =
    mkdir_path-IsValid home_path start dir_init-IsValid (omega (arith, kstrlen-home_path))
      start_room
  where
    start_room : start.dir_count < dir_max
    start_room = omega arith

yes_typed : value (readline 4 (b'y' ∷ newline ∷ [])) ≡ some (b'y' ∷ [], [])
unfolding readline
yes_typed = refl

dir_mkdir-Spec_example : Adds home_path home_path start (dir_mkdir home start).0
dir_mkdir-Spec_example =
    dir_mkdir-Spec home home_path home_path start dir_init-IsValid (omega (arith, kstrlen-home))
      start_builds (omega (arith, kstrlen-home_path))

dir_cd-Spec_example : Moves home_path with_home (dir_cd home with_home).0
dir_cd-Spec_example =
    dir_cd-Spec home home_path with_home with_home-IsValid (omega (arith, kstrlen-home)) cd_builds

dir_rmdir-Spec_example :
    Returns
      (Removes home_path (removes home_path bss with_home (b'y' ∷ [])) home_path with_home)
      (dir_rmdir home bss with_home (b'y' ∷ newline ∷ []))
dir_rmdir-Spec_example =
    dir_rmdir-Spec home home_path home_path (b'y' ∷ []) bss with_home (b'y' ∷ newline ∷ []) []
      with_home-IsValid (omega (arith, kstrlen-home)) home_builds yes_typed

start_fits : start.dir_count ≤ length start.dirs
unfolding dir_init bss_dirs
start_fits = omega arith

abbrev root_cwd : Bytes
root_cwd = cwd start

home-IsName : IsName (cstr home)
unfolding cstr no_slash
home-IsName = ((λ e. ground (arith, e)), refl)

root_full : cstr root_cwd ≢ []
unfolding cstr dir_init bss_dirs
root_full e = ground (arith, e)

home_room : kstrlen root_cwd + 1 + kstrlen home < dir_name_len
unfolding kstrlen dir_init bss_dirs
home_room = omega arith

build_path-parent_path_example : IsStep (build_path home start) root_cwd
build_path-parent_path_example = build_path-parent_path home start root_full home-IsName home_room

is_immediate_child_iff_example :
    (is_immediate_child home_path root_cwd ≡ true) ↔ IsIn (cstr home_path) (cstr root_cwd)
is_immediate_child_iff_example = is_immediate_child_iff home_path root_cwd
