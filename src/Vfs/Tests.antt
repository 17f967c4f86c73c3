-- ===== src/Vfs/Tests.antt =====
-- Three file systems, two of them of one name, and the theorems at them.
use base_kernel.Base.{ℕ, ◌≡◌, refl, true, List, [], ◌∷◌, Option, none, some, ◌==◌, if◌then◌else◌}
use base_kernel.Base.Int.{◌-ℤ◌}
use base_kernel.Strings
use base_kernel.Vfs.{has_name, Vfs, register_filesystem, unregister_filesystem, remove}
use base_kernel.Vfs.Registry
use base_kernel.Vfs.Registry.{
  is_member, Call, register, unregister, perform, perform_all, registry, registered_unique,
  unregister-register,
}

abbrev names : ℕ → Option (List ℕ)
names fs = if fs == 3 then some (120 ∷ []) else if fs == 4 then none else some (113 ∷ [])

abbrev calls : List Call
calls = register 1 ∷ register 2 ∷ register 3 ∷ unregister 1 ∷ register 2 ∷ []

abbrev start : Vfs
start = record { file_systems = 3 ∷ []; name_at = names }

second_listed : is_member 2 (registry names calls).file_systems ≡ true
unfolding Registry.perform_all Registry.perform register_filesystem unregister_filesystem remove
    has_name Strings.strcmp ◌-ℤ◌ Registry.is_member
second_listed = refl

abbrev two : ℕ
two = 2

registered_unique_example : two ≡ 2
registered_unique_example = registered_unique names calls two 2 second_listed second_listed refl
