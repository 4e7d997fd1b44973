-- ===== src/Tests/Dirs.antt =====
-- A directory in memory with one file, and a second file to add.
use go9p.Base.{zero, suc, [], ◌∷◌, none, some, bytes, ◌≡◌, refl}
use go9p.Fs.Result.{Text, ok}
use go9p.Fs.Static.Dir.{
  Object, static_file, static_dir, Heap, object_name, child, add_child, delete_child,
}
use go9p.Fs.Static.Dir.Views.{is_dir}
use go9p.Fs.Static.Dir.Children.{
  is_some, with_child, add_child-child, add_child-result, delete_child-child,
}
use go9p.Base.{arith}
use go9p.Fs.Static.Dir.{children_of}
use go9p.Fs.Static.Create.{World, create_static_file}
use go9p.Fs.Static.Create.Fresh.{Allocated, creation, new_file, create_static_file-creation}
use go9p.Tests.Files.{stat_of}

abbrev file_of : Text → Object
file_of name = static_file (record { f_stat = stat_of name 0x1A4 0; contents = [] }) none

-- 0 is the directory, with the file 1; 2 is a file on its own, and so is every other address.
abbrev heap : Heap
heap zero =
    static_dir (record { d_stat = stat_of (bytes "/") 0x1ED 0; children = 1 ∷ []; parent = none })
heap (suc zero) = file_of (bytes "notes")
heap _ = file_of (bytes "todo")

add_todo : add_child heap 0 2 ≡ (ok tt, with_child heap 0 2)
unfolding add_child object_name
add_todo = refl

add_child-child_example : child (with_child heap 0 2) 0 (bytes "notes") ≡ some 1
unfolding is_dir object_name child
add_child-child_example =
    add_child-child heap (with_child heap 0 2) 0 2 (bytes "notes") refl add_todo

add_child-result_example : add_child heap 0 2 ≡ (ok tt, with_child heap 0 2)
unfolding object_name child is_some
add_child-result_example = add_child-result heap 0 2

delete_child-child_example : child (delete_child heap 0 (bytes "notes")) 0 (bytes "notes") ≡ none
unfolding is_dir
delete_child-child_example = delete_child-child heap 0 (bytes "notes") (bytes "notes") refl

abbrev world : World
world = record { heap = heap; next = 2; uid = 7 }

world-Allocated : Allocated world 0
unfolding is_dir children_of
world-Allocated = record { dir = refl; below = omega arith; children = (omega arith, tt) }

create_static_file-creation_example :
    create_static_file 100 world 0 (bytes "glenda") (bytes "todo") 0x1A4
    ≡ creation
        (record world { uid = 8 })
        0
        (new_file 100 world (bytes "glenda") (bytes "todo") 0x1A4)
create_static_file-creation_example =
    create_static_file-creation 100 world 0 (bytes "glenda") (bytes "todo") 0x1A4 world-Allocated
