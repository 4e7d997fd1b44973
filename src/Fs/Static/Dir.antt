-- ===== src/Fs/Static/Dir.antt =====
-- StaticDir of fs/static.go: a tree of files and directories on a
-- heap. A node is an address; every address that is passed around has an object.
pub mod Views
pub mod Children
use go9p.Base.{
  ℕ, ◌/◌, ◌%◌, ◌^◌, List, [], ◌∷◌, ◌++◌, Option, none, some, Bool, true, false, not, ◌==◌, ◌||◌,
  if◌then◌else◌, bit_or, bytes, same_text,
}
use go9p.Proto.Stat.{Stat}
use go9p.Fs.Result.{Text, Result, ok, err, panic}
use go9p.Fs.Static.File.{StaticFile, static_file_stat}

pub record StaticDir : Type 0 where
  pub d_stat : Stat
  pub children : List ℕ
  pub parent : Option ℕ

-- A StaticFile has its parent in the embedded BaseFile.
pub data Object : Type 0 where
  static_file : StaticFile → Option ℕ → Object
  static_dir : StaticDir → Object

abbrev pub Heap : Type 0
Heap = ℕ → Object

-- NewStaticDir: the mode is marked, and the type of the qid follows it.
unfoldable pub new_static_dir : Stat → StaticDir
new_static_dir stat =
    let mode = bit_or stat.mode (2 ^ 31) in
    record {
      d_stat = record stat { mode = mode; qid = record stat.qid { qtype = mode / 2 ^ 24 % 2 ^ 8 } };
      children = [];
      parent = none;
    }

-- Stat and Parent of either type.
abbrev pub object_stat : Object → Stat
object_stat (static_file f p) = (static_file_stat f).0
object_stat (static_dir d) = d.d_stat

unfoldable pub object_name : Object → Text
object_name (static_file f p) = f.f_stat.name
object_name (static_dir d) = d.d_stat.name

abbrev pub object_parent : Object → Option ℕ
object_parent (static_file f p) = p
object_parent (static_dir d) = d.parent

pub with_parent : Option ℕ → Object → Object
with_parent p (static_file f _) = static_file f p
with_parent p (static_dir d) = static_dir (record d { parent = p })

unfoldable pub put : ℕ → Object → Heap → Heap
put a o h k = if k == a then o else h k

unfoldable pub set_parent : Option ℕ → ℕ → Heap → Heap
unfolding put with_parent
set_parent p n h = put n (with_parent p (h n)) h

-- `ret[n.Stat().Name] = n` for each child in turn: the last of a name stays.
unfoldable pub later : Option ℕ → Option ℕ → Option ℕ
later (some n) o = some n
later none o = o

unfoldable pub child_named : (ℕ → Text) → List ℕ → Text → Option ℕ
unfolding later
child_named names [] name = none
child_named names (c ∷ cs) name =
    later (child_named names cs name) (if same_text (names c) name then some c else none)

abbrev pub node_name : Heap → ℕ → Text
node_name h n = object_name (h n)

unfoldable pub children_of : Object → List ℕ
children_of (static_file f p) = []
children_of (static_dir d) = d.children

-- `Children()[name]`
unfoldable pub child : Heap → ℕ → Text → Option ℕ
unfolding children_of child_named
child h d name = child_named (node_name h) (children_of (h d)) name

has_name : (ℕ → Text) → List ℕ → Text → Bool
has_name names [] name = false
has_name names (c ∷ cs) name = same_text (names c) name || has_name names cs name

unfoldable pub with_children : List ℕ → Object → Object
with_children cs (static_file f p) = static_file f p
with_children cs (static_dir d) = static_dir (record d { children = cs })

-- AddChild. On a file the type assertion for a ModDir has failed before.
unfoldable pub add_child : Heap → ℕ → ℕ → Result (Unit {0}) × Heap
unfolding has_name with_children set_parent put children_of
add_child h d n =
    if has_name (node_name h) (children_of (h d)) (node_name h n)
    then (err (node_name h n ++ bytes " already exists"), h)
    else (
      ok tt,
      set_parent (some d) n (put d (with_children (children_of (h d) ++ (n ∷ [])) (h d)) h),
    )

-- The loop of DeleteChild: the children that stay, and the others lose their parent.
stay : (ℕ → Text) → Text → List ℕ → List ℕ
stay names name [] = []
stay names name (c ∷ cs) =
    let rest = stay names name cs in if same_text (names c) name then rest else c ∷ rest

orphan : (ℕ → Text) → Text → List ℕ → Heap → Heap
unfolding set_parent
orphan names name [] h = h
orphan names name (c ∷ cs) h =
    orphan names name cs (if same_text (names c) name then set_parent none c h else h)

unfoldable pub delete_child : Heap → ℕ → Text → Heap
unfolding stay orphan put with_children children_of
delete_child h d name =
    let cs = children_of (h d) in
    let h' = orphan (node_name h) name cs h in
    put d (with_children (stay (node_name h) name cs) (h' d)) h'
