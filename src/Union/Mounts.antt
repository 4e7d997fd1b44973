-- ===== src/Union/Mounts.antt =====
-- Mounting and unmounting in union/union.go, and the choice of a mount for a new file.
use go9p.Base.{
  ℕ, [], ◌∷◌, ◌++◌, none, some, Bool, true, false, ◌&&◌, if◌then◌else◌, same_text, same_text_refl,
  ==_refl, ◌≡◌, refl, ap, ◌∙◌, some-injective,
}
use mathlib.Core.Path.{subst}
use go9p.Fs.Result.{Text}
use go9p.Union.{
  MountOption, replace_old, before_old, after_old, MountEntry, MountTable, insert_entry, mount,
  is_client, remove_entries, unmount_client, find_create, creating_mount,
}

-- No entry passes the test.
abbrev pub NonePass : (MountEntry → Bool) → MountTable → Type 0
NonePass gone [] = Unit
NonePass gone (me ∷ table) = (gone me ≡ false) × NonePass gone table

remove_entries-NonePass :
    (gone : MountEntry → Bool) (table : MountTable)
    → NonePass gone table
    → remove_entries gone table ≡ table
unfolding remove_entries
remove_entries-NonePass gone [] n = refl
remove_entries-NonePass gone (me ∷ table) n =
    rw (n.0) (ap (λ t. me ∷ t) (remove_entries-NonePass gone table n.1))

remove_entries-last :
    (gone : MountEntry → Bool) (table : MountTable) (me : MountEntry)
    → NonePass gone table
    → gone me ≡ true
    → remove_entries gone (table ++ (me ∷ [])) ≡ table
unfolding remove_entries
remove_entries-last gone [] me n e = rw e refl
remove_entries-last gone (x ∷ table) me n e =
    rw (n.0) (ap (λ t. x ∷ t) (remove_entries-last gone table me n.1 e))

remove_entries-insert :
    (gone : MountEntry → Bool) (option : MountOption) (me : MountEntry) (table : MountTable)
    → NonePass gone table
    → gone me ≡ true
    → remove_entries gone (insert_entry option me table) ≡ table
unfolding remove_entries insert_entry
remove_entries-insert gone replace_old me table n e = rw e (remove_entries-NonePass gone table n)
remove_entries-insert gone before_old me table n e = rw e (remove_entries-NonePass gone table n)
remove_entries-insert gone after_old me table n e = remove_entries-last gone table me n e

-- The client is mounted at the path.
abbrev pub mounted_at : ℕ → Text → MountEntry → Bool
mounted_at c old me = same_text me.mount_point old && is_client c me.target

-- UnmountClient after Mount, whatever the option, gives back the table as it was before, in its
-- order, if the client was not mounted at the path already.
pub unmount_client-mount :
    (c : ℕ) (old : Text) (option : MountOption) (create : Bool) (table : MountTable)
    → NonePass (mounted_at c old) table
    → unmount_client c old (mount c old option create table) ≡ table
unfolding unmount_client mount is_client
unmount_client-mount c old option create table n =
    remove_entries-insert (mounted_at c old) option _ table n (rw (same_text_refl old) (==_refl c))

-- What the search passes by: an entry that does not create at the path, and replaces nothing.
abbrev pub Passed : Text → MountTable → Type 0
Passed path [] = Unit
Passed path (me ∷ table) =
    ((me.create && same_text path me.mount_point) ≡ false)
    × (me.replace ≡ false)
    × Passed path table

-- The entry found: the first that creates at the path, with none that replaces before it.
pub record Found (path : Text) (table : MountTable) (me : MountEntry) : Type 0 where
  pub earlier : MountTable
  pub later : MountTable
  pub split : table ≡ earlier ++ (me ∷ later)
  pub passed : Passed path earlier
  pub creates : (me.create && same_text path me.mount_point) ≡ true

Found-after :
    (path : Text) (x me : MountEntry) (table : MountTable)
    → (x.create && same_text path x.mount_point) ≡ false
    → x.replace ≡ false
    → Found path table me
    → Found path (x ∷ table) me
Found-after path x me table e r f = record {
  earlier = x ∷ f.earlier;
  later = f.later;
  split = ap (λ t. x ∷ t) f.split;
  passed = (e, r, f.passed);
  creates = f.creates;
}

find-Passed :
    (path : Text) (earlier : MountTable) (me : MountEntry) (later : MountTable)
    → Passed path earlier
    → (me.create && same_text path me.mount_point) ≡ true
    → find_create path (earlier ++ (me ∷ later)) ≡ some me
unfolding find_create
find-Passed path [] me later p e = rw e refl
find-Passed path (x ∷ earlier) me later p e =
    rw (p.0, p.1) (find-Passed path earlier me later p.2 e)

Found-first :
    (path : Text) (x : MountEntry) (table : MountTable)
    → (x.create && same_text path x.mount_point) ≡ true
    → Found path (x ∷ table) x
Found-first path x table c = record {
  earlier = [];
  later = table;
  split = refl;
  passed = tt;
  creates = c;
}

Found-step :
    (b r : Bool) (path : Text) (x me : MountEntry) (table : MountTable)
    → (x.create && same_text path x.mount_point) ≡ b
    → x.replace ≡ r
    → (find_create path table ≡ some me → Found path table me)
    → (if b then some x else if r then none else find_create path table) ≡ some me
    → Found path (x ∷ table) me
Found-step true r path x me table c h go e =
    subst (Found path (x ∷ table)) (some-injective x me e) (Found-first path x table c)
Found-step false true path x me table c h go e = cc e
Found-step false false path x me table c h go e = Found-after path x me table c h (go e)

found :
    (path : Text) (table : MountTable) (me : MountEntry)
    → find_create path table ≡ some me
    → Found path table me
unfolding find_create
found path [] me e = cc e
found path (x ∷ table) me e =
    Found-step (x.create && same_text path x.mount_point) x.replace path x me table refl refl
      (found path table me) e

-- The mount that a directory creates in: its own if that one permits creation, and else the entry
-- that is found.
pub data Chosen (own : MountEntry) (path : Text) (table : MountTable) : MountEntry → Type 0 where
  its_own : own.create ≡ true → Chosen own path table own
  of_table : (me : MountEntry) → own.create ≡ false → Found path table me → Chosen own path table me

find-Found :
    (path : Text) (table : MountTable) (me : MountEntry)
    → Found path table me
    → find_create path table ≡ some me
find-Found path table me f =
    ap (find_create path) f.split ∙ find-Passed path f.earlier me f.later f.passed f.creates

Chosen-if :
    (b : Bool) (own : MountEntry) (path : Text) (table : MountTable) (me : MountEntry)
    → own.create ≡ b
    → (if b then some own else find_create path table) ≡ some me
    → Chosen own path table me
Chosen-if true own path table me e h =
    subst (Chosen own path table) (some-injective own me h) (its_own e)
Chosen-if false own path table me e h = of_table me e (found path table me h)

creating-Chosen :
    (own : MountEntry) (path : Text) (table : MountTable) (me : MountEntry)
    → Chosen own path table me
    → creating_mount own path table ≡ some me
unfolding creating_mount
creating-Chosen own path table _ (its_own e) = rw e refl
creating-Chosen own path table _ (of_table me e f) = rw e (find-Found path table me f)

-- CreateFile and CreateDir of a directory create in a mount exactly if it is the directory's own and
-- permits creation, or the own one does not, and it is the first of the table that creates at the
-- path of the directory, and none before it replaces, wherever that one is mounted.
pub creating_mount-Chosen :
    (own : MountEntry) (path : Text) (table : MountTable) (me : MountEntry)
    → (creating_mount own path table ≡ some me → Chosen own path table me)
      × (Chosen own path table me → creating_mount own path table ≡ some me)
unfolding creating_mount
creating_mount-Chosen own path table me =
    (Chosen-if own.create own path table me refl, creating-Chosen own path table me)
