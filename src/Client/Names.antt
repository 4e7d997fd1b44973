-- ===== src/Client/Names.antt =====
-- path.Dir and path.Base of Go, for Create of client/client.go, and Create itself.
use go9p.Base.{
  ℕ, List, [], ◌∷◌, ◌++◌, Bool, true, false, ◌==◌, if◌then◌else◌, bytes, same_text, ◌%◌, ◌^◌,
}
use go9p.Proto.Header.Types.{tcreate_type}
use go9p.Proto.Call.{FCall, tcreate, rcreate, rerror}
use go9p.Fs.Result.{Text}
use go9p.Fs.Permissions.{ordwr}
use go9p.Client.{Delivery, message, Response, replied, lost, take_tag, get_response}
use go9p.Client.Run.{Run, pure, ◌>>=◌, on_client}
use go9p.Client.Paths.{split_path, remove_blank, walk_fid, give_up}
use go9p.Client.Files.{File, opened}

-- The names up to the last slash.
all_but_last : List Text → List Text
all_but_last [] = []
all_but_last (x ∷ []) = []
all_but_last (x ∷ (y ∷ xs)) = x ∷ all_but_last (y ∷ xs)

last_part : Text → List Text → Text
last_part absent [] = absent
last_part absent (x ∷ []) = x
last_part absent (x ∷ (y ∷ xs)) = last_part absent (y ∷ xs)

-- `..` takes the last name away, if there is one that is not itself `..`.
up : Bool → List Text → List Text
up true [] = []
up false [] = bytes ".." ∷ []
up rooted (x ∷ kept) = if same_text x (bytes "..") then bytes ".." ∷ (x ∷ kept) else kept

-- path.Clean on the names of a path, the names that are kept last name first.
unfoldable pub clean : Bool → List Text → List Text → List Text
unfolding up
clean rooted kept [] = kept
clean rooted kept ([] ∷ parts) = clean rooted kept parts
clean rooted kept ((b ∷ bs) ∷ parts) =
    let skip = clean rooted kept parts in
    let back = clean rooted (up rooted kept) parts in
    let keep = clean rooted ((b ∷ bs) ∷ kept) parts in
    if same_text (b ∷ bs) (bytes ".")
    then skip
    else if same_text (b ∷ bs) (bytes "..")
    then back
    else keep

joined : Text → List Text → Text
joined right [] = right
joined [] (x ∷ kept) = joined x kept
joined (b ∷ right) (x ∷ kept) = joined (x ++ (47 ∷ (b ∷ right))) kept

is_rooted : List ℕ → Bool
is_rooted [] = false
is_rooted (b ∷ path) = b == 47

clean_text : Bool → Text → Text
clean_text true text = 47 ∷ text
clean_text false [] = bytes "."
clean_text false (b ∷ bs) = b ∷ bs

unfoldable pub path_dir : Text → Text
unfolding all_but_last clean joined is_rooted clean_text
path_dir path =
    clean_text (is_rooted path)
      (joined [] (clean (is_rooted path) [] (all_but_last (split_path path))))

unfoldable pub path_base : Text → Text
unfolding last_part
path_base [] = bytes "."
path_base (b ∷ path) = last_part (bytes "/") (remove_blank (split_path (b ∷ path)))

unfoldable pub create_call : Text → ℕ → ℕ → ℕ → FCall
create_call name perm fid tag = tcreate (record {
  header = record { type = tcreate_type; tag = tag };
  fid = fid;
  name = path_base name;
  perm = perm % 2 ^ 32;
  mode = ordwr;
})

module _ {S : Type 0} (send : FCall → S → Delivery × S) where
  unfoldable pub create_response : ℕ → Response → Run S File
  create_response fid (replied (rcreate r)) = pure (opened fid r.iounit)
  create_response fid (replied (rerror r)) = give_up fid (message r.ename)
  create_response fid (replied _) = give_up fid (message (bytes "Unexpected response to TCreate."))
  create_response fid (lost e) = give_up fid e

  unfoldable pub create : Text → ℕ → Run S File
  unfolding create_response
  create name perm = do
    fid ← walk_fid send (path_dir name)
    tag ← on_client (take_tag fid)
    res ← get_response send (create_call name perm fid tag)
    create_response fid res
