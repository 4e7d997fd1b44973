-- ===== src/Tests/ClientRuns.antt =====
-- The client of client/client.go at work.
use go9p.Base.{◌≤◌, ◌<◌, [], ◌∷◌, length, none, ◌≡◌, refl, arith, bytes}
use go9p.Fs.Static.File.{StaticFile, static_file_write}
use go9p.Client.{
  done, World, take_tag, return_tag, get_response, worker, has_call, delete_call, delete_key,
  set_key,
}
use go9p.Client.Run.{◌>>=◌, next, pure, on_client}
use go9p.Proto.Call.{get_tag, header_of}
use go9p.Client.Session.{fresh_client}
use go9p.Client.Tags.{Sharing, made, step, taken, count, take_tag-unheld}
use go9p.Client.Paths.{split_path, remove_blank}
use go9p.Client.Names.{path_dir, path_base}
use go9p.Client.Files.{
  File, write, twrite_file, write_chunks, write_chunk, write_response, write_call, limit,
}
use go9p.Client.Dirs.{read_all}
use go9p.Client.Transfer.Writing.{after_twrite, write-held}
use go9p.Client.Transfer.Reading.{read_all-rest}
use go9p.Tests.Files.{stat_of}
use go9p.Tests.Peer.{serve_file, file_server}

abbrev start_sharing : Sharing
start_sharing = record { client = fresh_client; held = [] }

abbrev one_held : Sharing
one_held = record { client = (take_tag 7 fresh_client).1; held = (take_tag 7 fresh_client).0 ∷ [] }

take_tag-unheld_example :
    (1 < (take_tag 7 one_held.client).0)
    × ((take_tag 7 one_held.client).0 < 65536)
    × (count (take_tag 7 one_held.client).0 one_held.held ≡ 0)
take_tag-unheld_example =
    take_tag-unheld one_held 7
      (step start_sharing one_held made (taken fresh_client [] 7 (omega arith))) (omega arith)

abbrev score : StaticFile
score = record { f_stat = stat_of (bytes "notes") 0 0; contents = bytes "one two three" }

abbrev score_world : World StaticFile
score_world = record { client = record fresh_client { msize = 28 }; peer = score }

abbrev score_file : File
score_file = record { fid = 1; offset = 4; iounit = 100 }

write-held_example :
    (last : World StaticFile) × (write serve_file 9 score_file (bytes "TWO, FOUR") score_world
      ≡ (done ((9, none), record score_file { offset = 13 }), last))
    × (length last.peer.contents ≤ 1000)
    × (last.peer.contents ≡ after_twrite (bytes "one two three") 4 (bytes "TWO, FOUR"))
unfolding file_server fresh_client
write-held_example =
    write-held serve_file 28 score_file (file_server 1 28) (omega arith) (omega arith) (omega arith)
      9 (bytes "TWO, FOUR") score_world (omega arith) (omega arith) refl (omega arith)

read_all-rest_example :
    (last : World StaticFile) × (read_all serve_file (λ n. 512) 20 score_file [] score_world
      ≡ (done (bytes "two three", none), last))
    × (last.peer.contents ≡ bytes "one two three")
unfolding file_server fresh_client
read_all-rest_example =
    read_all-rest serve_file 28 1 100 (file_server 1 28) (omega arith) (omega arith) (omega arith)
      (λ n. 512) 20 4 score_world (λ n. omega arith) (omega arith) (omega arith) (omega arith) refl
      (omega arith)

-- The write of nine bytes above, five to a call.
overwritten :
    (write serve_file 9 score_file (bytes "TWO, FOUR") score_world).1.peer.contents
    ≡ bytes "one TWO, FOUR"
unfolding write twrite_file write_chunks write_chunk write_response write_call limit get_response
    worker has_call delete_call delete_key set_key return_tag take_tag fresh_client get_tag
    header_of ◌>>=◌ next pure on_client static_file_write
overwritten = refl

names_split :
    remove_blank (split_path (bytes "/usr//glenda/")) ≡ bytes "usr" ∷ (bytes "glenda" ∷ [])
unfolding remove_blank split_path
names_split = refl

dir_of : path_dir (bytes "/usr/./glenda/../rob/notes") ≡ bytes "/usr/rob"
unfolding path_dir split_path
dir_of = refl

-- A name without a directory is created in a directory that is called ".".
dir_of_name : path_dir (bytes "notes") ≡ bytes "."
unfolding path_dir split_path
dir_of_name = refl

base_of : path_base (bytes "/usr/rob/") ≡ bytes "rob"
unfolding path_base split_path remove_blank
base_of = refl
