-- ===== src/Client/Dirs.antt =====
-- client/client.go: readAll and Readdir.
use go9p.Base.{ℕ, zero, suc, List, [], ◌++◌, length, Option, none, some}
use go9p.Proto.Stat.{Stat}
use go9p.Proto.Stat.Entries.{parse_stats}
use go9p.Proto.Marshal.Parser.{ok, err, panic}
use go9p.Proto.Marshal.Parser as Parser
use go9p.Proto.Call.{FCall}
use go9p.Fs.Result.{Text}
use go9p.Fs.Permissions.{oread}
use go9p.Client.{
  Delivery, GoError, eof, parse_error, Outcome, done, failed, panicked, blocked, unfinished, World,
}
use go9p.Client.Run.{Run, ◌>>=◌}
use go9p.Client.Files.{File, read, open_path, close}

module _ {S : Type 0} where
  -- One turn of bytes.Buffer.ReadFrom: io.EOF ends it without an error.
  unfoldable pub gathered :
      List ℕ
      → (File → List ℕ → Run S (List ℕ × Option GoError))
      → Outcome (List ℕ × File) × World S
      → Outcome (List ℕ × Option GoError) × World S
  gathered buff next (done (bs, f), w) = next f (buff ++ bs) w
  gathered buff next (failed eof, w) = (done (buff, none), w)
  gathered buff next (failed e, w) = (done (buff, some e), w)
  gathered buff next (panicked, w) = (panicked, w)
  gathered buff next (blocked, w) = (blocked, w)
  gathered buff next (unfinished, w) = (unfinished, w)

  unfoldable pub closed_with :
      {A : Type 0} → Outcome A → Outcome Unit × World S → Outcome A × World S
  closed_with o (done _, w) = (o, w)
  closed_with o (failed _, w) = (o, w)
  closed_with o (panicked, w) = (panicked, w)
  closed_with o (blocked, w) = (blocked, w)
  closed_with o (unfinished, w) = (unfinished, w)

module _ {S : Type 0} (send : FCall → S → Delivery × S) where
  -- `room n` is the free part of a bytes.Buffer that holds n bytes, when ReadFrom reads into it.
  unfoldable pub read_all : (ℕ → ℕ) → ℕ → File → List ℕ → Run S (List ℕ × Option GoError)
  unfolding gathered
  read_all room zero f buff w = (unfinished, w)
  read_all room (suc fuel) f buff w =
      gathered buff (read_all room fuel) (read send f (room (length buff)) w)

  -- `defer file.Close()`, whose error is dropped.
  unfoldable pub closing : {A : Type 0} → File → Outcome A × World S → Outcome A × World S
  unfolding closed_with
  closing f (blocked, w) = (blocked, w)
  closing f (unfinished, w) = (unfinished, w)
  closing f (o, w) = closed_with o (close send f w)

  unfoldable pub entries : Option (Parser.Outcome (List Stat)) → Run S (List Stat)
  entries (some (ok stats)) w = (done stats, w)
  entries (some (err e)) w = (failed (parse_error e), w)
  entries (some panic) w = (panicked, w)
  entries none w = (unfinished, w)

  unfoldable pub read_entries : (ℕ → ℕ) → ℕ → File → Run S (List Stat)
  unfolding entries
  read_entries room fuel f = do (bs, e) ← read_all room fuel f []; entries (parse_stats bs)

  unfoldable pub listed : (ℕ → ℕ) → ℕ → Outcome File × World S → Outcome (List Stat) × World S
  unfolding closing read_entries
  listed room fuel (done f, w) = closing f (read_entries room fuel f w)
  listed room fuel (failed e, w) = (failed e, w)
  listed room fuel (panicked, w) = (panicked, w)
  listed room fuel (blocked, w) = (blocked, w)
  listed room fuel (unfinished, w) = (unfinished, w)

  -- The error of readAll is dropped: the bytes that came before it are parsed.
  unfoldable pub readdir : (ℕ → ℕ) → ℕ → Text → Run S (List Stat)
  unfolding listed
  readdir room fuel path w = listed room fuel (open_path send path oread w)
