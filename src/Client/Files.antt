-- ===== src/Client/Files.antt =====
-- client/client.go: a File and its Read, ReadAt, Write, WriteAt and Close; Open, Create, Readdir and
-- readAll.
use go9p.Base.{
  ℕ, zero, suc, ◌+◌, ◌-◌, ◌%◌, ◌^◌, List, [], ◌∷◌, length, take, drop, Option, none, some, not,
  ◌==◌, ltb, if◌then◌else◌, bytes, same_text,
}
use go9p.Proto.Header.Types.{topen_type, tread_type, twrite_type, tflush_type}
use go9p.Proto.Call.{FCall, topen, ropen, tread, rread, twrite, rwrite, tflush, rerror}
use go9p.Fs.Result.{Text}
use go9p.Client.{
  Client, Delivery, uncomposed, unsent, GoError, message, eof, write_error, Outcome, done, failed,
  panicked, unfinished, World, Response, replied, lost, take_tag, get_response, has_call,
  delete_call,
}
use go9p.Client.Run.{Run, pure, ◌>>=◌, fail, panic, on_client}
use go9p.Client.Paths.{walk_fid, clunk_fid, give_up}

pub record File : Type 0 where
  pub fid : ℕ
  pub offset : ℕ
  pub iounit : ℕ

-- math.MaxUint32 in place of no iounit at all.
unfoldable pub opened : ℕ → ℕ → File
opened fid iounit = record {
  fid = fid;
  offset = 0;
  iounit = (if iounit == 0 then 0xFFFFFFFF else iounit);
}

-- The length that a slice of the given length is cut to: `c.msize-k` is a subtraction on uint32.
unfoldable pub limit : ℕ → ℕ → ℕ → ℕ → ℕ
limit k msize iounit len =
    let most = (msize + 2 ^ 32 - k) % 2 ^ 32 in
    let len' = if ltb most len then most else len in if ltb iounit len' then iounit else len'

-- What Write and WriteAt return: how many bytes were taken, and the error that ended the loop.
abbrev pub Written : Type 0
Written = ℕ × Option GoError

-- The calls, as the code makes them with a tag.
unfoldable pub open_call : ℕ → ℕ → ℕ → FCall
open_call fid mode tag =
    topen (record { header = record { type = topen_type; tag = tag }; fid = fid; mode = mode })

unfoldable pub read_call : File → ℕ → ℕ → ℕ → FCall
read_call f offset len tag = tread (record {
  header = record { type = tread_type; tag = tag };
  fid = f.fid;
  offset = offset;
  count = len % 2 ^ 32;
})

unfoldable pub write_call : File → ℕ → List ℕ → ℕ → FCall
write_call f offset b tag = twrite (record {
  header = record { type = twrite_type; tag = tag };
  fid = f.fid;
  offset = offset;
  count = length b % 2 ^ 32;
  bytes = b;
})

module _ {S : Type 0} (send : FCall → S → Delivery × S) where
  unfoldable pub open_response : ℕ → Response → Run S File
  unfolding opened
  open_response fid (replied (ropen r)) = pure (opened fid r.iounit)
  open_response fid (replied (rerror r)) = give_up fid (message r.ename)
  open_response fid (replied _) = give_up fid (message (bytes "Unexpected response to TOpen."))
  open_response fid (lost e) = give_up fid e

  unfoldable pub open_path : Text → ℕ → Run S File
  unfolding open_response
  open_path path mode = do
    fid ← walk_fid send path
    tag ← on_client (take_tag fid)
    res ← get_response send (open_call fid mode tag)
    open_response fid res

  -- The channel of a call that is flushed is closed; closing no channel panics. The answer to the
  -- flush has no channel, and the worker drops it.
  unfoldable pub flushed : ℕ → Client → Delivery × S → Outcome Unit × World S
  flushed t c (uncomposed, s) = (panicked, record { client = c; peer = s })
  flushed t c (unsent, s) = (failed write_error, record { client = c; peer = s })
  flushed t c (_, s) =
      if has_call c.calls t
      then (done tt, record { client = record c { calls = delete_call c.calls t }; peer = s })
      else (panicked, record { client = c; peer = s })

  unfoldable pub flush_tag : ℕ → Run S Unit
  unfolding flushed
  flush_tag t w =
      let (tag, c) = take_tag 0 w.client in
      flushed t c (
        send (tflush (record { header = record { type = tflush_type; tag = tag }; oldtag = t }))
          w.peer)

  unfoldable pub flush_tags : ℕ → List (ℕ × ℕ) → Run S Unit
  unfolding flush_tag
  flush_tags fid [] = pure tt
  flush_tags fid ((t, cf) ∷ rest) =
      if cf == fid then (do _ ← flush_tag t; flush_tags fid rest) else flush_tags fid rest

  unfoldable pub flush_all : ℕ → Run S Unit
  unfolding flush_tags
  flush_all fid w = flush_tags fid w.client.tag_fids w

  unfoldable pub close : File → Run S Unit
  close f = do _ ← flush_all f.fid; clunk_fid f.fid

  -- What Read and ReadAt do with the answer, for a slice of `len` bytes; both move the offset.
  unfoldable pub read_response : File → ℕ → Response → Run S (List ℕ × File)
  read_response f len (replied (rread r)) =
      let n = if ltb len (length r.bytes) then len else length r.bytes in
      if not (n % 2 ^ 32 == r.count)
      then panic
      else if length r.bytes == 0
      then fail eof
      else pure (take n r.bytes, record f { offset = (f.offset + n) % 2 ^ 64 })
  read_response f len (replied (rerror r)) =
      if same_text r.ename (bytes "EOF") then fail eof else fail (message r.ename)
  read_response f len (replied _) = fail (message (bytes "Unexpected response to TRead."))
  read_response f len (lost e) = fail e

  unfoldable pub read_from : File → ℕ → ℕ → Run S (List ℕ × File)
  unfolding read_response
  read_from f offset size = do
    msize ← on_client (λ c. (c.msize, c))
    let len = limit 11 msize f.iounit size
    tag ← on_client (take_tag f.fid)
    res ← get_response send (read_call f offset len tag)
    read_response f len res

  -- Read into a slice of `size` bytes: the bytes read, and the file as it is then. An error leaves
  -- the file as it was.
  unfoldable pub read : File → ℕ → Run S (List ℕ × File)
  unfolding read_from
  read f size = read_from f f.offset size

  unfoldable pub read_at : File → ℕ → ℕ → Run S (List ℕ × File)
  unfolding read_from
  read_at f size off = read_from f (off % 2 ^ 64) size

  -- `next` is the rest of the loop, given r.Count.
  unfoldable pub write_response : ℕ → (ℕ → Run S Written) → Response → Run S Written
  write_response wrote next (replied (rwrite r)) = next r.count
  write_response wrote next (replied (rerror r)) = pure (wrote, some (message r.ename))
  write_response wrote next (replied _) =
      pure (wrote, some (message (bytes "Unexpected response to TWrite.")))
  write_response wrote next (lost e) = pure (wrote, some e)

  unfoldable pub write_chunk : File → List ℕ → ℕ → ℕ → (ℕ → Run S Written) → Run S Written
  unfolding write_response
  write_chunk f p off wrote next = do
    msize ← on_client (λ c. (c.msize, c))
    let b = take (limit 23 msize f.iounit (length p)) p
    tag ← on_client (take_tag f.fid)
    res ← get_response send (write_call f ((off + wrote) % 2 ^ 64) b tag)
    write_response wrote next res

  -- The loop of twrite: `p` is what is left to write, and `p[r.Count:]` panics past its end.
  unfoldable pub write_chunks : ℕ → File → ℕ → ℕ → List ℕ → Run S Written
  unfolding write_chunk
  write_chunks fuel f off wrote [] w = pure (wrote, none) w
  write_chunks zero f off wrote (b ∷ p) w = (unfinished, w)
  write_chunks (suc fuel) f off wrote (b ∷ p) w =
      write_chunk f (b ∷ p) off wrote
        (λ count.
          if ltb (length (b ∷ p)) count
          then panic
          else write_chunks fuel f off (wrote + count) (drop count (b ∷ p)))
        w

  unfoldable pub twrite_file : ℕ → File → List ℕ → ℕ → Run S Written
  unfolding write_chunks
  twrite_file fuel f p off = write_chunks fuel f off 0 p

  unfoldable pub write : ℕ → File → List ℕ → Run S (Written × File)
  write fuel f p = do
    (n, e) ← twrite_file fuel f p f.offset
    pure ((n, e), record f { offset = (f.offset + n) % 2 ^ 64 })

  unfoldable pub write_at : ℕ → File → List ℕ → ℕ → Run S Written
  write_at fuel f p off = twrite_file fuel f p (off % 2 ^ 64)
