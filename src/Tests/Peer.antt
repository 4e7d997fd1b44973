-- ===== src/Tests/Peer.antt =====
-- A peer that keeps one file of fs/static.go, and refuses every other call.
use go9p.Base.{ℕ, ◌≤◌, List, length, refl, ap, arith, bytes}
use go9p.Proto.Header.Types.{rerror_type, rread_type, rwrite_type}
use go9p.Proto.Messages.Read.{TRead}
use go9p.Proto.Messages.Write.{TWrite}
use go9p.Proto.Call.{FCall, get_tag, tread, rread, twrite, rwrite, rerror}
use go9p.Fs.Result.{Result, ok}
use go9p.Fs.Static.File.{StaticFile, static_file_read, static_file_write}
use go9p.Fs.Static.File.Contents.{
  static_file_read-take, static_file_write-after_write, after_write, length-bytes_after_write,
}
use go9p.Client.{Delivery, received, silent}
use go9p.Client.Transfer.{FileServer}

abbrev refusal : FCall → FCall
refusal f =
    rerror (record { header = record { type = rerror_type; tag = get_tag f }; ename = bytes "no" })

abbrev read_reply : TRead → StaticFile → Result (List ℕ) → Delivery × StaticFile
read_reply t s (ok bs) = (
  received (
      rread (record {
        header = record { type = rread_type; tag = t.header.tag };
        count = length bs;
        bytes = bs;
      })),
  s,
)
read_reply t s _ = (silent, s)

abbrev write_reply : TWrite → StaticFile → Result (ℕ × StaticFile) → Delivery × StaticFile
write_reply t s (ok (n, s')) = (
  received
      (rwrite (record { header = record { type = rwrite_type; tag = t.header.tag }; count = n })),
  s',
)
write_reply t s _ = (silent, s)

abbrev pub serve_file : FCall → StaticFile → Delivery × StaticFile
serve_file (tread t) s = read_reply t s (static_file_read s t.offset t.count)
serve_file (twrite t) s = write_reply t s (static_file_write 1000 s t.offset t.bytes)
serve_file f s = (received (refusal f), s)

unfoldable pub file_server : (fid msize : ℕ) → FileServer serve_file fid msize
file_server fid msize = record {
  ready = λ s. length s.contents ≤ 1000;
  holds = λ s. s.contents;
  capacity = 1000;
  addressable = omega arith;
  after_read = λ t s. s;
  after_write = λ t s. after_write s t.offset t.bytes;
  reads = λ t s small e fits room.
      ap (read_reply t s) (static_file_read-take s t.offset t.count (omega arith) room);
  writes = λ t s small e count fits room. ap (write_reply t s) (
      static_file_write-after_write 1000 s t.offset t.bytes (omega arith) (omega arith)
        (omega arith));
  read_ready = λ t s small. small;
  read_holds = λ t s. refl;
  write_ready =
      λ t s small fits room. ground (arith, length-bytes_after_write s.contents t.offset t.bytes);
  write_holds = λ t s small fits room. refl;
}
