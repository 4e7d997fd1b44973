-- ===== src/Fs/Server.antt =====
-- fs/server.go: the handlers of the server, one connection at a time. Each handler runs as one step.
pub mod Conn
pub mod Session
pub mod Walk
pub mod Files
pub mod Data
pub mod Attributes
pub mod Fids
pub mod Tagged
pub mod Dispatch
use go9p.Base.{ℕ, Bool}
use go9p.Serve.{Srv}
use go9p.Fs.Nodes.{Nodes, FileSystem}
use go9p.Fs.Server.Conn.{State, Tags, tag_context, drop_context}
use go9p.Fs.Server.Session.{version, auth, attach, clunk}
use go9p.Fs.Server.Walk.{walk}
use go9p.Fs.Server.Files.{open_fid, create, remove}
use go9p.Fs.Server.Data.{read, write}
use go9p.Fs.Server.Attributes.{stat_fid, wstat}

module _ {W N : Type 0} where
  with_tags : State W N → Tags → State W N
  with_tags s tags = record s { conn = record s.conn { tags = tags } }

  unfoldable pub take_context : ℕ → State W N → ℕ × State W N
  unfolding with_tags tag_context
  take_context tag s = let (ctx, tags) = tag_context tag s.conn.tags in (ctx, with_tags s tags)

  unfoldable pub release_context : ℕ → State W N → State W N
  unfolding with_tags drop_context
  release_context tag s = with_tags s (drop_context tag s.conn.tags)

  -- The server of a file system, as the Srv that server.go serves.
  abbrev pub server : Nodes W N → FileSystem W N → Srv (State W N)
  server nodes fs = record {
    version = version nodes fs;
    auth = auth nodes fs;
    attach = attach nodes fs;
    walk = walk nodes fs;
    open_fid = open_fid nodes fs;
    create = create nodes fs;
    read = read nodes;
    write = write nodes;
    clunk = clunk nodes fs;
    remove = remove nodes fs;
    stat_fid = stat_fid nodes fs;
    wstat = wstat nodes fs;
    tag_context = take_context;
    drop_context = release_context;
    is_cancelled = λ ctx s. s.conn.tags.cancelled ctx;
  }
