-- ===== src/Files/Objects.antt =====
-- The trait `FileLike` of api/src/file/mod.rs, and what api/src/file/fs.rs, net.rs and stdio.rs
-- implement it with. Pipes stand beside them as an interface.
use vegar.Prelude.{
  ℕ, Bool, true, false, List, LinuxResult, ok, err, ebadf, einval, enotdir, eperm, ◌>>=◌,
}
use vegar.FdTable.Objects.{FlattenObjects}
use vegar.FdTable.Calls.{get_file_like}
use vegar.Files.Sockets.{PollState, Net, Socket, recv, send, mapped}
use vegar.Files.Sockets
use vegar.Files.Stats.{
  Kstat, FileAttr, file_kstat, directory_kstat, stdin_kstat, stdout_kstat, socket_kstat,
}

-- `axio::SeekFrom`
pub data SeekFrom : Type 0 where
  start current end : ℕ → SeekFrom

-- The files of axfs, the sockets of axnet, pipes, and the end that the input and output of the
-- console come to.
pub record Inner (State : Type 0) : Type 1 where
  pub net : Net State
  pub FsFile : Type 0
  pub FsDirectory : Type 0
  pub Pipe : Type 0
  pub file_read : FsFile → ℕ → State → LinuxResult (List ℕ) × State
  pub file_write : FsFile → List ℕ → State → LinuxResult ℕ × State
  pub file_seek : FsFile → SeekFrom → State → LinuxResult ℕ × State
  pub get_attr : FsFile → State → LinuxResult FileAttr
  pub pipe_read : Pipe → ℕ → State → LinuxResult (List ℕ) × State
  pub pipe_write : Pipe → List ℕ → State → LinuxResult ℕ × State
  pub pipe_stat : Pipe → LinuxResult Kstat
  pub pipe_poll : Pipe → State → LinuxResult PollState
  pub stdin_read : ℕ → State → LinuxResult (List ℕ) × State
  pub stdout_write : List ℕ → State → LinuxResult ℕ × State

-- A file and a directory keep the path that they were opened by.
pub data Object {State : Type 0} (I : Inner State) : Type 0 where
  file : I.FsFile → List ℕ → Object I
  directory : I.FsDirectory → List ℕ → Object I
  socket : Socket I.net → Object I
  pipe : I.Pipe → Object I
  stdin : Object I
  stdout : Object I

-- The methods of the trait, but for the downcast.
pub record FileLike (State : Type 0) : Type 0 where
  pub read : ℕ → State → LinuxResult (List ℕ) × State
  pub write : List ℕ → State → LinuxResult ℕ × State
  pub stat : State → LinuxResult Kstat
  pub poll : State → LinuxResult PollState
  pub set_nonblocking : Bool → State → LinuxResult (Unit {0}) × State

abbrev ready : Bool → Bool → LinuxResult PollState
ready r w = ok (record { readable = r; writable = w })

module _ {State : Type 0} (I : Inner State) where
  abbrev pub file_impl : I.FsFile → FileLike State
  file_impl f = record {
    read = λ len s. I.file_read f len s;
    write = λ buf s. I.file_write f buf s;
    stat = λ s. I.get_attr f s >>= λ metadata. ok (file_kstat metadata);
    poll = λ s. ready true true;
    set_nonblocking = λ nonblocking s. (ok tt, s);
  }

  abbrev pub directory_impl : FileLike State
  directory_impl = record {
    read = λ len s. (err ebadf, s);
    write = λ buf s. (err ebadf, s);
    stat = λ s. ok directory_kstat;
    poll = λ s. ready true false;
    set_nonblocking = λ nonblocking s. (ok tt, s);
  }

  abbrev pub socket_impl : Socket I.net → FileLike State
  socket_impl k = record {
    read = λ len s. recv I.net k len s;
    write = λ buf s. send I.net k buf s;
    stat = λ s. ok socket_kstat;
    poll = λ s. Sockets.poll I.net k s;
    set_nonblocking = λ nonblock s. Sockets.set_nonblocking I.net k nonblock s;
  }

  abbrev pub pipe_impl : I.Pipe → FileLike State
  pipe_impl p = record {
    read = λ len s. I.pipe_read p len s;
    write = λ buf s. I.pipe_write p buf s;
    stat = λ s. I.pipe_stat p;
    poll = λ s. I.pipe_poll p s;
    set_nonblocking = λ nonblocking s. (ok tt, s);
  }

  abbrev pub stdin_impl : FileLike State
  stdin_impl = record {
    read = λ len s. I.stdin_read len s;
    write = λ buf s. (err eperm, s);
    stat = λ s. ok stdin_kstat;
    poll = λ s. ready true true;
    set_nonblocking = λ nonblocking s. (ok tt, s);
  }

  abbrev pub stdout_impl : FileLike State
  stdout_impl = record {
    read = λ len s. (err eperm, s);
    write = λ buf s. I.stdout_write buf s;
    stat = λ s. ok stdout_kstat;
    poll = λ s. ready true true;
    set_nonblocking = λ nonblocking s. (ok tt, s);
  }

  -- Which implementation a call on `dyn FileLike` comes to.
  abbrev pub file_like : Object I → FileLike State
  file_like (file f path) = file_impl f
  file_like (directory d path) = directory_impl
  file_like (socket k) = socket_impl k
  file_like (pipe p) = pipe_impl p
  file_like stdin = stdin_impl
  file_like stdout = stdout_impl

  -- `into_any().downcast::<File>()`
  unfoldable pub as_file : Object I → LinuxResult I.FsFile
  as_file (file f path) = ok f
  as_file _ = err einval

  unfoldable pub as_directory : Object I → LinuxResult I.FsDirectory
  as_directory (directory d path) = ok d
  as_directory _ = err enotdir

  module _ (O : FlattenObjects (Object I)) where
    unfoldable pub file_from_fd : O.Table → ℕ → LinuxResult I.FsFile
    file_from_fd t fd = get_file_like O t fd >>= as_file

    unfoldable pub directory_from_fd : O.Table → ℕ → LinuxResult I.FsDirectory
    directory_from_fd t fd = get_file_like O t fd >>= as_directory
