-- ===== src/Lock/Access.antt =====
-- internal/lock/lock.go: the lock file, the accesses to it, and whether a lock is stale or one's own. A
-- fault is an error that the operating system gives for one access.
use syncrules.Prelude.{
  ℕ, suc, ◌+◌, ltb, Text, text_eq, nat_eq, codes, Bool, false, not, Option, none, some, ◌==◌, ◌&&◌,
  if◌then◌else◌, Result, ok, err,
}
use syncrules.Domain.{Error, not_found, already_exists, permission_denied, other_error}

pub record LockInfo : Type 0 where
  pub pid : ℕ
  pub hostname : Text
  pub start_time : ℕ
  pub rule_name : Text

-- A file has an identity, which an open handle keeps. The content is `none` while it is no JSON of a `LockInfo`.
pub record LockFile : Type 0 where
  pub inode : ℕ
  pub content : Option LockInfo

-- The file at `lockPath`, if there is one, and the identity of the next file.
pub record Disk : Type 0 where
  pub file : Option LockFile
  pub next_inode : ℕ

-- What the operating system tells a process: its id, its host, the time, and which processes of the host run.
pub record Process : Type 0 where
  pub pid : ℕ
  pub hostname : Text
  pub now : ℕ
  pub process_exists : ℕ → Bool
  pub stale_timeout : ℕ

unfoldable pub read_lock_info : Option Error → Disk → Result Error LockInfo
read_lock_info (some e) d = err e
read_lock_info none d = elim d.file [
  | none ↦ err not_found
  | some f ↦ elim f.content [
    | none ↦ err (other_error (codes "invalid lock file format"))
    | some info ↦ ok info
  ]
]

abbrev with_content : Option LockInfo → Disk → Disk
with_content content d = elim d.file [
  | none ↦ record {
    file = some (record { inode = d.next_inode; content = content });
    next_inode = suc d.next_inode;
  }
  | some f ↦ record {
    file = some (record { inode = f.inode; content = content });
    next_inode = d.next_inode;
  }
]

-- `os.WriteFile`: with the first two errors the file was not opened; any other is taken as one of the
-- write, when the file is already cut and holds no whole record.
unfoldable pub write_lock_info : Option Error → LockInfo → Disk → Disk × Option Error
write_lock_info (some permission_denied) info d = (d, some permission_denied)
write_lock_info (some not_found) info d = (d, some not_found)
write_lock_info (some e) info d = (with_content none d, some e)
write_lock_info none info d = (with_content (some info) d, none)

-- `os.Remove`
unfoldable pub remove_file : Option Error → Disk → Disk × Option Error
remove_file (some e) d = (d, some e)
remove_file none d = elim d.file [
  | none ↦ (d, some not_found)
  | some f ↦ (record { file = none; next_inode = d.next_inode }, none)
]

-- `os.OpenFile` with O_CREATE and O_EXCL: a handle of an empty file.
unfoldable pub create_file : Option Error → Disk → Disk × Result Error ℕ
create_file (some e) d = (d, err e)
create_file none d = elim d.file [
  | some f ↦ (d, err already_exists)
  | none ↦ (
    record {
      file = some (record { inode = d.next_inode; content = none });
      next_inode = suc d.next_inode;
    },
    ok d.next_inode,
  )
]

-- `encoder.Encode(info)` through a handle: it reaches the path if the path still names that file.
unfoldable pub encode : Option Error → ℕ → LockInfo → Disk → Disk × Option Error
encode (some e) handle info d = (d, some e)
encode none handle info d = elim d.file [
  | none ↦ (d, none)
  | some f ↦
      if f.inode == handle
      then (
        record {
          file = some (record { inode = f.inode; content = some info });
          next_inode = d.next_inode;
        },
        none,
      )
      else (d, none)
]

unfoldable pub is_stale : Process → LockInfo → Bool
is_stale p info =
    if info.hostname == p.hostname
    then not (p.process_exists info.pid)
    else ltb (info.start_time + p.stale_timeout) p.now

unfoldable pub is_held_by_current_process : Process → LockInfo → Bool
is_held_by_current_process p info = (info.pid == p.pid) && (info.hostname == p.hostname)

-- The first argument is the field `info` of the lock.
unfoldable pub is_held_by_this_instance : Process → Option LockInfo → LockInfo → Bool
unfolding is_held_by_current_process
is_held_by_this_instance p none info = false
is_held_by_this_instance p (some own) info =
    is_held_by_current_process p info
    && ((own.start_time == info.start_time) && (own.rule_name == info.rule_name))
