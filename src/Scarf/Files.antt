-- ===== src/Scarf/Files.antt =====
-- What the editor asks of the system while it handles one key: the calls of the anssos library
-- that userland/rust/scarf/src/buffer.rs and sidebar.rs make.
use anss_os.Common.{Bool, Bytes, List, Option}

pub record DirEntry : Type 0 where
  pub name : Bytes
  pub is_dir : Bool

-- `File::create` refused, or `write_all` with its result.
pub data WriteResult : Type 0 where
  cannot_create : WriteResult
  wrote : Bool → WriteResult

pub record Files : Type 0 where
  -- `File::open`, and what the `read`s of the open file return, one after the other.
  pub reads : Bytes → Option (List Bytes)
  pub write_all : Bytes → Bytes → WriteResult
  pub read_dir : Bytes → Option (List DirEntry)
