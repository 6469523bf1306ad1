-- ===== src/Rep/Saved.antt =====
-- crates/np2ptp-rep/src/ledger.rs and crates/np2ptp-net/src/receipts.rs: how a value is kept in a file.
-- The code of the ledger and of the receipts is the same but for the type of the value, `V`. A file has
-- its bytes and whether they are known to be on the disk. Other failures of the disk are not modelled.
pub mod Crash
mod Tests
use np2ptp.Prelude.{
  ℕ, ◌≡◌, Option, none, some, List, [], ◌∷◌, ◌++◌, Bool, true, false, Bytes, eq_bytes, Result, ok,
  err,
}
use np2ptp.Prelude.Maps.{Map, lookup, insert, remove}
use np2ptp.Rep.Ledger.{Ledger}
use np2ptp.Rep.Receipt.{Receipt}

-- `bincode` at the type of the value
pub record Codec (V : Type 0) : Type 0 where
  pub serialize : V → Option Bytes
  pub deserialize : Bytes → Option V
  pub deserialize-serialize :
      (v : V) (body : Bytes) → serialize v ≡ some body → deserialize body ≡ some v

abbrev pub Files : Type 0
Files = Map Bytes (Bytes × Bool)

pub data FileStep : Type 0 where
  create : Bytes → FileStep
  write_all : Bytes → Bytes → FileStep
  sync_data : Bytes → FileStep
  rename : Bytes → Bytes → FileStep

abbrev pub written : Files → Bytes → Bytes → Option (Bytes × Bool) → Files
written files path more none = files
written files path more (some (content, synced)) =
    insert eq_bytes files path (content ++ more, false)

abbrev pub flushed : Files → Bytes → Option (Bytes × Bool) → Files
flushed files path none = files
flushed files path (some (content, synced)) = insert eq_bytes files path (content, true)

abbrev pub moved : Files → Bytes → Bytes → Option (Bytes × Bool) → Files
moved files from into none = files
moved files from into (some file) = insert eq_bytes (remove eq_bytes files from) into file

unfoldable pub perform : FileStep → Files → Files
perform (FileStep.create path) files = insert eq_bytes files path ([], false)
perform (FileStep.write_all path more) files = written files path more (lookup eq_bytes files path)
perform (FileStep.sync_data path) files = flushed files path (lookup eq_bytes files path)
perform (FileStep.rename from into) files = moved files from into (lookup eq_bytes files from)

unfoldable pub perform_all : List FileStep → Files → Files
perform_all [] files = files
perform_all (s ∷ steps) files = perform_all steps (perform s files)

pub data LedgerError : Type 0 where
  io codec : LedgerError

-- The calls of `save`; `tmp` is the name of its temporary file.
unfoldable pub save_steps : Bytes → Bytes → Bytes → List FileStep
save_steps tmp path body =
    FileStep.create tmp
    ∷ FileStep.write_all tmp body
    ∷ FileStep.sync_data tmp
    ∷ FileStep.rename tmp path
    ∷ []

module _ {V : Type 0} (bincode : Codec V) (nothing : V) where
  abbrev pub save_body :
      Bytes → Bytes → Files → Option Bytes → Result LedgerError (Unit {0}) × Files
  save_body tmp path files none = (err LedgerError.codec, files)
  save_body tmp path files (some body) = (ok tt, perform_all (save_steps tmp path body) files)

  -- Without a path nothing is saved.
  unfoldable pub save : Bytes → Option Bytes → V → Files → Result LedgerError (Unit {0}) × Files
  save tmp none v files = (ok tt, files)
  save tmp (some path) v files = save_body tmp path files (bincode.serialize v)

  -- `quarantine_corrupt`; `aside` is the name that it makes from the time and the process.
  unfoldable pub quarantine_corrupt : Bytes → Bytes → Files → Files
  quarantine_corrupt aside path files = perform (FileStep.rename path aside) files

  abbrev pub read_value : Bytes → Bytes → Files → Option V → V × Files
  read_value aside path files (some v) = (v, files)
  read_value aside path files none = (nothing, quarantine_corrupt aside path files)

  abbrev pub read_file : Bytes → Bytes → Files → Option (Bytes × Bool) → V × Files
  read_file aside path files none = (nothing, files)
  read_file aside path files (some (content, synced)) =
      read_value aside path files (bincode.deserialize content)

  unfoldable pub open_saved : Bytes → Bytes → Files → V × Files
  open_saved aside path files = read_file aside path files (lookup eq_bytes files path)

abbrev pub open_ledger : {K : Type 0} → Codec (Ledger K) → Bytes → Bytes → Files → Ledger K × Files
open_ledger bincode = open_saved bincode []

abbrev pub open_bag : Codec (List Receipt) → Bytes → Bytes → Files → List Receipt × Files
open_bag bincode = open_saved bincode []

abbrev pub save_ledger :
    {K : Type 0}
    → Codec (Ledger K)
    → Bytes
    → Option Bytes
    → Ledger K
    → Files
    → Result LedgerError (Unit {0}) × Files
save_ledger bincode = save bincode []

abbrev pub save_bag :
    Codec (List Receipt)
    → Bytes
    → Option Bytes
    → List Receipt
    → Files
    → Result LedgerError (Unit {0}) × Files
save_bag bincode = save bincode []
