-- ===== src/Rep/Saved/Tests.antt =====
-- Saved receipts at concrete inputs.
use np2ptp.Prelude.{
  ◌≡◌, ◌≢◌, refl, Option, none, some, [], ◌∷◌, take, Bool, true, false, if◌then◌else◌, ◌⊎◌, inr,
  Bytes, eq_bytes,
}
use np2ptp.Prelude.Maps.{lookup, insert}
use np2ptp.Rep.Saved.{Codec, Files, perform, perform_all, save_steps, open_saved}
use np2ptp.Rep.Saved.Crash.{Survives, open_saved-crash}

-- The value is its own bytes.
same_bytes : (v body : Bytes) → some v ≡ some body → some body ≡ some v
same_bytes v body h = cc h

abbrev plain_bytes : Codec Bytes
plain_bytes = record { serialize = some; deserialize = some; deserialize-serialize = same_bytes }

abbrev main_file : Bytes
main_file = 1 ∷ []

abbrev tmp_file : Bytes
tmp_file = 2 ∷ []

abbrev before : Files
before = (main_file, (7 ∷ 7 ∷ [], true)) ∷ []

-- The machine crashes after the write, and half of the temporary file is there.
abbrev torn : Files
torn = (main_file, (7 ∷ 7 ∷ [], true)) ∷ (tmp_file, (8 ∷ [], false)) ∷ []

different_files : tmp_file ≢ main_file
different_files h = cc h

abbrev found : Bytes → Bool → Bool → Option (Bytes × Bool)
found rest is_main is_tmp =
    if is_main then some (7 ∷ 7 ∷ [], true) else if is_tmp then some (rest, false) else none

still_absent : (a b : Bool) → found (8 ∷ 9 ∷ []) a b ≡ none → found (8 ∷ []) a b ≡ none
still_absent true b h = cc h
still_absent false true h = cc h
still_absent false false h = refl

still_there :
    (a b : Bool) (content : Bytes)
    → found (8 ∷ 9 ∷ []) a b ≡ some (content, true)
    → found (8 ∷ []) a b ≡ some (content, true)
still_there true b content h = h
still_there false true content h = cc h
still_there false false content h = cc h

torn-Survives :
    Survives (perform_all (take 2 (save_steps tmp_file main_file (8 ∷ 9 ∷ []))) before) torn
unfolding perform_all perform save_steps insert lookup eq_bytes
torn-Survives = (
  λ path. still_absent (eq_bytes main_file path) (eq_bytes tmp_file path),
  λ path. still_there (eq_bytes main_file path) (eq_bytes tmp_file path),
)

open_saved-crash_example :
    ((open_saved plain_bytes [] [] main_file torn).0
      ≡ (open_saved plain_bytes [] [] main_file before).0)
    ⊎ ((open_saved plain_bytes [] [] main_file torn).0 ≡ 8 ∷ 9 ∷ [])
unfolding lookup eq_bytes
open_saved-crash_example =
    open_saved-crash plain_bytes [] [] tmp_file main_file (8 ∷ 9 ∷ []) (8 ∷ 9 ∷ []) 2 before torn
      different_files refl (inr (7 ∷ 7 ∷ [], refl)) torn-Survives
