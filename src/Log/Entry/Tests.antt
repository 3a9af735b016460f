-- ===== src/Log/Entry/Tests.antt =====
-- A file of eight bytes, and the theorem about writing at it.
use pylogstream.Prelude.{
  ◌+◌, ◌≡◌, refl, arith, true, [], ◌∷◌, some, ok, if◌then◌else◌, ltb, max, pos, length, text_eq,
}
use pylogstream.Prelude.Dict.{get}
use pylogstream.Text.{Bytes, codes}
use pylogstream.Log.Entry.{Entry, Files, write, read_bytes}
use pylogstream.Log.Entry.RoundTrip.{IsLoaded, write-read_bytes}

abbrev bytes : Bytes
bytes = 1 ∷ 2 ∷ 3 ∷ 4 ∷ 5 ∷ 6 ∷ 7 ∷ 8 ∷ []

abbrev files : Files
files = (codes "p", bytes) ∷ []

abbrev entry : Entry
entry = record {
  filepath = codes "p";
  mutable = true;
  refcount = pos 1;
  capacity = some 8;
  mv = some 8;
  init_segment_size = 8;
  segment_size_inc = 4;
}

entry-IsLoaded : IsLoaded entry files bytes
unfolding get
entry-IsLoaded = record { viewed = refl; sized = refl; stored = refl }

-- Three bytes at offset 6 do not fit into eight.
write-read_bytes_example :
    (e' : Entry) × (files' : Files) × (f' : Bytes) × (write 6 (9 ∷ 9 ∷ 9 ∷ []) (entry, files)
      ≡ (ok tt, (e', files')))
    × IsLoaded e' files' f'
    × (read_bytes (pos 6) 3 (e', files') ≡ ok (9 ∷ 9 ∷ 9 ∷ []))
    × (read_bytes (pos 1) 5 (e', files') ≡ read_bytes (pos 1) 5 (entry, files))
    × (length f' ≡ (
        if ltb (length bytes) (6 + 3)
        then max (6 + 3) (entry.segment_size_inc + length bytes)
        else length bytes))
write-read_bytes_example =
    write-read_bytes entry files bytes (9 ∷ 9 ∷ 9 ∷ []) 6 1 5 entry-IsLoaded refl (omega arith)
      (omega arith)
