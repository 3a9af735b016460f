-- ===== src/Log/Entry/RoundTrip.antt =====
-- What is written through an entry is what is read from it afterwards, and nothing else changes.
use pylogstream.Prelude.Dict.{get, put, get-put_self}
use pylogstream.Prelude.Exec.{Done}
use pylogstream.Text.{Text, Bytes}
use pylogstream.Log.Entry.{
  Entry, Files, truncate, overwrite, content, read_bytes, slice, slice_index, grow, store, write_in,
  write,
}
use pylogstream.Prelude.{
  ◌==◌, Result, some, max, pos, ok, ltb, min, inl, inr, text_eq, if◌then◌else◌, true, Bool, Option,
  pos-+ℤ, take-length, ◌∙◌, sym, Bool-cases, length-take, ap, ℕ, ◌+◌, ◌-◌, ◌≤◌, ◌≡◌, refl, take,
  drop, length, arith,
}
use pylogstream.Log.Entry.Slices.{
  length-truncate, slice-truncate, slice-overwrite_before, slice-overwrite, length-overwrite,
}

-- The entry is loaded, and its view covers its file, whose content is `f`.
pub record IsLoaded (e : Entry) (files : Files) (f : Bytes) : Type 0 where
  pub viewed : e.mv ≡ some (length f)
  pub sized : e.capacity ≡ some (length f)
  pub stored : get files e.filepath ≡ some f

content-get : (files : Files) (p : Text) (f : Bytes) → get files p ≡ some f → content files p ≡ f
unfolding content
content-get files p f h = rw (content, h) refl

-- Reading inside the view gives those bytes of the file.
pub read_bytes_lem :
    (e : Entry) (files : Files) (f : Bytes) (offset size : ℕ)
    → IsLoaded e files f
    → offset + size ≤ length f
    → read_bytes (pos offset) size (e, files) ≡ ok (take size (drop offset f))
unfolding read_bytes slice slice_index
read_bytes_lem e files f offset size l h =
    let whole : length (take (length f) f) ≡ length f = omega (arith, length-take (length f) f) in
    rw (l.viewed, content-get files e.filepath f l.stored, take-length f, pos-+ℤ offset size)
      (let a : min offset (length f) ≡ offset = omega arith in
        let b : min (offset + size) (length f) ≡ offset + size = omega arith in
        let c : offset + size - offset ≡ size = omega arith in rw (a, b, c) refl)

-- The file after `grow`, and its length.
abbrev pub grown : Entry → ℕ → Bytes → Bytes
grown e required f =
    if ltb (length f) required then truncate (max required (e.segment_size_inc + length f)) f else f

pub length-grown :
    (e : Entry) (required : ℕ) (f : Bytes)
    → length (grown e required f)
      ≡ (if ltb (length f) required then max required (e.segment_size_inc + length f) else length f)
length-grown e required f =
    ground (arith, length-truncate (max required (e.segment_size_inc + length f)) f)

slice-grown :
    (e : Entry) (required o l : ℕ) (f : Bytes)
    → o + l ≤ length f
    → take l (drop o (grown e required f)) ≡ take l (drop o f)
slice-grown e required o l f h = elim (Bool-cases (ltb (length f) required)) [
  | inl t ↦
      rw t (slice-truncate (max required (e.segment_size_inc + length f)) o l f h (ground arith))
  | inr t ↦ rw t refl
]

grow-IsLoaded :
    (e : Entry) (files : Files) (f : Bytes) (required : ℕ)
    → IsLoaded e files f
    → (e' : Entry) × (files' : Files) × (grow required (length f) (length f) e files
        ≡ (length (grown e required f), e', files'))
      × IsLoaded e' files' (grown e required f)
unfolding grow
grow-IsLoaded e files f required l =
    let c = content-get files e.filepath f l.stored in
    let new = max required (e.segment_size_inc + length f) in
    let g = truncate new f in
    elim (Bool-cases (ltb (length f) required)) [
      | inl t ↦ (
        record e { capacity = some (length g); mv = some (length g) },
        put files e.filepath g,
        rw (t, c, length-truncate new f) refl,
        rw t (record { viewed = refl; sized = refl; stored = get-put_self files e.filepath g }),
      )
      | inr t ↦ (e, files, rw t refl, rw t l)
    ]

store_lem :
    (e : Entry) (files : Files) (f msg : Bytes) (offset : ℕ)
    → IsLoaded e files f
    → offset + length msg ≤ length f
    → (store offset msg (length f) e files
        ≡ (ok tt, (e, put files e.filepath (overwrite offset msg f))))
      × IsLoaded e (put files e.filepath (overwrite offset msg f)) (overwrite offset msg f)
unfolding store
store_lem e files f msg offset l h =
    let fits : ((min (offset + length msg) (length f) - min offset (length f)) == length msg)
        ≡ true =
      ground arith in
    let n = length-overwrite offset msg f h in
    (
      rw (fits, content-get files e.filepath f l.stored) refl,
      record {
        viewed = l.viewed ∙ ap some (sym n);
        sized = l.sized ∙ ap some (sym n);
        stored = get-put_self files e.filepath (overwrite offset msg f);
      },
    )

store_grown : ℕ → Bytes → ℕ × Entry × Files → Result Done × (Entry × Files)
unfolding store
store_grown offset msg (m, e, files) = store offset msg m e files

write_in_lem :
    (e : Entry) (files : Files) (msg : Bytes) (offset n c : ℕ) (mv capacity : Option ℕ) (w : Bool)
    → mv ≡ some n
    → capacity ≡ some c
    → w ≡ true
    → write_in offset msg e files mv capacity w
      ≡ store_grown offset msg (grow (offset + length msg) n c e files)
unfolding write_in store_grown
write_in_lem e files msg offset n c mv capacity w a b d = rw (a, b, d) refl

write-IsLoaded :
    (e : Entry) (files : Files) (f msg : Bytes) (offset : ℕ)
    → IsLoaded e files f
    → e.mutable ≡ true
    → (e' : Entry) × (files' : Files) × (write offset msg (e, files) ≡ (ok tt, (e', files')))
      × IsLoaded e' files' (overwrite offset msg (grown e (offset + length msg) f))
unfolding write store_grown
write-IsLoaded e files f msg offset l w =
    let (e', files', g, l') = grow-IsLoaded e files f (offset + length msg) l in
    let (s, l'') =
      store_lem e' files' (grown e (offset + length msg) f) msg offset l'
        (ground (arith, length-grown e (offset + length msg) f)) in
    (
      e',
      put files' e'.filepath (overwrite offset msg (grown e (offset + length msg) f)),
      write_in_lem e files msg offset (length f) (length f) e.mv e.capacity e.mutable l.viewed
            l.sized w
          ∙ ap (store_grown offset msg) g
          ∙ s,
      l'',
    )

-- Writing a message through a loaded, mutable entry whose view covers the file succeeds and leaves the
-- entry loaded; reading at the offset gives the message; reading what was in the file before the offset
-- gives what it gave before; and the file has the old length or, where that does not hold the message,
-- the larger of the length required and one step more than the old length.
pub write-read_bytes :
    (e : Entry) (files : Files) (f msg : Bytes) (offset o size : ℕ)
    → IsLoaded e files f
    → e.mutable ≡ true
    → o + size ≤ offset
    → o + size ≤ length f
    → (e' : Entry) × (files' : Files) × (f' : Bytes) × (write offset msg (e, files)
        ≡ (ok tt, (e', files')))
      × IsLoaded e' files' f'
      × (read_bytes (pos offset) (length msg) (e', files') ≡ ok msg)
      × (read_bytes (pos o) size (e', files') ≡ read_bytes (pos o) size (e, files))
      × (length f' ≡ (
          if ltb (length f) (offset + length msg)
          then max (offset + length msg) (e.segment_size_inc + length f)
          else length f))
write-read_bytes e files f msg offset o size l w a b =
    let (e', files', h, l') = write-IsLoaded e files f msg offset l w in
    let g = grown e (offset + length msg) f in
    let room : offset + length msg ≤ length g =
      ground (arith, length-grown e (offset + length msg) f) in
    let n = length-overwrite offset msg g room in
    (
      e',
      files',
      overwrite offset msg g,
      h,
      l',
      read_bytes_lem e' files' (overwrite offset msg g) offset (length msg) l'
            (omega (arith, n, room))
          ∙ ap ok (slice-overwrite offset msg g (omega (arith, room))),
      read_bytes_lem e' files' (overwrite offset msg g) o size l' (omega (arith, n, room))
          ∙ ap ok (
              slice-overwrite_before offset o size msg g a (omega (arith, room))
              ∙ slice-grown e (offset + length msg) o size f b)
          ∙ sym (read_bytes_lem e files f o size l b),
      n ∙ length-grown e (offset + length msg) f,
    )
