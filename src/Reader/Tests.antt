-- ===== src/Reader/Tests.antt =====
-- Reading five bytes.
use py_ipfs_lite.Prelude.{[], ◌∷◌, ◌≡◌, refl}
use py_ipfs_lite.Reader.{SeekableReader, new_reader, everything, read, back, seek}

abbrev five : SeekableReader
five = new_reader (1 ∷ 2 ∷ 3 ∷ 4 ∷ 5 ∷ [])

last_two : (read everything (seek (back 2) 2 five).1).0 ≡ (4 ∷ 5 ∷ [])
unfolding read seek
last_two = refl
