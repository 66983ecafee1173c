-- ===== src/Storage.antt =====
-- src/storage.c: reading and writing at an offset of a file that is open. `content` are the bytes of
-- the file, and `FileSystem` is what the system answers.
pub mod Laws
use luminix_experience_platf.Base.{
  ltb, pos_part, length, drop, take, minus_one, ltb_ℤ, Bytes, ◌*◌, ◌/◌, ◌%◌, ◌^◌, ◌==◌, ℕ, zero,
  suc, ◌+◌, ◌-◌, ◌≤◌, ◌<◌, ℤ, pos, negsuc, Bool, true, false, not, ◌&&◌, ◌||◌, List, [], ◌∷◌, ◌++◌,
  Option, none, some, ◌≡◌, ◌≢◌, ◌↔◌, refl, arith, if◌then◌else◌, inl, inr,
}

-- `fd` is open or -1; the path is left out once it is copied
pub record Storage : Type 0 where
  pub fd_open : Bool
  pub size : ℕ

-- whether `open` succeeds, and how many bytes one `write` takes, if it does not fail
pub record FileSystem : Type 0 where
  pub opens : Bool
  pub takes : ℕ → Option ℕ

-- -1 or 0, and the storage; the copy of the path is granted, and `fstat` succeeds
unfoldable pub storage_init : FileSystem → Bytes → Option Bytes → Storage → ℤ × Storage
storage_init disk content none s = (minus_one, s)
storage_init disk content (some path) s =
    if not disk.opens
    then (minus_one, record s { fd_open = false })
    else (pos 0, record { fd_open = true; size = length content })

-- `lseek` fails for a negative offset
abbrev pub seeks : ℤ → Bool
seeks (pos n) = true
seeks (negsuc n) = false

-- what is read, and its number of bytes; `has_buffer` tells whether `buffer` is not NULL
unfoldable pub storage_read : Bytes → Storage → Bool → ℕ → ℤ → ℤ × Bytes
storage_read content s has_buffer size offset =
    if not s.fd_open || not has_buffer
    then (minus_one, [])
    else if not (seeks offset)
    then (minus_one, [])
    else let read : Bytes = take size (drop (pos_part offset) content) in (pos (length read), read)

unfoldable pub zeros : ℕ → Bytes
zeros zero = []
zeros (suc n) = 0 ∷ zeros n

-- the file after `write`: a hole before the offset reads as zeros
unfoldable pub write_at : Bytes → ℕ → Bytes → Bytes
unfolding zeros
write_at content offset bytes =
    take offset (content ++ zeros (offset - length content))
    ++ (bytes ++ drop (offset + length bytes) content)

-- the number of bytes written, the storage, and the file
unfoldable pub storage_write : FileSystem → Bytes → Storage → Option Bytes → ℤ → ℤ × Storage × Bytes
unfolding write_at
storage_write disk content s none offset = (minus_one, s, content)
storage_write disk content s (some bytes) offset =
    if not s.fd_open
    then (minus_one, s, content)
    else if not (seeks offset)
    then (minus_one, s, content)
    else elim (disk.takes (length bytes)) [
      | none ↦ (minus_one, s, content)
      | some n ↦
          let stop : ℕ = pos_part offset + n in
          (
            pos n,
            (if not (n == 0) && ltb s.size stop then record s { size = stop } else s),
            (if n == 0 then content else write_at content (pos_part offset) (take n bytes)),
          )
    ]

unfoldable pub storage_close : Storage → Storage
storage_close s = record { fd_open = false; size = 0 }
