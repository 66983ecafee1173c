-- ===== src/Storage/Laws.antt =====
-- src/storage.c: reading after a write.
use luminix_experience_platf.Base.{
  sym, ◌∙◌, take_all, ltb, length-append, ◌⊎◌, take, drop, ap, length, Bytes, ℕ, zero, suc, ◌+◌,
  ◌-◌, ◌≤◌, ◌<◌, ℤ, pos, true, [], ◌∷◌, ◌++◌, some, ◌≡◌, refl, arith, if◌then◌else◌,
}
use luminix_experience_platf.Storage.{
  Storage, FileSystem, storage_read, storage_write, zeros, write_at,
}

length-zeros : (n : ℕ) → length (zeros n) ≡ n
unfolding zeros
length-zeros zero = refl
length-zeros (suc n) = ap suc (length-zeros n)

length-take : (n : ℕ) (xs : Bytes) → n ≤ length xs → length (take n xs) ≡ n
length-take zero xs h = refl
length-take (suc n) [] h = absurd (omega arith)
length-take (suc n) (x ∷ xs) h = ap suc (length-take n xs (omega arith))

drop-append : (n : ℕ) (xs ys : Bytes) → length xs ≡ n → drop n (xs ++ ys) ≡ ys
drop-append zero [] ys h = refl
drop-append zero (x ∷ xs) ys h = absurd (omega arith)
drop-append (suc n) [] ys h = absurd (omega arith)
drop-append (suc n) (x ∷ xs) ys h = drop-append n xs ys (omega arith)

take-append : (n : ℕ) (xs ys : Bytes) → length xs ≡ n → take n (xs ++ ys) ≡ xs
take-append zero [] ys h = refl
take-append zero (x ∷ xs) ys h = absurd (omega arith)
take-append (suc n) [] ys h = absurd (omega arith)
take-append (suc n) (x ∷ xs) ys h = ap (λ r. x ∷ r) (take-append n xs ys (omega arith))

length-drop : (n : ℕ) (xs : Bytes) → length (drop n xs) ≡ length xs - n
length-drop zero xs = omega arith
length-drop (suc n) [] = omega arith
length-drop (suc n) (x ∷ xs) = omega (arith, length-drop n xs)

length-before :
    (content : Bytes) (offset : ℕ)
    → length (take offset (content ++ zeros (offset - length content))) ≡ offset
length-before content offset = length-take offset (content ++ zeros (offset - length content)) (
    omega (
      arith,
      length-append content (zeros (offset - length content)),
      length-zeros (offset - length content),
    ))

read-write_at :
    (content bytes : Bytes) (offset : ℕ)
    → take (length bytes) (drop offset (write_at content offset bytes)) ≡ bytes
unfolding write_at
read-write_at content bytes offset =
    rw
      (drop-append offset (take offset (content ++ zeros (offset - length content)))
        (bytes ++ drop (offset + length bytes) content) (length-before content offset))
      (take-append (length bytes) bytes (drop (offset + length bytes) content) refl)

length-write_at :
    (content bytes : Bytes) (offset : ℕ)
    → (length content ≤ length (write_at content offset bytes))
      × (offset + length bytes ≤ length (write_at content offset bytes))
      × ((length (write_at content offset bytes) ≡ length content)
          ⊎ (length (write_at content offset bytes) ≡ offset + length bytes))
unfolding write_at
length-write_at content bytes offset = ground (
  arith,
  length-append (take offset (content ++ zeros (offset - length content)))
      (bytes ++ drop (offset + length bytes) content),
  length-append bytes (drop (offset + length bytes) content),
  length-before content offset,
  length-drop (offset + length bytes) content,
)

read_open :
    (content : Bytes) (s : Storage) (n k : ℕ)
    → s.fd_open ≡ true
    → storage_read content s true n (pos k)
      ≡ (pos (length (take n (drop k content))), take n (drop k content))
unfolding storage_read
read_open content s n k o = rw o refl

-- the size after a write up to `stop`
abbrev grown : Storage → ℕ → Storage
grown s stop = if ltb s.size stop then record s { size = stop } else s

write_taken :
    (disk : FileSystem) (content : Bytes) (s : Storage) (bytes : Bytes) (offset n : ℕ)
    → s.fd_open ≡ true
    → disk.takes (length bytes) ≡ some (suc n)
    → storage_write disk content s (some bytes) (pos offset)
      ≡ (pos (suc n), grown s (offset + suc n), write_at content offset (take (suc n) bytes))
unfolding storage_write
write_taken disk content s bytes offset n o t = ground (arith, o, t)

write_all :
    (disk : FileSystem) (content : Bytes) (s : Storage) (bytes : Bytes) (offset n : ℕ)
    → s.fd_open ≡ true
    → length bytes ≡ suc n
    → disk.takes (suc n) ≡ some (suc n)
    → storage_write disk content s (some bytes) (pos offset)
      ≡ (pos (suc n), grown s (offset + suc n), write_at content offset bytes)
write_all disk content s bytes offset n o l t =
    write_taken disk content s bytes offset n o (rw l t)
    ∙ rw (take_all (suc n) bytes (omega arith)) refl

grown-fd_open : (s : Storage) (stop : ℕ) → (grown s stop).fd_open ≡ s.fd_open
grown-fd_open s stop = ground arith

grown-size :
    (s : Storage) (stop : ℕ)
    → (s.size ≤ (grown s stop).size)
      × (stop ≤ (grown s stop).size)
      × (((grown s stop).size ≡ s.size) ⊎ ((grown s stop).size ≡ stop))
grown-size s stop = ground arith

-- If a storage is open, its size is that of the file, and the disk takes all of some bytes, at
-- least one, at an offset that is not negative: `storage_write` returns their number,
-- `storage_read` at that offset gives them back, and the size is that of the new file.
pub storage_read-storage_write :
    (disk : FileSystem) (content : Bytes) (s : Storage) (bytes : Bytes) (offset : ℕ)
    → s.fd_open ≡ true
    → s.size ≡ length content
    → disk.takes (length bytes) ≡ some (length bytes)
    → 0 < length bytes
    → let w : ℤ × Storage × Bytes = storage_write disk content s (some bytes) (pos offset) in
      (w.0 ≡ pos (length bytes))
      × (storage_read w.2 w.1 true (length bytes) (pos offset) ≡ (pos (length bytes), bytes))
      × (w.1.size ≡ length w.2)
unfolding storage_write storage_read
storage_read-storage_write disk content s bytes offset o z t p = by_length (length bytes) refl t p
  where
    by_length :
        (n : ℕ)
        → length bytes ≡ n
        → disk.takes n ≡ some n
        → 0 < n
        → let w : ℤ × Storage × Bytes = storage_write disk content s (some bytes) (pos offset) in
          (w.0 ≡ pos n)
          × (storage_read w.2 w.1 true n (pos offset) ≡ (pos n, bytes))
          × (w.1.size ≡ length w.2)
    by_length zero l t p = absurd (omega arith)
    by_length (suc n) l t p = rw (write_all disk content s bytes offset n o l t) (
      refl,
      read_open (write_at content offset bytes) (grown s (offset + suc n)) (suc n) offset
            (grown-fd_open s (offset + suc n) ∙ o)
          ∙ ap (λ r. (pos (length {A = ℕ} r), r))
              (ap (λ k. take k (drop offset (write_at content offset bytes))) (sym l)
                ∙ read-write_at content bytes offset)
          ∙ ap (λ k. (pos k, bytes)) l,
      omega (arith, grown-size s (offset + suc n), length-write_at content bytes offset),
    )
