-- ===== src/Driver/Lookup/Entry.antt =====
-- cromfs.cc, `dir_lookup`: the entry that a round of the search reads.
use cromfs.Base.{
  ℕ, suc, ◌+◌, ◌-◌, ◌%◌, ◌^◌, ◌<◌, ◌≡◌, ◌≢◌, refl, sym, ap, ◌∙◌, arith, [], ◌∷◌, ◌++◌, length,
  length-append, get_elem?, take, drop, replicate, length-replicate, All,
}
use cromfs.Base.{false, some, ltb, leb, ◌==◌, ◌||◌, ok}
use cromfs.Base.Access.{drop-append}
use cromfs.Base.Bytes.{Bytes, le_bytes, length-le_bytes}
use cromfs.Endian.{get_64}
use cromfs.Endian.Get.{get_64_at}
use cromfs.Endian.Window.{window}
use cromfs.Format.{DirInfo}
use cromfs.Inode.{Inode}
use cromfs.Directory.Layout.{entry_bytes, directory_bytes}
use cromfs.Directory.Places.{address, address-suc, address-le, entry_at_address}
use cromfs.Cache.{Cache}
use cromfs.Driver.{Fs, LzmaDecode, done, ◌>>=◌}
use cromfs.Driver.Read.{read_file_data}
use cromfs.Driver.Content.{IsCoherent, moved}
use cromfs.Driver.File.{HoldsFile}
use cromfs.Driver.Lookup.{c_string, read_entry}
use cromfs.Driver.Lookup.Pointers.{read_part}
use cromfs.Base.Access.{take_all}

-- A name that a directory can hold: not empty and without a nul byte, and a number of 64 bits.
abbrev pub IsEntry : Bytes × ℕ → Type 0
IsEntry (name, ino) = (0 < length name) × All (λ x. x ≢ 0) name × (ino < 2 ^ 64)

c_string_step :
    (x : ℕ) (xs s : Bytes) → x ≢ 0 → c_string xs ≡ some s → c_string (x ∷ xs) ≡ some (x ∷ s)
c_string_step x xs s h rest =
    let e : (x == 0) ≡ false = ground arith in unfold c_string in rw (c_string, e, rest)

pub c_string-append :
    (name rest : Bytes) → All (λ x. x ≢ 0) name → c_string (name ++ (0 ∷ rest)) ≡ some name
c_string-append [] rest h = unfold c_string in refl
c_string-append (x ∷ xs) rest (here, h) =
    c_string_step x (xs ++ (0 ∷ rest)) xs here (c_string-append xs rest h)

module _ (decode : LzmaDecode) (fs : Fs) (inode : Inode) (dir : DirInfo)
    (holds : HoldsFile decode fs inode (directory_bytes dir))
    (fits : length (directory_bytes dir) < 2 ^ 32) where
  read_entry_step :
      (offs_this offs_next size room ino n : ℕ) (buf name : Bytes) (s s' : Fs)
      → leb offs_next ((offs_this + 9) % 2 ^ 32)
          || (leb inode.bytesize offs_this || ltb inode.bytesize offs_next)
        ≡ false
      → (offs_next + 2 ^ 32 - offs_this) % 2 ^ 32 ≡ size
      → (size + 2 ^ 32 - 8) % 2 ^ 32 ≡ room
      → read_file_data decode inode offs_this (replicate size 0) size s ≡ done (buf, n) s'
      → get_64 buf 0 ≡ ok ino
      → c_string (take room (drop 8 buf)) ≡ some name
      → read_entry decode inode offs_this offs_next s ≡ done (ino, name) s'
  read_entry_step offs_this offs_next size room ino n buf name s s' valid len rest reads number
        text =
      unfold read_entry in rw (read_entry, ◌>>=◌, valid, len, reads, number, len, rest, text)

  -- The entry at an index, between its address and the next one.
  pub read_entry_lem :
      (cache : Cache Bytes) (ticks i : ℕ) (name : Bytes) (ino : ℕ)
      → IsCoherent decode (moved fs cache ticks)
      → get_elem? dir i ≡ some (name, ino)
      → IsEntry (name, ino)
      → (cache' : Cache Bytes) × (ticks' : ℕ) × (read_entry decode inode
            (address dir i)
            (address dir (suc i))
            (moved fs cache ticks)
          ≡ done (ino, name) (moved fs cache' ticks'))
        × IsCoherent decode (moved fs cache' ticks')
  read_entry_lem cache ticks i name ino coherent at (some_name, no_nul, low) =
      let next = address-suc dir i name ino at in
      let last = address-le dir (suc i) in
      let size : ℕ = 9 + length name in
      let text : Bytes = name ++ (0 ∷ []) in
      let (cache', ticks', reads, coherent') =
        read_part decode fs inode dir holds fits cache ticks (address dir i) size (replicate size 0)
          coherent (omega arith) (length-replicate size 0) in
      let entry : window (directory_bytes dir) (address dir i) size ≡ le_bytes 8 ino ++ text =
        entry_at_address dir i name ino at ∙ (unfold entry_bytes in refl) in
      let valid : leb (address dir (suc i)) ((address dir i + 9) % 2 ^ 32)
            || (leb inode.bytesize (address dir i) || ltb inode.bytesize (address dir (suc i)))
          ≡ false =
        ground (arith, holds.bytesize) in
      let name_at : take (length name + 1) (drop 8 (le_bytes 8 ino ++ text)) ≡ text =
        ap (take (length name + 1))
          (drop-append (le_bytes 8 ino) text 8 (sym (length-le_bytes 8 ino)))
        ∙ take_all (length name + 1) text (omega (arith, length-append name (0 ∷ []))) in
      (
        cache',
        ticks',
        read_entry_step (address dir i) (address dir (suc i)) size (length name + 1) ino size
            (le_bytes 8 ino ++ text) name (moved fs cache ticks) (moved fs cache' ticks') valid
            (omega arith) (omega arith)
            (reads ∙ ap (λ b. done (b, size) (moved fs cache' ticks')) entry)
            (get_64_at [] text 0 ino refl low)
            (ap c_string name_at ∙ c_string-append name [] no_nul),
        coherent',
      )
